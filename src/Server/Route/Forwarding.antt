-- ===== src/Server/Route/Forwarding.antt =====
-- Messages for another node on their way (cpm/cpm_server.cc): into its cache, and out of it when the
-- connection comes.
use cpmd.Base.{ℕ, ◌≡◌, ◌≢◌, ap, subst, ◌∙◌, ◌⊎◌, inl, inr, true, some, List, [], ◌++◌, All}
use cpmd.Base.Map
use cpmd.Base.Outcome.{ok, aborted}
use cpmd.Alpha.{Alpha}
use cpmd.Message.{Message}
use cpmd.Queue.Bound.{last_n}
use cpmd.Node.{Node, flush_list}
use cpmd.Node
use cpmd.Node.Deliver.{Writes}
use cpmd.Node.Connect.{set_connection-Writes}
use cpmd.Server.{Server, find_node, find_node_by_net_address, put_node}
use cpmd.Server.Peers.{registered_node, on_connected_to_remote_node}
use cpmd.Server.Route.Waiting.{IsWaiting, route_all, route_all-IsWaiting}

module _ ⦃α : Alpha⦄ where
  -- The connection comes to a server, while the network is `w`: either it is accepted, and the
  -- messages are written to it, in order, or an assert stops cpmd, because the connection is closed
  -- or a write fails.
  abbrev pub Forwarded : α.World → Server → α.Conn → List Message → Type 0
  Forwarded w t c ms =
      ((u : Server) × (on_connected_to_remote_node t c ≡ ok u) × Writes c w ms u.net)
      ⊎ ((on_connected_to_remote_node t c ≡ aborted)
          × ((α.closed w c ≡ true) ⊎ ((flush_list w c ms).1 ≢ [])))

  pub registered_node-eq :
      (t : Server) (a : α.NetAddress) (k : ℕ) (n : Node)
      → find_node_by_net_address t a ≡ some k
      → find_node t k ≡ some n
      → registered_node t a ≡ ok (k, n)
  unfolding registered_node
  registered_node-eq t a k n e f = rw (e, f)

  pub connected-Forwarded :
      (t : Server) (c : α.Conn) (k : ℕ) (n : Node)
      → registered_node t (α.peer_addr c) ≡ ok (k, n)
      → Forwarded t.net t c (Node.cached n)
  unfolding on_connected_to_remote_node put_node
  connected-Forwarded t c k n e = elim (set_connection-Writes t.net n c) [
    | inl (u, n', run, written, _, _, _, _) ↦
        inl (put_node k n' (record t { net = u }), rw (e, run), written)
    | inr (run, why) ↦ inr (rw (e, run), why)
  ]

  -- Messages for a node that waits, whose address is registered, and then its connection: all
  -- messages are accepted; and when the connection comes, either it is accepted and exactly the
  -- newest of what was cached and of these messages, in order, as many as kMaxCachedMessageNum,
  -- are written to it; or an assert stops cpmd, and then the connection is closed or the loop over
  -- these messages left some.
  route_all-on_connected_to_remote_node :
      (k : ℕ) (s : Server) (ms : List Message) (c : α.Conn) (v : IsWaiting k s)
      → All (λ m. m.to.node_addr ≡ k) ms
      → find_node_by_net_address s (α.peer_addr c) ≡ some k
      → (t : Server) × (route_all ms s ≡ ok t)
        × Forwarded s.net t c (last_n Node.max_cached_message_num (Node.cached v.node ++ ms))
  unfolding find_node_by_net_address
  route_all-on_connected_to_remote_node k s ms c v h e =
      let (t, run, w, kept, net, index) = route_all-IsWaiting k ms s v h in
      let found : find_node_by_net_address t (α.peer_addr c) ≡ some k =
        ap (λ (m : List (α.NetAddress × ℕ)). Map.find ⦃o = α.net_key⦄ (α.peer_addr c) m) index
        ∙ e in
      (
        t,
        run,
        moved t (Node.cached w.node) _ net kept (
            connected-Forwarded t c k w.node
              (registered_node-eq t (α.peer_addr c) k w.node found w.found)),
      )
    where
      moved :
          (t : Server) (xs ys : List Message)
          → t.net ≡ s.net
          → xs ≡ ys
          → Forwarded t.net t c xs
          → Forwarded s.net t c ys
      moved t xs ys n e f =
          subst (λ w. Forwarded w t c ys) n (subst (λ zs. Forwarded t.net t c zs) e f)
