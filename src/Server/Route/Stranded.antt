-- ===== src/Server/Route/Stranded.antt =====
-- Messages for a node (cpm/cpm_server.cc): after a refused resolution (UpdateNodeAddressCache),
-- and after a lost connection (OnRemoteNodeDisconnected).
use cpmd.Base.{
  ℕ, Option, none, [], ap, ◌++◌, ◌≡◌, ◌≢◌, refl, sym, ◌∙◌, true, false, some, List, All, arith,
}
use cpmd.Base.Map
use cpmd.Base.Map.{nat_key}
use cpmd.Base.Outcome.{ok}
use cpmd.Alpha.{Alpha}
use cpmd.Message.{Message}
use cpmd.Node.{Node, ResolveState, resolved}
use cpmd.Node
use cpmd.Queue.Bound.{last_n}
use cpmd.Protocol.{ok_code}
use cpmd.Protocol.Response.{ResolveResponse}
use cpmd.Server.{Server, find_node, put_node}
use cpmd.Server.Resolver.{resolve, update_node, connect_waiting, update_node_address_cache}
use cpmd.Server.Route.Waiting.{IsWaiting, route_all, route_all-IsWaiting, put_node-found}

module _ ⦃α : Alpha⦄ where
  -- Any messages for the node behind this are accepted: the node, which had kept `before`, still
  -- waits, keeps the newest of all, in order, as many as it may, and the network is as it was.
  abbrev pub Strands : ℕ → List Message → Server → Server → Type 0
  Strands k before s t =
      (t.net ≡ s.net)
      × ((ms : List Message)
          → All (λ m. m.to.node_addr ≡ k) ms
          → (u : Server) × (route_all ms t ≡ ok u)
            × (w : IsWaiting k u) × (Node.cached w.node
                ≡ last_n Node.max_cached_message_num (before ++ ms))
            × (u.net ≡ s.net))

  IsWaiting-Strands :
      (k : ℕ) (before : List Message) (s t : Server)
      → t.net ≡ s.net
      → (v : IsWaiting k t) → Node.cached v.node ≡ before
      → Strands k before s t
  IsWaiting-Strands k before s t e v same_cache = (
    e,
    λ ms h.
        let (u, run, w, kept, same, _) = route_all-IsWaiting k ms t v h in
        (
          u,
          run,
          w,
          kept ∙ ap (λ (l : List Message). last_n Node.max_cached_message_num (l ++ ms)) same_cache,
          same ∙ e,
        ),
  )

  connect_waiting-unresolved :
      (s : Server) (k : ℕ) (n : Node)
      → Node.is_resolved_node n ≡ false
      → connect_waiting s k n ≡ ok s
  unfolding connect_waiting
  connect_waiting-unresolved s k n r = ground arith

  resolve-refused : (resp : ResolveResponse) (n : Node) → resp.code ≢ ok_code → resolve resp n ≡ n
  unfolding resolve
  resolve-refused resp n c = ground arith

  update_node-refused :
      (s : Server) (resp : ResolveResponse) (n : Node)
      → Node.is_resolved_node n ≡ false
      → resp.code ≢ ok_code
      → update_node (some n) s resp ≡ ok (put_node resp.node_addr n s)
  unfolding update_node
  update_node-refused s resp n r c = rw (r, resolve-refused resp n c)

  put_node-IsWaiting :
      (k : ℕ) (s : Server) (v : IsWaiting k s)
      → (w : IsWaiting k (put_node k v.node s)) × (w.node ≡ v.node)
  put_node-IsWaiting k s v = (
    record {
      node = v.node;
      found = put_node-found s k v.node v.node v.found;
      unconnected = v.unconnected;
      known = v.known;
      expected = v.expected;
      queue = v.queue;
    },
    refl,
  )

  abbrev cached_of : Option Node → List Message
  cached_of none = []
  cached_of (some n) = Node.cached n

  put_node-net : (k : ℕ) (n : Node) (s : Server) → (put_node k n s).net ≡ s.net
  unfolding put_node
  put_node-net k n s = refl

  -- A refused resolution of a node that waits for it is accepted; and any sequence of messages for
  -- the node, handled right behind it, is accepted: the node still waits, keeps exactly the newest
  -- of what it had kept and of these messages, in order, as many as kMaxCachedMessageNum, and the
  -- network is asked for nothing.
  pub update_node_address_cache-refused :
      (s : Server) (resp : ResolveResponse) (n : Node)
      → IsWaiting resp.node_addr s
      → find_node s resp.node_addr ≡ some n
      → Node.is_resolved_node n ≡ false
      → resp.code ≢ ok_code
      → (t : Server) × (update_node_address_cache s resp ≡ ok (t, true))
        × Strands resp.node_addr (Node.cached n) s t
  unfolding update_node_address_cache
  update_node_address_cache-refused s resp n v e u c =
      let same : some n ≡ some v.node = sym e ∙ v.found in
      let r : Node.is_resolved_node v.node ≡ false = cc (same, u) in
      let t : Server = put_node resp.node_addr v.node s in
      let (w, as_before) = put_node-IsWaiting resp.node_addr s v in
      let kept : Node.cached w.node ≡ Node.cached n =
        ap Node.cached as_before ∙ ap cached_of (sym same) in
      (
        t,
        rw (
          v.found,
          update_node-refused s resp v.node r c,
          put_node-found s resp.node_addr v.node v.node v.found,
          connect_waiting-unresolved t resp.node_addr v.node r,
        ),
        IsWaiting-Strands resp.node_addr (Node.cached n) s t (put_node-net resp.node_addr v.node s)
            w kept,
      )
