-- ===== src/Server/Safety/Peers.antt =====
-- Connections that open, fail or close (cpm/cpm_server.cc) on valid tables.
use cpmd.Base.{ℕ, ◌+◌, ◌-◌, ◌%◌, ◌^◌, ◌≡◌, inl, inr, false, some}
use cpmd.Base.Outcome.{ok, Safe, Safe->>=, Safe-assert_some, ◌>>=◌}
use cpmd.Alpha.{Alpha}
use cpmd.Node.{Node, ResolveState, resolved, not_resolved}
use cpmd.Node
use cpmd.Node.Connect.{set_connection-Writes}
use cpmd.Server.{Server, find_node, find_node_by_net_address, put_node}
use cpmd.Server.Tables.{NodeIsValid, Inv, put_node-Inv, unregister_node-Inv}
use cpmd.Server.Peers.{
  registered_node, on_connected_to_remote_node, on_connect_to_remote_node_error,
  on_remote_node_disconnected,
}
use cpmd.Server.Safety.Nodes.{
  NodeIsValid-kept, set_connecting-NodeIsValid, clear_connection-NodeIsValid,
}

module _ ⦃α : Alpha⦄ (P : ℕ → Type 0) where
  registered_node-Safe :
      (s : Server) (a : α.NetAddress)
      → Inv P s
      → Safe (λ r. (find_node s r.0 ≡ some r.1) × NodeIsValid r.0 r.1) (registered_node s a)
  unfolding registered_node
  registered_node-Safe s a v =
      let Q : ℕ × Node → Type 0 = λ r. (find_node s r.0 ≡ some r.1) × NodeIsValid r.0 r.1 in
      Safe-assert_some Q (find_node_by_net_address s a) _ λ k _.
        Safe-assert_some Q (find_node s k) _ λ n e. (e, v.nodes_valid k n (unfold find_node in e))

  pub on_connected_to_remote_node-Inv :
      (s : Server) (c : α.Conn) → Inv P s → Safe (Inv P) (on_connected_to_remote_node s c)
  unfolding on_connected_to_remote_node
  on_connected_to_remote_node-Inv s c v =
      Safe->>= (λ r. (find_node s r.0 ≡ some r.1) × NodeIsValid r.0 r.1) (Inv P)
        (registered_node s (α.peer_addr c)) _ (registered_node-Safe s (α.peer_addr c) v)
        λ r h. opened r.0 r.1 h.1
    where
      opened :
          (k : ℕ) (n : Node)
          → NodeIsValid k n
          → Safe
              (Inv P)
              (Node.set_connection s.net n c >>= λ x. ok (put_node k x.1 (record s { net = x.0 })))
      opened k n h = elim (set_connection-Writes s.net n c) [
        | inl (u, n', run, _, _, _, kept, queue) ↦
            let t : Server = record s { net = u } in
            rw run (put_node-Inv P t k n' v (NodeIsValid-kept k n n' h kept (queue h.queue)))
        | inr (run, _) ↦ rw run tt
      ]

  pub on_connect_to_remote_node_error-Inv :
      (s : Server) (a : α.NetAddress) → Inv P s → Safe (Inv P) (on_connect_to_remote_node_error s a)
  unfolding on_connect_to_remote_node_error
  on_connect_to_remote_node_error-Inv s a v =
      Safe->>= _ (Inv P) (registered_node s a) _ (registered_node-Safe s a v) λ r h.
        unregister_node-Inv P _ (Node.set_connecting r.1 false) (
          put_node-Inv P s r.0 (Node.set_connecting r.1 false) v
            (set_connecting-NodeIsValid r.0 r.1 false h.1))

  pub on_remote_node_disconnected-Inv :
      (s : Server) (c : α.Conn) → Inv P s → Safe (Inv P) (on_remote_node_disconnected s c)
  unfolding on_remote_node_disconnected
  on_remote_node_disconnected-Inv s c v =
      let t : Server = record s { connected_nodes = (s.connected_nodes + (2 ^ 32 - 1)) % 2 ^ 32 } in
      Safe->>= _ (Inv P) (registered_node t (α.peer_addr c)) _
        (registered_node-Safe t (α.peer_addr c) v)
        λ r h. unregister_node-Inv P _ (Node.clear_connection r.1) (
          put_node-Inv P t r.0 (Node.clear_connection r.1) v
            (clear_connection-NodeIsValid r.0 r.1 h.1))
