-- ===== src/Server/Safety/Answers.antt =====
-- The answers of the resolve server (Server::HandleResolveServerMessage in cpm/cpm_server.cc) on valid
-- tables.
use cpmd.Base.{leb, length, ℕ, ◌≡◌, refl, inl, inr, not, ◌&&◌, Bool-cases, Option, none, some, ◌==◌}
use cpmd.Base.Outcome.{Safe, Safe->>=, Safe-within, Safe-assert, Safe-assert_some, Safe-mono}
use cpmd.Alpha.{Alpha}
use cpmd.Address.Create.{create-total}
use cpmd.Node.{Node, ResolveState, resolved, not_resolved}
use cpmd.Node
use cpmd.Protocol.{ProtocolMessage, ok_code, resolve_response}
use cpmd.Protocol.Response.{ResolveResponse, update_self, update_cache}
use cpmd.Protocol.Response
use cpmd.Server.{Server, find_node, add_new_node, register_node}
use cpmd.Server.Tables.{
  NodeIsValid, Inv, put_node-Inv, new-NodeIsValid, add_new_node-Inv, register_node-Inv,
}
use cpmd.Server.Resolver.{
  update_self_address, refresh, resolve, update_node, connect_waiting, update_node_address_cache,
  handle_resolve_server_message,
}
use cpmd.Server.Safety.Nodes.{set_net_address-NodeIsValid, set_resolve_state-NodeIsValid}

module _ ⦃α : Alpha⦄ where
  refresh-NodeIsValid :
      (k : ℕ) (r : ResolveResponse) (n : Node) → NodeIsValid k n → NodeIsValid k (refresh r n)
  unfolding refresh
  refresh-NodeIsValid k r n v = elim (Bool-cases (r.code == ok_code)) [
    | inl e ↦ rw e (set_net_address-NodeIsValid k n (α.make_address r.node_ip r.node_port) v)
    | inr e ↦ rw e (set_resolve_state-NodeIsValid k n not_resolved (λ p. cc) v)
  ]

  resolve-NodeIsValid :
      (k : ℕ) (r : ResolveResponse) (n : Node) → NodeIsValid k n → NodeIsValid k (resolve r n)
  unfolding resolve
  resolve-NodeIsValid k r n v = elim (Bool-cases (r.code == ok_code)) [
    | inl e ↦ rw e (set_net_address-NodeIsValid k n (α.make_address r.node_ip r.node_port) v)
    | inr e ↦ rw e v
  ]

-- Where an event was handled.
module _ ⦃α : Alpha⦄ (P : ℕ → Type 0) where
  update_self_address-Inv :
      (s : Server) (r : ResolveResponse) → Inv P s → Safe (λ x. Inv P x.0) (update_self_address s r)
  unfolding update_self_address
  update_self_address-Inv s r v =
      let (a, e) = create-total r.node_path in
      rw e (elim (Bool-cases (a.node_addr == r.node_addr)) [
        | inl same ↦ rw same v
        | inr other ↦ rw other v
      ])

  update_node-Inv :
      (o : Option Node) (s : Server) (r : ResolveResponse)
      → Inv P s
      → find_node s r.node_addr ≡ o
      → Safe (Inv P) (update_node o s r)
  unfolding update_node
  update_node-Inv none s r v e = Safe-assert (Inv P) (r.code == ok_code) _ λ _.
      Safe->>= _ (Inv P) (add_new_node s r.node_addr) _ (add_new_node-Inv P s r.node_addr v) λ t it.
        put_node-Inv P t r.node_addr _ it.0 (
          set_net_address-NodeIsValid r.node_addr (Node.new r.node_addr) _
            (new-NodeIsValid r.node_addr))
  update_node-Inv (some n) s r v e =
      let h = v.nodes_valid r.node_addr n (unfold find_node in e) in
      elim (Bool-cases (Node.is_resolved_node n)) [
        | inl known ↦
            rw known
              (put_node-Inv P s r.node_addr (refresh r n) v (refresh-NodeIsValid r.node_addr r n h))
        | inr new ↦
            rw new
              (put_node-Inv P s r.node_addr (resolve r n) v (resolve-NodeIsValid r.node_addr r n h))
      ]

  connect_waiting-Inv :
      (s : Server) (k : ℕ) (n : Node)
      → Inv P s
      → find_node s k ≡ some n
      → Safe (Inv P) (connect_waiting s k n)
  unfolding connect_waiting Node.net_address
  connect_waiting-Inv s k n v e =
      elim (Bool-cases
        (Node.has_cached_message n && not (Node.connected s.net n) && Node.is_resolved_node n)) [
          | inl go ↦ rw go (
              Safe-assert_some (Inv P) n.address _ λ a _.
                let t : Server = record s { net = α.connect_to s.net a } in
                Safe-mono _ (Inv P) (register_node k n t) (λ u it. it.0)
                  (register_node-Inv P t k n n v (unfold find_node in e)))
          | inr stay ↦ rw stay v
        ]

  update_node_address_cache-Inv :
      (s : Server) (r : ResolveResponse)
      → Inv P s
      → Safe (λ x. Inv P x.0) (update_node_address_cache s r)
  unfolding update_node_address_cache
  update_node_address_cache-Inv s r v =
      Safe->>= (Inv P) (λ x. Inv P x.0) (update_node (find_node s r.node_addr) s r) _
        (update_node-Inv (find_node s r.node_addr) s r v refl)
        λ t it.
          Safe-assert_some (λ x. Inv P x.0) (find_node t r.node_addr) _
            λ n e.
              Safe->>= (Inv P) (λ x. Inv P x.0) (connect_waiting t r.node_addr n) _
                (connect_waiting-Inv t r.node_addr n it e) λ u iu. iu

  pub handle_resolve_server_message-Inv :
      (s : Server) (c : α.Conn) (m : ProtocolMessage)
      → Inv P s
      → Safe (Inv P) (handle_resolve_server_message s c m)
  unfolding handle_resolve_server_message
  handle_resolve_server_message-Inv s c m v = elim (Bool-cases (m.kind == resolve_response)) [
    | inr other ↦ rw other v
    | inl answer ↦
        let r = Response.of_data m.data_ in
        elim (Bool-cases (r.type_ == update_self)) [
          | inl self ↦
              rw (answer, self)
                (Safe-within (Inv P) (Response.path_ends m.data_) _ λ _.
                  Safe->>= (λ x. Inv P x.0) (Inv P) (update_self_address s r) _
                    (update_self_address-Inv s r v) λ x w. w)
          | inr other ↦ elim (Bool-cases (r.type_ == update_cache)) [
            | inl cache ↦
                rw (answer, other, cache)
                  (Safe-within (Inv P) (Response.ip_ends m.data_) _ λ _.
                    Safe->>= (λ x. Inv P x.0) (Inv P) (update_node_address_cache s r) _
                      (update_node_address_cache-Inv s r v) λ x w. w)
            | inr unknown ↦
                rw (answer, other, unknown) (Safe-within (Inv P) (leb 4 (length m.data_)) _ λ _. v)
          ]
        ]
  ]
