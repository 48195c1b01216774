-- ===== src/Server/Safety/Nodes.antt =====
-- The handlers' changes of nodes (cpm/cpm_server.cc) on valid tables.
use cpmd.Base.{
  ℕ, ◌≡◌, ◌≢◌, refl, sym, ap, ◌∙◌, inl, inr, Bool, true, Bool-cases, Option, none, some, is_some,
  arith,
}
use cpmd.Base.Outcome.{Safe, Safe->>=, Safe-assert, Safe-assert_some}
use cpmd.Alpha.{Alpha}
use cpmd.Message.{Message}
use cpmd.Node.{Node, ResolveState, resolving, resolved, not_resolved, is_resolved_node, is_resolved}
use cpmd.Node
use cpmd.Node.Deliver.{cache_message_lem, send_message_lem, QueueIsValid, KeepsAllButQueue}
use cpmd.Server.{Server, find_node, add_new_node, register_node}
use cpmd.Server.Tables.{
  NodeIsValid, Inv, put_node-Inv, new-NodeIsValid, add_new_node-Inv, register_node-Inv,
}
use cpmd.Server.Route.{
  cache_at, send_at, open_at, to_known_node, to_unresolved_node, to_remote,
  handle_to_remote_message, droped, blank,
}
use cpmd.Message
use cpmd.Server.Resolver.{request_node_net_address, request_over}

module _ ⦃α : Alpha⦄ where
  pub NodeIsValid-kept :
      (k : ℕ) (n n' : Node)
      → NodeIsValid k n
      → KeepsAllButQueue n n'
      → QueueIsValid n'.messages_to_deliver
      → NodeIsValid k n'
  unfolding is_resolved_node
  NodeIsValid-kept k n n' v (_, state, name, address) q = record {
    named = name ∙ v.named;
    has_address = λ e.
        let (a, h) = v.has_address (ap (λ (x : ResolveState). is_resolved x) (sym state) ∙ e) in
        (a, address ∙ h);
    queue = q;
  }

  pub set_connecting-NodeIsValid :
      (k : ℕ) (n : Node) (b : Bool) → NodeIsValid k n → NodeIsValid k (Node.set_connecting n b)
  unfolding Node.set_connecting is_resolved_node
  set_connecting-NodeIsValid k n b v = record {
    named = v.named;
    has_address = v.has_address;
    queue = v.queue;
  }

  pub clear_connection-NodeIsValid :
      (k : ℕ) (n : Node) → NodeIsValid k n → NodeIsValid k (Node.clear_connection n)
  unfolding Node.clear_connection is_resolved_node
  clear_connection-NodeIsValid k n v = record {
    named = v.named;
    has_address = v.has_address;
    queue = v.queue;
  }

  pub set_net_address-NodeIsValid :
      (k : ℕ) (n : Node) (a : α.NetAddress)
      → NodeIsValid k n
      → NodeIsValid k (Node.set_net_address n a)
  unfolding Node.set_net_address
  set_net_address-NodeIsValid k n a v = record {
    named = v.named;
    has_address = λ _. (a, refl);
    queue = v.queue;
  }

  pub set_resolve_state-NodeIsValid :
      (k : ℕ) (n : Node) (r : ResolveState)
      → r ≢ resolved
      → NodeIsValid k n
      → NodeIsValid k (Node.set_resolve_state n r)
  unfolding Node.set_resolve_state is_resolved_node
  set_resolve_state-NodeIsValid k n resolving h v = record {
    named = v.named;
    has_address = λ e. cc;
    queue = v.queue;
  }
  set_resolve_state-NodeIsValid k n resolved h v = absurd (h refl)
  set_resolve_state-NodeIsValid k n not_resolved h v = record {
    named = v.named;
    has_address = λ e. cc;
    queue = v.queue;
  }

  cached-NodeIsValid :
      (k : ℕ) (n : Node) (m d : Message)
      → NodeIsValid k n
      → Safe (λ r. NodeIsValid k r.0) (Node.cache_message n m (some d))
  unfolding is_resolved_node
  cached-NodeIsValid k n m d v =
      let (q, out, run, newest, valid) = cache_message_lem n m d v.queue in
      rw run (record { named = v.named; has_address = v.has_address; queue = valid })

module _ ⦃α : Alpha⦄ (P : ℕ → Type 0) where
  pub cache_at-Inv :
      (k : ℕ) (n : Node) (m : Message) (s : Server)
      → Inv P s
      → NodeIsValid k n
      → Safe (Inv P) (cache_at k n m s)
  unfolding cache_at droped
  cache_at-Inv k n m s v h =
      Safe->>= (λ r. NodeIsValid k r.0) (Inv P)
        (Node.cache_message n m (some (Message.default blank))) _
        (cached-NodeIsValid k n m (Message.default blank) h) λ r w. put_node-Inv P s k r.0 v w

  send_at-Inv :
      (k : ℕ) (n : Node) (m : Message) (s : Server)
      → Inv P s
      → NodeIsValid k n
      → Safe (Inv P) (send_at k n m s)
  unfolding send_at droped
  send_at-Inv k n m s v h =
      let (w, n', out, run, how) = send_message_lem s.net n m (Message.default blank) h.queue in
      let t : Server = record s { net = w } in
      rw run (
        put_node-Inv P t k n' v (elim how [
          | inl (same, _, _) ↦ rw same h
          | inr (_, kept, queue) ↦ NodeIsValid-kept k n n' h kept queue
        ]))

  open_at-Inv :
      (k : ℕ) (n : Node) (s : Server)
      → Inv P s
      → find_node s k ≡ some n
      → NodeIsValid k n
      → Safe (Inv P) (open_at k n s)
  unfolding open_at Node.net_address
  open_at-Inv k n s v e h =
      Safe->>= (λ t. Inv P t × (t.nodes ≡ s.nodes)) (Inv P) (register_node k n s) _
        (register_node-Inv P s k n n v e)
        λ t it. Safe-assert_some (Inv P) n.address _ λ a _.
          put_node-Inv P _ k (Node.set_connecting n true) it.0
            (set_connecting-NodeIsValid k n true h)

  to_known_node-Inv :
      (k : ℕ) (n : Node) (m : Message) (s : Server)
      → Inv P s
      → find_node s k ≡ some n
      → NodeIsValid k n
      → Safe (Inv P) (to_known_node k n m s)
  unfolding to_known_node
  to_known_node-Inv k n m s v e h =
      ground (arith, send_at-Inv k n m s v h, cache_at-Inv k n m s v h, open_at-Inv k n s v e h)

  request-Inv : (s : Server) (k : ℕ) → Inv P s → Inv P (request_node_net_address s k)
  unfolding request_node_net_address request_over
  request-Inv s k v = over s.resolve_server_conn
    where
      over : (o : Option α.Conn) → Inv P (request_over o s k)
      over none = v
      over (some c) = elim (Bool-cases (α.closed s.net c)) [
        | inl shut ↦ rw shut v
        | inr open_ ↦ rw open_ v
      ]

  to_unresolved_node-Inv :
      (k : ℕ) (n : Node) (m : Message) (s : Server)
      → Inv P s
      → NodeIsValid k n
      → Safe (Inv P) (to_unresolved_node k n m s)
  unfolding to_unresolved_node
  to_unresolved_node-Inv k n m s v h = Safe-assert (Inv P) (Node.is_not_resolved_node n) _ λ _.
      elim (Bool-cases (is_some s.resolve_server_conn)) [
        | inl yes_ ↦ rw yes_ (
            cache_at-Inv k _ m _ (request-Inv s k v)
              (set_resolve_state-NodeIsValid k n resolving (λ e. cc) h))
        | inr no_ ↦ rw no_ (cache_at-Inv k n m s v h)
      ]

  to_remote-Inv :
      (o : Option Node) (m : Message) (s : Server)
      → Inv P s
      → find_node s m.to.node_addr ≡ o
      → Safe (Inv P) (to_remote o m s)
  unfolding to_remote
  to_remote-Inv none m s v e =
      Safe->>= (λ t. Inv P t × (find_node t m.to.node_addr ≡ some (Node.new m.to.node_addr)))
        (Inv P) (add_new_node s m.to.node_addr) _ (add_new_node-Inv P s m.to.node_addr v)
        λ t it.
          to_unresolved_node-Inv m.to.node_addr (Node.new m.to.node_addr) m t it.0
            (new-NodeIsValid m.to.node_addr)
  to_remote-Inv (some n) m s v e =
      let h = v.nodes_valid m.to.node_addr n (unfold find_node in e) in
      elim (Bool-cases (Node.is_not_resolved_node n)) [
        | inl new ↦ rw new (to_unresolved_node-Inv m.to.node_addr n m s v h)
        | inr known ↦ rw known (to_known_node-Inv m.to.node_addr n m s v e h)
      ]

  pub handle_to_remote_message-Inv :
      (s : Server) (m : Message) → Inv P s → Safe (Inv P) (handle_to_remote_message s m)
  unfolding handle_to_remote_message
  handle_to_remote_message-Inv s m v = to_remote-Inv (find_node s m.to.node_addr) m s v refl
