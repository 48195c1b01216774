-- ===== src/Server/Bus/Inputs.antt =====
-- The handlers of a client's message (cpm/cpm_server.cc) and the buses that cpmd reads from.
use cpmd.Base.{
  ℕ, ◌≡◌, refl, sym, ap, ◌∙◌, inl, inr, Bool, true, false, not, ◌||◌, Bool-cases, Option,
  Option-cases, none, some, List, is_some, ◌==◌, if◌then◌else◌,
}
use cpmd.Base.Map
use cpmd.Base.Map.{nat_key}
use cpmd.Base.Outcome.{assert, deref, Ensures, Ensures->>=, Ensures-any, Ensures-if, Ensures-mono}
use cpmd.Alpha.{Alpha}
use cpmd.Address.{create_directly}
use cpmd.Message.{Message, set_source_address}
use cpmd.Node.{Node, ResolveState, resolving}
use cpmd.Node
use cpmd.Client.{ClientInfo, write_message}
use cpmd.Server.{Server, find_node, add_new_node, put_node, register_node}
use cpmd.Server.Resolver.{request_over, request_node_net_address}
use cpmd.Server.Route.{
  droped, find_client, put_client, write_client, handle_to_local_message, cache_at, send_at,
  open_at, to_known_node, to_unresolved_node, to_remote, handle_to_remote_message,
}
use cpmd.Server.Route.Delivery.{offered}
use cpmd.Server.Bus.{dispatch}

module _ ⦃α : Alpha⦄ where
  abbrev SameClients : Server → Server → Type 0
  SameClients s t = t.clients ≡ s.clients

  register_node-SameClients :
      (s : Server) (k : ℕ) (n : Node) → Ensures (SameClients s) (register_node k n s)
  unfolding register_node
  register_node-SameClients s k n = Ensures-any (SameClients s) (Node.net_address n) _ λ a.
      Ensures-any (SameClients s) (assert (Map.emplace ⦃o = α.net_key⦄ a k s.nodes_index).1) _
        λ x. refl

  add_new_node-SameClients : (s : Server) (k : ℕ) → Ensures (SameClients s) (add_new_node s k)
  unfolding add_new_node
  add_new_node-SameClients s k =
      Ensures-any (SameClients s) (assert (Map.emplace k (Node.new k) s.nodes).1) _ λ x. refl

  cache_at-SameClients :
      (k : ℕ) (n : Node) (m : Message) (s : Server) → Ensures (SameClients s) (cache_at k n m s)
  unfolding cache_at put_node
  cache_at-SameClients k n m s =
      Ensures-any (SameClients s) (Node.cache_message n m droped) _ λ x. refl

  send_at-SameClients :
      (k : ℕ) (n : Node) (m : Message) (s : Server) → Ensures (SameClients s) (send_at k n m s)
  unfolding send_at put_node
  send_at-SameClients k n m s =
      Ensures-any (SameClients s) (Node.send_message s.net n m droped) _ λ x. refl

  open_at-SameClients : (k : ℕ) (n : Node) (s : Server) → Ensures (SameClients s) (open_at k n s)
  unfolding open_at put_node
  open_at-SameClients k n s =
      Ensures->>= (SameClients s) (SameClients s) (register_node k n s) _
        (register_node-SameClients s k n)
        λ t e. Ensures-any (SameClients s) (Node.net_address n) _ λ a. e

  to_known_node-SameClients :
      (k : ℕ) (n : Node) (m : Message) (s : Server)
      → Ensures (SameClients s) (to_known_node k n m s)
  unfolding to_known_node
  to_known_node-SameClients k n m s =
      let cache = cache_at-SameClients k n m s in
      Ensures-if (SameClients s) (Node.connected s.net n) _ _ (send_at-SameClients k n m s) (
        Ensures-if (SameClients s) (Node.connecting n) _ _ cache (
          Ensures-if (SameClients s) (Node.is_resolving_node n) _ _ cache (
            Ensures-if (SameClients s) (Node.is_resolved_node n) _ _ (open_at-SameClients k n s)
              refl)))

  request_node_net_address-SameClients :
      (s : Server) (k : ℕ) → SameClients s (request_node_net_address s k)
  unfolding request_node_net_address request_over
  request_node_net_address-SameClients s k = over s.resolve_server_conn
    where
      over : (o : Option α.Conn) → SameClients s (request_over o s k)
      over none = refl
      over (some c) = elim (Bool-cases (α.closed s.net c)) [ inl h ↦ rw h | inr h ↦ rw h ]

  asked-SameClients :
      (b : Bool) (s : Server) (k : ℕ)
      → SameClients s (if b then request_node_net_address s k else s)
  asked-SameClients true s k = request_node_net_address-SameClients s k
  asked-SameClients false s k = refl

  to_unresolved_node-SameClients :
      (k : ℕ) (n : Node) (m : Message) (s : Server)
      → Ensures (SameClients s) (to_unresolved_node k n m s)
  unfolding to_unresolved_node
  to_unresolved_node-SameClients k n m s =
      let b = is_some s.resolve_server_conn in
      let s' = if b then request_node_net_address s k else s in
      let n' = if b then Node.set_resolve_state n resolving else n in
      Ensures-any (SameClients s) (assert (Node.is_not_resolved_node n)) _ λ x.
        Ensures-mono (SameClients s') (SameClients s) (cache_at k n' m s')
          (λ t e. e ∙ asked-SameClients b s k) (cache_at-SameClients k n' m s')

  handle_to_remote_message-SameClients :
      (s : Server) (m : Message) → Ensures (SameClients s) (handle_to_remote_message s m)
  unfolding handle_to_remote_message to_remote
  handle_to_remote_message-SameClients s m = elim (Option-cases (find_node s m.to.node_addr)) [
    | inl e ↦ rw e (
        Ensures->>= (SameClients s) (SameClients s) (add_new_node s m.to.node_addr) _
          (add_new_node-SameClients s m.to.node_addr)
          λ t same.
            Ensures-mono (SameClients t) (SameClients s) _ (λ u e. e ∙ same)
              (to_unresolved_node-SameClients m.to.node_addr (Node.new m.to.node_addr) m t))
    | inr (n, e) ↦ rw e (
        Ensures-if (SameClients s) (not (Node.is_not_resolved_node n)) _ _
          (to_known_node-SameClients m.to.node_addr n m s)
          (to_unresolved_node-SameClients m.to.node_addr n m s))
  ]

  -- Every client that is there after a call was there before, with the same bus to read from.
  abbrev pub SameInputs : Server → Server → Type 0
  SameInputs s t =
      (a : ℕ) (c' : ClientInfo)
      → find_client t a ≡ some c'
      → (c : ClientInfo) × (find_client s a ≡ some c) × (c'.input ≡ c.input)

  SameClients-SameInputs : (s t : Server) → SameClients s t → SameInputs s t
  unfolding find_client
  SameClients-SameInputs s t e a c' f =
      (c', ap (λ (cs : List (ℕ × ClientInfo)). Map.find a cs) (sym e) ∙ f, refl)

  put_client-SameInputs :
      (s : Server) (a : ℕ) (c c' : ClientInfo)
      → find_client s a ≡ some c
      → c'.input ≡ c.input
      → SameInputs s (put_client a c' s)
  unfolding find_client put_client
  put_client-SameInputs s a c c' e i b x f = elim (Map.find-set_cases a b c' x s.clients f) [
    | inl (same, new) ↦ (c, rw (← same) e, rw new i)
    | inr old ↦ (x, old, refl)
  ]

  write_client-SameInputs :
      (s : Server) (a : ℕ) (o : Option ClientInfo) (m : Message)
      → find_client s a ≡ o
      → Ensures (SameInputs s) (write_client a o m s)
  unfolding write_client write_message
  write_client-SameInputs s a none m e = λ b c f. (c, f, refl)
  write_client-SameInputs s a (some c) m e = elim (Option-cases c.output) [
    | inl h ↦ rw h tt
    | inr (b, h) ↦ rw h (put_client-SameInputs s a c (offered c b m) e refl)
  ]

  -- So the handlers of a client's message keep every bus that cpmd reads from.
  pub dispatch-SameInputs :
      (s : Server) (c : ClientInfo) (m : Message) → Ensures (SameInputs s) (dispatch s c m)
  unfolding dispatch handle_to_local_message
  dispatch-SameInputs s c m =
      let sent = set_source_address m (create_directly s.self_address c.addr.client_addr) in
      Ensures-if (SameInputs s) (m.to.node_addr == s.self_address || m.to.node_addr == 0) _ _
        (Ensures-any (SameInputs s)
          (assert (sent.to.node_addr == s.self_address || sent.to.node_addr == 0)) _
          λ x. Ensures-any (SameInputs s) (deref (find_client s sent.from.client_addr)) _ λ source.
            write_client-SameInputs s sent.to.client_addr (find_client s sent.to.client_addr) sent
              refl)
        (Ensures-mono (SameClients s) (SameInputs s) (handle_to_remote_message s sent)
          (SameClients-SameInputs s) (handle_to_remote_message-SameClients s sent))
