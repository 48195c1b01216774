-- ===== src/Server/Safety/Clients.antt =====
-- The handlers of messages to local clients, and the turn over the buses (cpm/cpm_server.cc), on
-- valid tables.
use cpmd.Base.{
  ap, ◌∙◌, ℕ, zero, suc, ◌≡◌, refl, inl, inr, Bool, true, false, ◌||◌, Bool-cases, Option, none,
  some, List, [], ◌∷◌, All, map, arith, ◌==◌,
}
use cpmd.Base.Map
use cpmd.Base.Map.{nat_key}
use cpmd.Base.Outcome.{
  Outcome, ok, deref, Safe, Safe->>=, Safe-assert, Safe-deref, Safe-mono, ◌>>=◌,
}
use cpmd.Alpha.{Alpha}
use cpmd.Address.{create_directly}
use cpmd.Message.{Message, set_source_address}
use cpmd.Client.{ClientInfo, write_message, read_message}
use cpmd.Server.{Server}
use cpmd.Server.Tables.{ClientIsValid, Inv, put_client-Inv}
use cpmd.Server.Route.{
  find_client, put_client, write_client, handle_remote_message, handle_remote_node_message,
  handle_to_local_message,
}
use cpmd.Server.Bus.{dispatch, drain, drain_all, handle_bus_message}
use cpmd.Server.Safety.Nodes.{handle_to_remote_message-Inv}

module _ ⦃α : Alpha⦄ (P : ℕ → Type 0) where
  write_message-Safe :
      (a : ℕ) (c : ClientInfo) (m : Message)
      → ClientIsValid a c
      → Safe (λ r. ClientIsValid a r.0) (write_message c m)
  unfolding write_message
  write_message-Safe a c m v =
      let (b, e) = v.has_output in
      Safe-deref (λ r. ClientIsValid a r.0) c.output _ b e
        (record { named = v.named; has_input = v.has_input; has_output = (_, refl) })

  read_message-Safe :
      (a : ℕ) (c : ClientInfo)
      → ClientIsValid a c
      → Safe (λ r. ClientIsValid a r.0) (read_message c)
  unfolding read_message
  read_message-Safe a c v =
      let (b, e) = v.has_input in
      Safe-deref (λ r. ClientIsValid a r.0) c.input _ b e
        (record { named = v.named; has_input = (_, refl); has_output = v.has_output })

  pub write_client-Inv :
      (a : ℕ) (o : Option ClientInfo) (m : Message) (s : Server)
      → Inv P s
      → find_client s a ≡ o
      → Safe (Inv P) (write_client a o m s)
  unfolding write_client
  write_client-Inv a none m s v e = v
  write_client-Inv a (some c) m s v e =
      Safe->>= (λ r. ClientIsValid a r.0) (Inv P) (write_message c m) _
        (write_message-Safe a c m (v.clients_valid a c (unfold find_client in e)))
        λ r w. put_client-Inv P s a r.0 v w

  handle_remote_message-Inv :
      (s : Server) (m : Message) → Inv P s → Safe (λ r. Inv P r.0) (handle_remote_message s m)
  unfolding handle_remote_message
  handle_remote_message-Inv s m v = elim (Bool-cases (m.to.node_addr == s.self_address)) [
    | inl mine ↦ rw mine (
        Safe->>= (Inv P) (λ r. Inv P r.0)
          (write_client m.to.client_addr (find_client s m.to.client_addr) m s) _
          (write_client-Inv m.to.client_addr (find_client s m.to.client_addr) m s v refl) λ t w. w)
    | inr other ↦ rw other v
  ]

  pub handle_remote_node_message-Inv :
      (s : Server) (c : α.Conn) (m : Message)
      → Inv P s
      → Safe (Inv P) (handle_remote_node_message s c m)
  unfolding handle_remote_node_message
  handle_remote_node_message-Inv s c m v =
      Safe->>= (λ r. Inv P r.0) (Inv P) (handle_remote_message s m) _
        (handle_remote_message-Inv s m v) λ r w. ground (arith, w)

  -- The lookup of the sender's name finds the sender.
  handle_to_local_message-Inv :
      (s : Server) (m : Message) (c : ClientInfo)
      → Inv P s
      → find_client s m.from.client_addr ≡ some c
      → Safe (Inv P) (handle_to_local_message s m)
  unfolding handle_to_local_message
  handle_to_local_message-Inv s m c v e =
      let rest : ClientInfo → Outcome Server =
        λ _. write_client m.to.client_addr (find_client s m.to.client_addr) m s in
      let source = find_client s m.from.client_addr in
      Safe-assert (Inv P) (m.to.node_addr == s.self_address || m.to.node_addr == 0)
        (deref source >>= rest)
        λ _.
          Safe-deref (Inv P) source rest c e
            (write_client-Inv m.to.client_addr (find_client s m.to.client_addr) m s v refl)

  dispatch-Inv :
      (s : Server) (a : ℕ) (c : ClientInfo) (m : Message)
      → Inv P s
      → find_client s a ≡ some c
      → ClientIsValid a c
      → Safe (Inv P) (dispatch s c m)
  unfolding dispatch
  dispatch-Inv s a c m v e h =
      let sent = set_source_address m (create_directly s.self_address c.addr.client_addr) in
      let known : find_client s c.addr.client_addr ≡ some c = ap (find_client s) h.named ∙ e in
      elim (Bool-cases (m.to.node_addr == s.self_address || m.to.node_addr == 0)) [
        | inl here ↦ rw here (
            handle_to_local_message-Inv s sent c v
              (unfold set_source_address create_directly in known))
        | inr there ↦ rw there (handle_to_remote_message-Inv P s sent v)
      ]

  -- A turn that has not run out of its rounds ends with such tables.
  abbrev pub TurnInv : Option (Bool × Server) → Type 0
  TurnInv none = Unit
  TurnInv (some (busy, t)) = Inv P t

  put_client-found :
      (s : Server) (a : ℕ) (c x : ClientInfo)
      → Map.find a s.clients ≡ some x
      → find_client (put_client a c s) a ≡ some c
  unfolding find_client put_client
  put_client-found s a c x e = Map.find-set_self a c x s.clients e

  drain-Inv :
      (fuel a : ℕ) (busy : Bool) (s : Server) → Inv P s → P a → Safe TurnInv (drain fuel a busy s)
  unfolding drain
  drain-Inv zero a busy s v p = tt
  drain-Inv (suc fuel) a busy s v p =
      let (c, e) = v.present a p in
      let h = v.clients_valid a c e in
      Safe-deref TurnInv (find_client s a) _ c (unfold find_client in e) (
        Safe->>= (λ r. ClientIsValid a r.0) TurnInv (read_message c) _ (read_message-Safe a c h)
          λ r w.
            read r.0 r.1 w (put_client-Inv P s a r.0 v w) (put_client-found s a r.0 c e)
              λ t it. drain-Inv fuel a true t it p)
    where
      read :
          (c : ClientInfo) (o : Option Message)
          → ClientIsValid a c
          → Inv P (put_client a c s)
          → find_client (put_client a c s) a ≡ some c
          → ((t : Server) → Inv P t → Safe TurnInv (drain fuel a true t))
          → Safe TurnInv (elim o [
            | none ↦ ok (some (busy, put_client a c s))
            | some m ↦ dispatch (put_client a c s) c m >>= λ t. drain fuel a true t
          ])
      read c none w i found more = i
      read c (some m) w i found more =
          Safe->>= (Inv P) TurnInv (dispatch (put_client a c s) c m) _
            (dispatch-Inv (put_client a c s) a c m i found w) more

  drain_all-Inv :
      (fuel : ℕ) (as_ : List ℕ) (busy : Bool) (s : Server)
      → Inv P s
      → All P as_
      → Safe TurnInv (drain_all fuel as_ busy s)
  unfolding drain_all
  drain_all-Inv fuel [] busy s v ps = v
  drain_all-Inv fuel (a ∷ as_) busy s v ps =
      Safe->>= TurnInv TurnInv (drain fuel a busy s) _ (drain-Inv fuel a busy s v ps.0)
        λ r w. after r w λ b t it. drain_all-Inv fuel as_ b t it ps.1
    where
      after :
          (r : Option (Bool × Server))
          → TurnInv r
          → ((b : Bool) (t : Server) → Inv P t → Safe TurnInv (drain_all fuel as_ b t))
          → Safe TurnInv (elim r [ none ↦ ok none | some (b, t) ↦ drain_all fuel as_ b t ])
      after none w more = tt
      after (some (b, t)) w more = more b t w

-- A turn visits the clients of its beginning, and none of them is gone when its turn comes.
module _ ⦃α : Alpha⦄ (P : ℕ → Type 0) (s : Server) where
  -- What is wanted, and the clients of the beginning.
  abbrev Held : ℕ → Type 0
  Held a = (c : ClientInfo) × (find_client s a ≡ some c)

  Held-Inv : Inv P s → Inv Held s
  unfolding find_client
  Held-Inv v = record {
    nodes_valid = v.nodes_valid;
    index_valid = v.index_valid;
    clients_valid = v.clients_valid;
    present = λ a h. h;
  }

  pub handle_bus_message-Inv : (fuel : ℕ) → Inv P s → Safe (TurnInv P) (handle_bus_message fuel s)
  unfolding handle_bus_message find_client
  handle_bus_message-Inv fuel v =
      Safe-mono (TurnInv Held) (TurnInv P) (drain_all fuel (map (λ p. p.0) s.clients) false s)
        (λ r w. back r w)
        (drain_all-Inv Held fuel (map (λ p. p.0) s.clients) false s (Held-Inv v)
          (unfold find_client in Map.keys-found s.clients))
    where
      back : (r : Option (Bool × Server)) → TurnInv Held r → TurnInv P r
      back none w = tt
      back (some (b, t)) w = record {
        nodes_valid = w.nodes_valid;
        index_valid = w.index_valid;
        clients_valid = w.clients_valid;
        present = λ a h. w.present a (v.present a h);
      }
