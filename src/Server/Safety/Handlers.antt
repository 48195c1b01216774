-- ===== src/Server/Safety/Handlers.antt =====
-- The hand shake (cpm/cpm_server.cc) on valid tables, and all handlers together.
use cpmd.Base.{ℕ, refl, inl, inr, Bool, Bool-cases, Option, none, some, List, [], ◌∷◌, length, ◌==◌}
use cpmd.Base.Outcome.{Safe-within, ok, Safe, Safe->>=}
use cpmd.Alpha.{Alpha}
use cpmd.Protocol.{sizeof_protocol_message}
use cpmd.Server.Init.{name_ends, HandShakeRequest, serve_request, handle_init_command, request_of}
use cpmd.Server.Init.Accept.{serve_request_cases}
use cpmd.Server.Bus.{handle_bus_message}
use cpmd.Server.Route.{handle_remote_node_message}
use cpmd.Server.Safety.Clients.{TurnInv, handle_bus_message-Inv, handle_remote_node_message-Inv}
use cpmd.Server.Events.{
  Event, bus_turn, init_command, remote_message, resolve_message, connected, connection_closed,
  connect_failed, world_changes, after_turn, handle, handle_all,
}
use cpmd.Server.{Server, is_resolve_server_address}
use cpmd.Server.Tables.{Inv, emplace_client-Inv}
use cpmd.Server.Resolver.{
  handle_resolve_server_message, on_connected_to_resolve_server,
  on_connected_to_resolve_server_error, on_resolve_server_disconnected, reconnect_to_resolve_server,
}
use cpmd.Server.Peers.{
  on_connected_to_remote, on_connect_to_remote_error, on_connect_to_remote_close,
}
use cpmd.Server.Safety.Answers.{handle_resolve_server_message-Inv}
use cpmd.Server.Safety.Peers.{
  on_connected_to_remote_node-Inv, on_connect_to_remote_node_error-Inv,
  on_remote_node_disconnected-Inv,
}

abbrev pub AfterInv : ⦃α : Alpha⦄ → (ℕ → Type 0) → Option Server → Type 0
AfterInv P none = Unit
AfterInv P (some s) = Inv P s

module _ ⦃α : Alpha⦄ (P : ℕ → Type 0) where
  serve_request-Inv :
      (s : Server) (req : HandShakeRequest) (out : List ℕ)
      → Inv P s
      → Safe (λ x. Inv P x.0) (serve_request s req out)
  serve_request-Inv s req out v = elim (serve_request_cases s req out) [
    | inl (w, _, e) ↦ rw e v
    | inr (w, addr, i, o, named, _, e) ↦ rw e (
        emplace_client-Inv P s addr.client_addr _ v
          (record { named = refl; has_input = (i, refl); has_output = (o, refl) }))
  ]

  handle_init_command-Inv :
      (s : Server) (bytes out : List ℕ)
      → Inv P s
      → Safe (λ x. Inv P x.0) (handle_init_command s bytes out)
  unfolding handle_init_command
  handle_init_command-Inv s bytes out v =
      elim (Bool-cases (length bytes == sizeof_protocol_message)) [
        | inl whole ↦ rw whole (
            Safe-within (λ x. Inv P x.0) (name_ends bytes) _
              λ _.
                Safe->>= (λ x. Inv P x.0) (λ x. Inv P x.0) (serve_request s (request_of bytes) out)
                  _ (serve_request-Inv s (request_of bytes) out v) λ x w. w)
        | inr other ↦ rw other v
      ]

  -- Whatever reaches cpmd, on tables that keep their promises the handler makes no invalid access,
  -- and unless an assert stops it, the tables keep their promises, and no client is lost.
  pub handle-Inv : (e : Event) (s : Server) → Inv P s → Safe (AfterInv P) (handle e s)
  unfolding handle
  handle-Inv (bus_turn fuel) s v =
      Safe->>= (TurnInv P) (AfterInv P) (handle_bus_message fuel s) _
        (handle_bus_message-Inv P s fuel v) λ r w. after r w
    where
      after : (r : Option (Bool × Server)) → TurnInv P r → AfterInv P (after_turn r)
      after none w = tt
      after (some (b, t)) w = w
  handle-Inv (init_command bytes out) s v =
      Safe->>= (λ x. Inv P x.0) (AfterInv P) (handle_init_command s bytes out) _
        (handle_init_command-Inv s bytes out v) λ x w. w
  handle-Inv (remote_message c m) s v =
      Safe->>= (Inv P) (AfterInv P) (handle_remote_node_message s c m) _
        (handle_remote_node_message-Inv P s c m v) λ x w. w
  handle-Inv (resolve_message c m) s v =
      Safe->>= (Inv P) (AfterInv P) (handle_resolve_server_message s c m) _
        (handle_resolve_server_message-Inv P s c m v) λ x w. w
  handle-Inv (connected c) s v =
      Safe->>= (Inv P) (AfterInv P) (on_connected_to_remote s c) _
        (elim (Bool-cases (is_resolve_server_address s (α.peer_addr c))) [
          | inl r ↦ unfold on_connected_to_remote on_connected_to_resolve_server in rw r v
          | inr n ↦ unfold on_connected_to_remote in rw n (on_connected_to_remote_node-Inv P s c v)
        ])
        λ x w. w
  handle-Inv (connection_closed c) s v =
      Safe->>= (Inv P) (AfterInv P) (on_connect_to_remote_close s c) _
        (elim (Bool-cases (is_resolve_server_address s (α.peer_addr c))) [
          | inl r ↦
              unfold on_connect_to_remote_close on_resolve_server_disconnected
                reconnect_to_resolve_server in
              rw r v
          | inr n ↦
              unfold on_connect_to_remote_close in rw n (on_remote_node_disconnected-Inv P s c v)
        ])
        λ x w. w
  handle-Inv (connect_failed a) s v =
      Safe->>= (Inv P) (AfterInv P) (on_connect_to_remote_error s a) _
        (elim (Bool-cases (is_resolve_server_address s a)) [
          | inl r ↦
              unfold on_connect_to_remote_error on_connected_to_resolve_server_error
                reconnect_to_resolve_server in
              rw r v
          | inr n ↦
              unfold on_connect_to_remote_error in
              rw n (on_connect_to_remote_node_error-Inv P s a v)
        ])
        λ x w. w
  handle-Inv (world_changes w) s v = v

  -- After any sequence of events (bus turns, hand shakes, messages, answers, connections that
  -- open, fail or close, changes of the world) on tables that keep their promises, no handler has
  -- made an access through a pointer or an iterator that points to nothing; and if no assert
  -- stopped cpmd, none read behind the bytes that came, and no bus turn ran out of its rounds, the
  -- tables keep their promises and every wanted client is still there.
  pub handle_all-Inv :
      (es : List Event) (s : Server) → Inv P s → Safe (AfterInv P) (handle_all es s)
  unfolding handle_all
  handle_all-Inv [] s v = v
  handle_all-Inv (e ∷ es) s v =
      Safe->>= (AfterInv P) (AfterInv P) (handle e s) _ (handle-Inv e s v)
        λ r w. after r w λ t it. handle_all-Inv es t it
    where
      after :
          (r : Option Server)
          → AfterInv P r
          → ((t : Server) → Inv P t → Safe (AfterInv P) (handle_all es t))
          → Safe (AfterInv P) (elim r [ none ↦ ok none | some t ↦ handle_all es t ])
      after none w more = tt
      after (some t) w more = more t w
