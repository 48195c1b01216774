-- ===== src/Server/Events.antt =====
-- What reaches cpmd from outside (the callbacks that Server::Run in cpm/cpm_server.cc installs), and
-- what each does to the server. Messages are as the codecs hand them on.
use cpmd.Base.{ℕ, Bool, Option, none, some, List, [], ◌∷◌}
use cpmd.Base.Outcome.{Outcome, ok, ◌>>=◌}
use cpmd.Alpha.{Alpha}
use cpmd.Message.{Message}
use cpmd.Protocol.{ProtocolMessage}
use cpmd.Server.{Server}
use cpmd.Server.Resolver.{handle_resolve_server_message}
use cpmd.Server.Peers.{
  on_connected_to_remote, on_connect_to_remote_error, on_connect_to_remote_close,
}
use cpmd.Server.Route.{handle_remote_node_message}
use cpmd.Server.Bus.{handle_bus_message}
use cpmd.Server.Init.{handle_init_command}

module _ ⦃α : Alpha⦄ where
  pub data Event : Type 0 where
    bus_turn : ℕ → Event
    init_command : List ℕ → List ℕ → Event
    remote_message : α.Conn → Message → Event
    resolve_message : α.Conn → ProtocolMessage → Event
    connected connection_closed : α.Conn → Event
    connect_failed : α.NetAddress → Event
    -- What the world does by itself: anything may have happened to connections meanwhile.
    world_changes : α.World → Event

  -- A turn that runs out of its rounds leaves no state: it is no event that was handled.
  abbrev pub after_turn : Option (Bool × Server) → Option Server
  after_turn none = none
  after_turn (some (busy, s)) = some s

  unfoldable pub handle : Event → Server → Outcome (Option Server)
  handle (bus_turn fuel) s = do r ← handle_bus_message fuel s; ok (after_turn r)
  handle (init_command bytes out) s = do (s', reply) ← handle_init_command s bytes out; ok (some s')
  handle (remote_message c m) s = do s' ← handle_remote_node_message s c m; ok (some s')
  handle (resolve_message c m) s = do s' ← handle_resolve_server_message s c m; ok (some s')
  handle (connected c) s = do s' ← on_connected_to_remote s c; ok (some s')
  handle (connection_closed c) s = do s' ← on_connect_to_remote_close s c; ok (some s')
  handle (connect_failed a) s = do s' ← on_connect_to_remote_error s a; ok (some s')
  handle (world_changes w) s = ok (some (record s { net = w }))

  -- Events one after the other; `none` if a turn ran out of its rounds.
  unfoldable pub handle_all : List Event → Server → Outcome (Option Server)
  handle_all [] s = ok (some s)
  handle_all (e ∷ es) s = handle e s >>= λ r. elim r [ none ↦ ok none | some t ↦ handle_all es t ]
