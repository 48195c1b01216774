-- ===== src/Resolve/Service/Steps.antt =====
-- What may happen to the resolve server (cpm/cpm_resolve_server.cc), one call from the event loop at
-- a time. A connection that is accepted is a new object, without a context; behind OnClose its context
-- goes with it. The world outside changes whenever it wants.
use cpmd.Base.{◌≡◌, none, some, List, ℕ}
use cpmd.Base.Map
use cpmd.Base.Outcome.{ok}
use cpmd.Alpha.{Alpha}
use cpmd.Boost.{PropertyTree}
use cpmd.Protocol.{ProtocolMessage}
use cpmd.Resolve.Service.{
  Service, context, serve, on_new_connection, on_close, kick_off_node, on_message,
}

module _ ⦃α : Alpha⦄ where
  unfoldable pub forget : α.Conn → Service → Service
  forget c s = record s { contexts = Map.erase ⦃o = α.conn_key⦄ c s.contexts }

  pub data Step (s t : Service) : Type 0 where
    accepted : (c : α.Conn) → context s c ≡ none → t ≡ on_new_connection s c → Step s t
    received :
        (memory : List ℕ) (c : α.Conn) (m : ProtocolMessage)
        → on_message memory s c m ≡ ok t
        → Step s t
    closed : (c : α.Conn) (u : Service) → on_close s c ≡ ok u → t ≡ forget c u → Step s t
    kicked : (c : α.Conn) → t ≡ kick_off_node s c → Step s t
    moved : (w : α.World) → t ≡ record s { net = w } → Step s t

  -- The states that a server comes to that was started with a file.
  pub data Reached (β : PropertyTree) (file : List ℕ) : Service → Type 0 where
    started : (w : α.World) (s : Service) → serve β file w ≡ ok (some s) → Reached β file s
    stepped : (s t : Service) → Reached β file s → Step s t → Reached β file t
