-- ===== src/Server/Incoming.antt =====
-- What Server::Run (cpm/cpm_server.cc) installs on the connections of other nodes: MessageCodec, with
-- HandleRemoteNodeMessage as its callback.
use cpmd.Base.{ℕ, some, List}
use cpmd.Base.Outcome.{Outcome, ok, ◌>>=◌}
use cpmd.Alpha.{Alpha}
use cpmd.Message.{Message}
use cpmd.Message.Codec.{ReadResult, on_read}
use cpmd.Server.{Server}
use cpmd.Server.Route.{handle_remote_node_message}

module _ ⦃α : Alpha⦄ where
  -- The callback; behind a failed assert nothing is handled.
  abbrev pub on_message : α.Conn → Outcome Server → Message → Outcome Server
  on_message c so_far m = so_far >>= λ s. handle_remote_node_message s c m

  -- The bytes that a connection of another node has, within the given rounds.
  unfoldable pub on_message_bytes : ℕ → Server → α.Conn → List ℕ → ReadResult (Outcome Server)
  on_message_bytes fuel s c bytes = on_read (some (on_message c)) fuel bytes (ok s)
