-- ===== src/Server/Init.antt =====
-- Server::HandleInitCommand (cpm/cpm_server.cc): the hand shake with a local client, and the paths of
-- its buses.
pub mod Accept
pub mod Paths
use cpmd.Base.{
  ℕ, ◌+◌, ◌-◌, ◌<◌, Bool, true, false, not, ◌||◌, Option, none, some, List, [], ◌∷◌, ◌++◌, length,
  take, drop, ltb, ◌==◌, is_some, if◌then◌else◌,
}
use cpmd.Base.Map
use cpmd.Base.Map.{nat_key}
use cpmd.Base.Outcome.{within, Outcome, ok, assert, ◌>>=◌, ◌>>◌}
use cpmd.Alpha.{Alpha}
use cpmd.Address.{create, slash}
use cpmd.Message.{word}
use cpmd.Protocol.{
  max_path_size, max_name_size, min_protocol_message_size, sizeof_protocol_message, ok_code,
  failed_to_create_bus, half_bytes, write_at, c_string, has_end, strncpy,
}
use cpmd.Client.{ClientInfo, set_input_bus, set_output_bus}
use cpmd.Client
use cpmd.Server.{Server}

-- "_input.bus" and "_output.bus"
abbrev pub input_suffix : List ℕ
input_suffix = b'_' ∷ b'i' ∷ b'n' ∷ b'p' ∷ b'u' ∷ b't' ∷ b'.' ∷ b'b' ∷ b'u' ∷ b's' ∷ []

abbrev pub output_suffix : List ℕ
output_suffix = b'_' ∷ b'o' ∷ b'u' ∷ b't' ∷ b'p' ∷ b'u' ∷ b't' ∷ b'.' ∷ b'b' ∷ b'u' ∷ b's' ∷ []

-- snprintf of "%s/%s" and the suffix into kMaxPathSize bytes, the last of which is the zero.
unfoldable pub get_bus_path : List ℕ → List ℕ → List ℕ → List ℕ
get_bus_path suffix location name =
    take (max_path_size - 1) (c_string location ++ (slash ∷ (c_string name ++ suffix)))

unfoldable pub get_input_bus_path : List ℕ → List ℕ → List ℕ
get_input_bus_path = get_bus_path input_suffix

unfoldable pub get_output_bus_path : List ℕ → List ℕ → List ℕ
get_output_bus_path = get_bus_path output_suffix

pub record HandShakeRequest : Type 0 where
  pub buffer_size : ℕ
  pub name : List ℕ

-- The request in the bytes of a ProtocolMessage, and whether its name ends among them.
unfoldable pub request_of : List ℕ → HandShakeRequest
request_of bytes = record {
  buffer_size = word (drop min_protocol_message_size bytes);
  name = c_string (drop (min_protocol_message_size + 4) bytes);
}

unfoldable pub name_ends : List ℕ → Bool
name_ends bytes = has_end (drop (min_protocol_message_size + 4) bytes)

-- Writes to the fields of a HandShakeResponse in the bytes of the reply.
unfoldable pub reply_code : ℕ → List ℕ → List ℕ
reply_code code out = write_at min_protocol_message_size (half_bytes code) out

unfoldable pub reply_output_path : List ℕ → List ℕ → List ℕ
reply_output_path path out =
    write_at (min_protocol_message_size + 2 + max_path_size) (strncpy path max_path_size) out

unfoldable pub reply_input_path : List ℕ → List ℕ → List ℕ
reply_input_path path out =
    write_at (min_protocol_message_size + 2) (strncpy path max_path_size) out

module _ ⦃α : Alpha⦄ where
  -- The else branch: the client gets its buses, and the reply their paths, crossed.
  unfoldable pub accept_client :
      Server → HandShakeRequest → Option α.Bus → Option α.Bus → List ℕ → Outcome (Server × List ℕ)
  accept_client s req input output out = do
    addr ← create req.name
    c0 ← set_input_bus input (Client.new req.name addr)
    client ← set_output_bus output c0
    let input_path = get_input_bus_path s.bus_location req.name
    let output_path = get_output_bus_path s.bus_location req.name
    assert (ltb (length input_path) max_path_size)
    assert (ltb (length output_path) max_path_size)
    ok (
      record s { clients = (Map.emplace addr.client_addr client s.clients).0 },
      reply_input_path output_path (reply_output_path input_path (reply_code ok_code out)),
    )

  -- Both buses are asked for before either is looked at.
  unfoldable pub serve_request : Server → HandShakeRequest → List ℕ → Outcome (Server × List ℕ)
  serve_request s req out =
      let (w, input) =
        α.restore_or_create s.net (get_input_bus_path s.bus_location req.name) req.buffer_size in
      let (w', output) =
        α.restore_or_create w (get_output_bus_path s.bus_location req.name) req.buffer_size in
      let s' : Server = record s { net = w' } in
      if not (is_some input) || not (is_some output)
      then ok (s', reply_code failed_to_create_bus out)
      else accept_client s' req input output out

  -- The reply in the bytes `out`, and `none` for the result -1.
  unfoldable pub handle_init_command : Server → List ℕ → List ℕ → Outcome (Server × Option (List ℕ))
  handle_init_command s bytes out =
      if not (length bytes == sizeof_protocol_message) then ok (s, none) else do
        within (name_ends bytes)
        (s', reply) ← serve_request s (request_of bytes) out
        ok (s', some reply)
