-- ===== src/Protocol/Response.antt =====
-- ResolveResponse and its Builder (cpm/cpm_protocol.h, cpm/cpm_protocol.cc).
use cpmd.Base.{ℕ, Bool, ◌+◌, List, length, drop, ltb}
use cpmd.Base.Outcome.{Outcome, ok, assert, ◌>>◌}
use cpmd.Message.{word_bytes, word}
use cpmd.Protocol.{
  ProtocolMessage, resolve_response, max_ip_size, max_node_path_size, half_bytes, half, set_field,
  ensure_length, write_at, cleared, c_string, has_end, strncpy,
}

-- ResolveResponseType
abbrev pub update_self : ℕ
update_self = 1

abbrev pub update_cache : ℕ
update_cache = 2

-- What stands in the fields, the strings up to their first zero. That the fields lie within the
-- bytes is tested where they are read.
pub record ResolveResponse : Type 0 where
  pub code : ℕ
  pub type_ : ℕ
  pub node_addr : ℕ
  pub node_port : ℕ
  pub node_ip : List ℕ
  pub node_path : List ℕ

-- ProtocolMessage::as<const ResolveResponse*>. Nothing bounds the strings but their first zero:
-- node_ip and all fields in front of it lie within the bytes where ip_ends, and all fields where
-- path_ends.
unfoldable pub of_data : List ℕ → ResolveResponse
of_data d = record {
  code = half d;
  type_ = half (drop 2 d);
  node_addr = word (drop 4 d);
  node_port = word (drop 8 d);
  node_ip = c_string (drop 12 d);
  node_path = c_string (drop 28 d);
}

unfoldable pub ip_ends : List ℕ → Bool
ip_ends d = has_end (drop 12 d)

unfoldable pub path_ends : List ℕ → Bool
path_ends d = has_end (drop 28 d)

unfoldable pub builder : ProtocolMessage
unfolding cleared
builder = cleared resolve_response

unfoldable pub set_code : ℕ → ProtocolMessage → ProtocolMessage
set_code c m = set_field m 0 (half_bytes c)

unfoldable pub set_type : ℕ → ProtocolMessage → ProtocolMessage
set_type t m = set_field m 2 (half_bytes t)

unfoldable pub set_node_address : ℕ → ProtocolMessage → ProtocolMessage
set_node_address a m = set_field m 4 (word_bytes a)

unfoldable pub set_node_port : ℕ → ProtocolMessage → ProtocolMessage
set_node_port p m = set_field m 8 (word_bytes p)

-- DefineStringFieldSetter
unfoldable pub set_node_ip : List ℕ → ProtocolMessage → Outcome ProtocolMessage
set_node_ip ip m = do
  assert (ltb (length ip) max_ip_size)
  ok (
      ensure_length (record m { data_ = write_at 12 (strncpy ip (length ip)) m.data_ })
        (12 + max_ip_size))

-- DefineLastFieldSetter: the message ends with the last byte of the path, without a zero.
unfoldable pub set_node_path : List ℕ → ProtocolMessage → Outcome ProtocolMessage
set_node_path path m = do
  assert (ltb (length path) max_node_path_size)
  ok (record m { data_ = write_at 28 (strncpy path (length path)) m.data_; len = 28 + length path })
