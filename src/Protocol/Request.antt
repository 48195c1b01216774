-- ===== src/Protocol/Request.antt =====
-- ResolveRequest and its Builder (cpm/cpm_protocol.h, cpm/cpm_protocol.cc).
use cpmd.Base.{Bool, leb, length, ◌==◌, if◌then◌else◌, ℕ, List, drop}
use cpmd.Message.{word_bytes, word}
use cpmd.Protocol.{ProtocolMessage, resolve_request, half_bytes, half, set_field, cleared}

-- ResolveRequestType
abbrev pub initialize_self : ℕ
initialize_self = 1

abbrev pub lookup_node : ℕ
lookup_node = 2

pub record ResolveRequest : Type 0 where
  pub type_ : ℕ
  pub self_addr : ℕ
  pub cpmd_port : ℕ
  pub peer_addr : ℕ

-- ProtocolMessage::as<const ResolveRequest*>
unfoldable pub of_data : List ℕ → ResolveRequest
of_data d = record {
  type_ = half d;
  self_addr = word (drop 4 d);
  cpmd_port = word (drop 8 d);
  peer_addr = word (drop 12 d);
}

-- Whether what is read of a request lies within the bytes: the port of an initial one, both addresses
-- of a lookup, and the type of any.
unfoldable pub has_fields : List ℕ → Bool
has_fields d =
    if (of_data d).type_ == initialize_self
    then leb 12 (length d)
    else if (of_data d).type_ == lookup_node
    then leb 16 (length d)
    else leb 2 (length d)

unfoldable pub builder : ProtocolMessage
unfolding cleared
builder = cleared resolve_request

unfoldable pub set_type : ℕ → ProtocolMessage → ProtocolMessage
set_type t m = set_field m 0 (half_bytes t)

unfoldable pub set_self_address : ℕ → ProtocolMessage → ProtocolMessage
set_self_address a m = set_field m 4 (word_bytes a)

unfoldable pub set_port : ℕ → ProtocolMessage → ProtocolMessage
set_port p m = set_field m 8 (word_bytes p)

unfoldable pub set_peer_address : ℕ → ProtocolMessage → ProtocolMessage
set_peer_address a m = set_field m 12 (word_bytes a)
