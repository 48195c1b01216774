-- ===== src/Protocol.antt =====
-- cpm/cpm_protocol.h and cpm/cpm_protocol.cc: the messages between cpmd, its clients and the resolve
-- server. Enumerations are their 16-bit patterns; structures lie in `data_` at their offsets, with the
-- lowest byte of a number first.
pub mod Request
pub mod Response
pub mod Layout
pub mod Codec
pub mod Fields
use cpmd.Base.{
  false, ◌||◌, Bool, ℕ, ◌+◌, ◌-◌, ◌*◌, ◌/◌, ◌%◌, ◌^◌, List, [], ◌∷◌, ◌++◌, length, take, drop,
  replicate, ltb, ◌==◌, if◌then◌else◌,
}
use cpmd.Message.{word_bytes, word}

abbrev pub max_name_size : ℕ
max_name_size = 2 ^ 7

abbrev pub max_path_size : ℕ
max_path_size = 2 ^ 7

abbrev pub max_node_path_size : ℕ
max_node_path_size = 2 ^ 7

abbrev pub max_protocol_data_size : ℕ
max_protocol_data_size = 2 ^ 10

abbrev pub max_ip_size : ℕ
max_ip_size = 16

-- MessageType
abbrev pub client_hand_shake : ℕ
client_hand_shake = 1

abbrev pub resolve_request : ℕ
resolve_request = 2

abbrev pub resolve_response : ℕ
resolve_response = 3

-- kOk of HandShakeError and of ResolveServerError.
abbrev pub ok_code : ℕ
ok_code = 0

-- HandShakeError
abbrev pub failed_to_create_bus : ℕ
failed_to_create_bus = 2 ^ 16 - 101

-- ResolveServerError
abbrev pub invalid_node : ℕ
invalid_node = 2 ^ 16 - 200

abbrev pub node_not_found : ℕ
node_not_found = 2 ^ 16 - 201

abbrev pub protocol_message_magic : ℕ
protocol_message_magic = 0x12345678

-- offsetof (ProtocolMessage, data) and sizeof (ProtocolMessage)
abbrev pub min_protocol_message_size : ℕ
min_protocol_message_size = 10

abbrev pub sizeof_protocol_message : ℕ
sizeof_protocol_message = 1036

pub record ProtocolMessage : Type 0 where
  pub kind : ℕ
  pub magic : ℕ
  pub len : ℕ
  pub data_ : List ℕ

unfoldable pub size : ProtocolMessage → ℕ
size m = min_protocol_message_size + m.len

-- A 16-bit number in memory, and back.
unfoldable pub half_bytes : ℕ → List ℕ
half_bytes w = (w % 256) ∷ (w / 256 % 256) ∷ []

unfoldable pub half : List ℕ → ℕ
half (a ∷ b ∷ rest) = a + b * 256
half _ = 0

-- Two bytes of padding stand behind `type`; the constructors of the builders clear them.
unfoldable pub serialize : ProtocolMessage → List ℕ
serialize m =
    take (size m)
      (half_bytes m.kind ++ (0 ∷ 0 ∷ (word_bytes m.magic ++ (half_bytes m.len ++ m.data_))))

-- reinterpret_cast<const ProtocolMessage*>
unfoldable pub message_at : List ℕ → ProtocolMessage
message_at bytes = record {
  kind = half bytes;
  magic = word (drop 4 bytes);
  len = half (drop 8 bytes);
  data_ = drop min_protocol_message_size bytes;
}

-- EnsureLength
unfoldable pub ensure_length : ProtocolMessage → ℕ → ProtocolMessage
ensure_length m n = if ltb m.len n then record m { len = n } else m

-- An assignment to the bytes from an offset on.
unfoldable pub write_at : ℕ → List ℕ → List ℕ → List ℕ
write_at n bytes d = take n d ++ (bytes ++ drop (n + length bytes) d)

-- DefineFieldSetter, for a field at an offset.
unfoldable pub set_field : ProtocolMessage → ℕ → List ℕ → ProtocolMessage
unfolding ensure_length write_at
set_field m at bytes =
    ensure_length (record m { data_ = write_at at bytes m.data_ }) (at + length bytes)

-- The characters of a C string: those in front of the first zero, which for a std::string stands
-- behind its last character at the latest. Where bytes of an object are read as a string, has_end
-- says whether there is a zero among them.
unfoldable pub c_string : List ℕ → List ℕ
c_string [] = []
c_string (x ∷ xs) = if x == 0 then [] else x ∷ c_string xs

unfoldable pub has_end : List ℕ → Bool
has_end [] = false
has_end (x ∷ xs) = x == 0 || has_end xs

-- strncpy: the string, cut or filled with zeros to the given size.
unfoldable pub strncpy : List ℕ → ℕ → List ℕ
unfolding c_string
strncpy s n = take n (c_string s ++ replicate n 0)

-- DefineBuilderConstructor
unfoldable pub cleared : ℕ → ProtocolMessage
cleared kind = record {
  kind = kind;
  magic = protocol_message_magic;
  len = 0;
  data_ = replicate max_protocol_data_size 0;
}
