-- ===== src/Chat.antt =====
-- examples/chatroom/chat_protocol.{h,cc} and examples/chatroom/chat_server.cc: the messages of the
-- chat room, and its server, a client of cpmd.
pub mod Room
pub mod Member
pub mod Strings
use cpmd.Base.{Bool, ℕ, ◌+◌, ◌-◌, ◌^◌, List, [], ◌∷◌, ◌++◌, drop, replicate}
use cpmd.Protocol.{half_bytes, half, c_string, has_end, strncpy}

-- MessageType
abbrev pub register : ℕ
register = 1

abbrev pub heart_beat : ℕ
heart_beat = 2

abbrev pub message : ℕ
message = 3

abbrev pub private_message : ℕ
private_message = 4

-- kMaxNameSize, kMaxWordsSize, and sizeof (Message)
abbrev pub max_name_size : ℕ
max_name_size = 2 ^ 4

abbrev pub max_words_size : ℕ
max_words_size = 2 ^ 6

abbrev pub sizeof_chat : ℕ
sizeof_chat = 98

-- chat::Message, with its arrays as their bytes.
pub record Chat : Type 0 where
  pub type_ : ℕ
  pub name : List ℕ
  pub to_name : List ℕ
  pub words : List ℕ

-- Builder::Builder
unfoldable pub builder : Chat
builder = record {
  type_ = 0;
  name = replicate max_name_size 0;
  to_name = replicate max_name_size 0;
  words = replicate max_words_size 0;
}

-- An array of the given size, behind strncpy and the zero at its end.
unfoldable pub array_of : ℕ → List ℕ → List ℕ
array_of n s = strncpy s (n - 1) ++ (0 ∷ [])

unfoldable pub set_type : ℕ → Chat → Chat
set_type t m = record m { type_ = t }

unfoldable pub set_name : List ℕ → Chat → Chat
set_name s m = record m { name = array_of max_name_size s }

unfoldable pub set_to_name : List ℕ → Chat → Chat
set_to_name s m = record m { to_name = array_of max_name_size s }

unfoldable pub set_words : List ℕ → Chat → Chat
set_words s m = record m { words = array_of max_words_size s }

-- The object in memory.
unfoldable pub chat_bytes : Chat → List ℕ
chat_bytes m = half_bytes m.type_ ++ (m.name ++ (m.to_name ++ m.words))

-- What stands in the object at the bytes: its type, and its strings up to their first zero. That
-- they lie within the bytes is tested where they are read.
pub record Heard : Type 0 where
  pub kind : ℕ
  pub member : List ℕ
  pub to_member : List ℕ
  pub said : List ℕ

-- Whether the name, the other member's name, and the words end within the bytes.
unfoldable pub name_ends : List ℕ → Bool
name_ends bytes = has_end (drop 2 bytes)

unfoldable pub to_name_ends : List ℕ → Bool
to_name_ends bytes = has_end (drop (2 + max_name_size) bytes)

unfoldable pub words_end : List ℕ → Bool
words_end bytes = has_end (drop (2 + max_name_size + max_name_size) bytes)

unfoldable pub heard_at : List ℕ → Heard
heard_at bytes = record {
  kind = half bytes;
  member = c_string (drop 2 bytes);
  to_member = c_string (drop (2 + max_name_size) bytes);
  said = c_string (drop (2 + max_name_size + max_name_size) bytes);
}
