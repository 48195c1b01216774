-- ===== src/Message.antt =====
-- cpm/cpm_message.h and cpm/cpm_message.cc: the message that clients exchange, as the object that
-- lies in memory. `len` is the 32-bit pattern of the int32_t len_, and `data` the bytes from data_
-- on: the array's, or in a message that is read in place whatever follows its header. Objects are
-- laid out with the lowest byte of a word first.
pub mod Layout
pub mod Data
pub mod Codec
use cpmd.Base.{
  ℕ, ◌+◌, ◌-◌, ◌*◌, ◌/◌, ◌%◌, ◌^◌, Bool, true, false, List, [], ◌∷◌, ◌++◌, length, take, drop,
  replicate, ltb, ◌==◌, if◌then◌else◌,
}
use cpmd.Address.{Address}
use cpmd.Address

pub record Message : Type 0 where
  pub from : Address
  pub to : Address
  pub magic : ℕ
  pub len : ℕ
  pub data_ : List ℕ

-- kMaxDataSize
abbrev pub max_data_size : ℕ
max_data_size = 2 ^ 16 - 100

-- kMinSize, the offset of data_, and kMaxSize.
abbrev pub min_size : ℕ
min_size = 24

abbrev pub max_size : ℕ
max_size = min_size + max_data_size

-- kMagic
abbrev pub magic_number : ℕ
magic_number = 0x87654321

-- Message::Clear, with the memset of a build without NDEBUG.
unfoldable pub clear : Message → Message
clear m = record m {
  from = Address.clear m.from;
  to = Address.clear m.to;
  len = 0;
  data_ = replicate max_data_size 0;
}

-- Message::Default, over the object that it declares and does not initialise.
unfoldable pub default : Message → Message
default uninitialized = record (clear uninitialized) { magic = magic_number }

-- Message::Size, kMinSize + len_ as a 32-bit pattern.
unfoldable pub size : Message → ℕ
size m = (min_size + m.len) % 2 ^ 32

-- Message::Data, for a length that is not negative.
unfoldable pub data_slice : Message → List ℕ
data_slice m = take m.len m.data_

unfoldable pub set_data : Message → List ℕ → Message × Bool
set_data m d =
    if ltb max_data_size (length d)
    then (m, false)
    else (record m { len = length d; data_ = d ++ drop (length d) m.data_ }, true)

unfoldable pub set_source_address : Message → Address → Message
set_source_address m a = record m { from = a }

unfoldable pub set_remote_address : Message → Address → Message
set_remote_address m a = record m { to = a }

unfoldable pub remote_address : Message → Address
remote_address m = m.to

unfoldable pub source_address : Message → Address
source_address m = m.from

unfoldable pub empty : Message → Bool
empty m = m.len == 0

unfoldable pub check : Message → Bool
check m = m.magic == magic_number

-- A uint32_t in memory, and back.
unfoldable pub word_bytes : ℕ → List ℕ
word_bytes w = (w % 256) ∷ (w / 256 % 256) ∷ (w / 65536 % 256) ∷ (w / 16777216 % 256) ∷ []

unfoldable pub word : List ℕ → ℕ
word (a ∷ b ∷ c ∷ d ∷ rest) = a + b * 256 + c * 65536 + d * 16777216
word _ = 0

-- The members in front of data_.
unfoldable pub header : Message → List ℕ
header m =
    word_bytes m.from.node_addr
    ++ (word_bytes m.from.client_addr
        ++ (word_bytes m.to.node_addr
            ++ (word_bytes m.to.client_addr ++ (word_bytes m.magic ++ word_bytes m.len))))

-- Message::Serialize: Size() bytes of the object.
unfoldable pub serialize : Message → List ℕ
serialize m = take (size m) (header m ++ m.data_)

-- reinterpret_cast<const Message*> of a pointer, whose bytes from there on are given.
unfoldable pub message_at : List ℕ → Message
message_at bytes = record {
  from = record { node_addr = word bytes; client_addr = word (drop 4 bytes) };
  to = record { node_addr = word (drop 8 bytes); client_addr = word (drop 12 bytes) };
  magic = word (drop 16 bytes);
  len = word (drop 20 bytes);
  data_ = drop min_size bytes;
}
