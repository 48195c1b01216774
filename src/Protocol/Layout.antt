-- ===== src/Protocol/Layout.antt =====
-- The layout of a protocol message in memory (cpm/cpm_protocol.h), written and read.
use cpmd.Base.{
  ℕ, ◌+◌, ◌*◌, ◌/◌, ◌%◌, ◌^◌, ◌≤◌, ◌<◌, ◌≡◌, refl, ap, ◌∙◌, List, ◌∷◌, ◌++◌, length, take,
  length-append, length-take, append_assoc, arith,
}
use cpmd.Message.{word_bytes, word}
use cpmd.Message.Layout.{IsWord, word-eq, take-past}
use cpmd.Protocol.{
  ProtocolMessage, min_protocol_message_size, size, half_bytes, half, serialize, message_at,
}

-- The numbers fit their fields, and the length is that of data that are there.
pub record IsValid (m : ProtocolMessage) : Type 0 where
  pub kind_half : m.kind < 2 ^ 16
  pub magic_word : IsWord m.magic
  pub len_half : m.len < 2 ^ 16
  pub has_data : m.len ≤ length m.data_

pub half-eq : (w : ℕ) → w < 2 ^ 16 → w % 256 + w / 256 % 256 * 256 ≡ w
half-eq w h = omega arith

-- What stands in front of the data.
abbrev pub header : ProtocolMessage → List ℕ
header m = half_bytes m.kind ++ (0 ∷ 0 ∷ (word_bytes m.magic ++ half_bytes m.len))

serialize-header : (m : ProtocolMessage) → serialize m ≡ take (size m) (header m ++ m.data_)
unfolding serialize half_bytes word_bytes
serialize-header m = refl

length-header : (m : ProtocolMessage) → length (header m) ≡ min_protocol_message_size
unfolding half_bytes word_bytes
length-header m = refl

pub serialize-eq : (m : ProtocolMessage) → serialize m ≡ header m ++ take m.len m.data_
unfolding size
serialize-eq m =
    serialize-header m
    ∙ ap (λ (k : ℕ). take k (header m ++ m.data_)) (omega (arith, length-header m))
    ∙ take-past (header m) m.data_ m.len

pub length-serialize :
    (m : ProtocolMessage) → IsValid m → length (serialize m) ≡ min_protocol_message_size + m.len
length-serialize m v =
    ap length (serialize-eq m)
    ∙ omega (
      arith,
      length-append (header m) (take m.len m.data_),
      length-header m,
      length-take m.len m.data_ v.has_data,
    )

message_at-header :
    (m : ProtocolMessage) (rest : List ℕ)
    → IsValid m
    → message_at (header m ++ rest) ≡ record m { data_ = rest }
unfolding message_at half_bytes half word_bytes word
message_at-header m rest v = λ i. record {
  kind = half-eq m.kind v.kind_half i;
  magic = word-eq m.magic v.magic_word i;
  len = half-eq m.len v.len_half i;
  data_ = rest;
}

-- Behind a message's own data stands whatever follows it.
pub message_at-serialize :
    (m : ProtocolMessage) (rest : List ℕ)
    → IsValid m
    → message_at (serialize m ++ rest) ≡ record m { data_ = take m.len m.data_ ++ rest }
message_at-serialize m rest v =
    ap (λ (xs : List ℕ). message_at (xs ++ rest)) (serialize-eq m)
    ∙ ap message_at (append_assoc (header m) (take m.len m.data_) rest)
    ∙ message_at-header m (take m.len m.data_ ++ rest) v
