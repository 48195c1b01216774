-- ===== src/Protocol/Codec/Frames.antt =====
-- ProtocolMessageCodec::OnRead (cpm/cpm_protocol_message_codec.cc) on the bytes of protocol messages,
-- one behind the other.
use cpmd.Base.{
  ℕ, zero, suc, ◌+◌, ◌≤◌, ◌<◌, ◌≡◌, ap, ◌∙◌, some, List, [], ◌∷◌, ◌++◌, length, length-append, take,
  drop, drop-append, All, ltb-eq-false, leb-eq-false, ==_iff, arith,
}
use mathlib.Core.List.{foldl}
use cpmd.Message.Codec.{consumed}
use cpmd.Protocol.{
  ProtocolMessage, max_protocol_data_size, protocol_message_magic, min_protocol_message_size, size,
  serialize, message_at,
}
use cpmd.Protocol.Layout.{IsValid, length-serialize, message_at-serialize}
use cpmd.Protocol.Codec.{deliver, on_read_loop, on_read}

-- What OnRead accepts.
pub record IsFrame (m : ProtocolMessage) : Type 0 where
  pub valid : IsValid m
  pub magic : m.magic ≡ protocol_message_magic
  pub short : m.len < max_protocol_data_size

-- The messages on the stream.
abbrev pub stream : List ProtocolMessage → List ℕ
stream [] = []
stream (m ∷ ms) = serialize m ++ stream ms

-- The messages as the callback sees them in the buffer: behind its own data each has the rest of
-- the buffer.
abbrev pub received : List ProtocolMessage → List ProtocolMessage
received [] = []
received (m ∷ ms) = record m { data_ = take m.len m.data_ ++ stream ms } ∷ received ms

module _ {ℓ} {S : Type ℓ} (f : S → ProtocolMessage → S) where
  loop_frame :
      (fuel total : ℕ) (found : ProtocolMessage) (left rest : List ℕ) (s : S)
      → message_at left ≡ found
      → drop (min_protocol_message_size + found.len) left ≡ rest
      → found.magic ≡ protocol_message_magic
      → found.len < max_protocol_data_size
      → min_protocol_message_size + found.len ≤ length left
      → on_read_loop (some f) (suc fuel) total left s
        ≡ on_read_loop (some f) fuel total rest (f s found)
  unfolding on_read_loop deliver size
  loop_frame fuel total found left rest s e d c short fits = rw (
    e,
    d,
    (==_iff found.magic protocol_message_magic).1 c,
    leb-eq-false max_protocol_data_size found.len short,
    ltb-eq-false (length left) min_protocol_message_size (omega arith),
    ltb-eq-false (length left) (min_protocol_message_size + found.len) fits,
  )

  -- The last round finds nothing.
  loop_nothing :
      (fuel total : ℕ) (s : S) → on_read_loop (some f) (suc fuel) total [] s ≡ consumed total s
  unfolding on_read_loop
  loop_nothing fuel total s = ap (λ (n : ℕ). consumed n s) (omega arith)

  loop_stream :
      (ms : List ProtocolMessage) (fuel total : ℕ) (s : S)
      → All IsFrame ms
      → length ms < fuel
      → on_read_loop (some f) fuel total (stream ms) s ≡ consumed total (foldl f s (received ms))
  loop_stream ms zero total s v h = absurd (omega arith)
  loop_stream [] (suc fuel) total s v h = loop_nothing fuel total s
  loop_stream (m ∷ ms) (suc fuel) total s v h =
      let found : ProtocolMessage = record m { data_ = take m.len m.data_ ++ stream ms } in
      let k = length-serialize m v.0.valid in
      loop_frame fuel total found (serialize m ++ stream ms) (stream ms) s
        (message_at-serialize m (stream ms) v.0.valid)
        (drop-append (serialize m) (stream ms) (min_protocol_message_size + m.len) k) v.0.magic
        v.0.short (omega (arith, k, length-append (serialize m) (stream ms)))
      ∙ loop_stream ms fuel total (f s found) v.1 (omega arith)

  -- On the bytes of any acceptable protocol messages one behind the other, OnRead with a round
  -- more than there are messages hands every message to the callback, in order, with its own data
  -- and then the bytes of the messages behind it, and consumes all of the bytes.
  pub on_read-stream :
      (ms : List ProtocolMessage) (fuel : ℕ) (s : S)
      → All IsFrame ms
      → length ms < fuel
      → on_read (some f) fuel (stream ms) s
        ≡ consumed (length (stream ms)) (foldl f s (received ms))
  unfolding on_read
  on_read-stream ms fuel s v h = loop_stream ms fuel (length (stream ms)) s v h
