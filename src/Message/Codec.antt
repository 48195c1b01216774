-- ===== src/Message/Codec.antt =====
-- cpm/cpm_message_codec.cc: MessageCodec::OnRead, which cuts a connection's bytes into messages.
-- The pointer is the offset into the bytes read, and `left` is nbytes; Size() may be negative, and
-- then the pointer moves back.
pub mod Frames
pub mod Chunks
pub mod Cuts
pub mod Progress
pub mod Limit
use cpmd.Base.{
  ℕ, zero, suc, ◌+◌, ◌-◌, ◌^◌, Bool, true, false, ◌&&◌, not, Option, none, some, List, length, drop,
  ltb, leb, if◌then◌else◌,
}
use cpmd.Message.{Message, min_size, max_size, size, check, message_at}

-- How a call of OnRead ends: `consumed n` of the bytes, with the connection closed, by reading in
-- front of the buffer, or not at all within the given rounds. Each holds the callback's state.
pub data ReadResult {ℓ} (S : Type ℓ) : Type ℓ where
  consumed : ℕ → S → ReadResult S
  closed stray running : S → ReadResult S

-- Whether the 32-bit pattern stands for a negative int.
unfoldable pub is_negative : ℕ → Bool
is_negative w = leb (2 ^ 31) w

module _ {ℓ} {S : Type ℓ} (callback : Option (S → Message → S)) where
  unfoldable pub deliver : S → Message → S
  deliver s m = elim callback [ none ↦ s | some f ↦ f s m ]

  unfoldable pub on_read_loop : ℕ → List ℕ → ℕ → ℕ → S → ReadResult S
  unfolding deliver is_negative
  on_read_loop zero bytes at left s = running s
  on_read_loop (suc fuel) bytes at left s =
      let m = message_at (drop at bytes) in
      let n = size m in
      let back = 2 ^ 32 - n in
      let forth = on_read_loop fuel bytes (at + n) (left - n) (deliver s m) in
      let again = on_read_loop fuel bytes (at - back) (left + back) (deliver s m) in
      if ltb left min_size
      then consumed (length bytes - left) s
      else if not (check m)
      then closed s
      else if not (is_negative n) && leb max_size n
      then closed s
      else if not (is_negative n) && ltb left n
      then consumed (length bytes - left) s
      else if not (is_negative n)
      then forth
      else if leb back at
      then again
      else stray (deliver s m)

  unfoldable pub on_read : ℕ → List ℕ → S → ReadResult S
  on_read fuel bytes s = on_read_loop fuel bytes 0 (length bytes) s
