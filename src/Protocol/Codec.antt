-- ===== src/Protocol/Codec.antt =====
-- cpm/cpm_protocol_message_codec.cc: ProtocolMessageCodec::OnRead, which cuts a connection's bytes
-- into protocol messages. `left` are the bytes from the pointer on, as many as nbytes.
pub mod Frames
pub mod Progress
use cpmd.Base.{
  ℕ, zero, suc, ◌+◌, ◌-◌, Bool, true, false, not, Option, none, some, List, length, drop, ltb, leb,
  ◌==◌, if◌then◌else◌,
}
use cpmd.Message.Codec.{ReadResult, consumed, closed, running}
use cpmd.Protocol.{
  ProtocolMessage, max_protocol_data_size, protocol_message_magic, min_protocol_message_size, size,
  message_at,
}

module _ {ℓ} {S : Type ℓ} (callback : Option (S → ProtocolMessage → S)) where
  unfoldable pub deliver : S → ProtocolMessage → S
  deliver s m = elim callback [ none ↦ s | some f ↦ f s m ]

  -- `total` is the size of the whole buffer.
  unfoldable pub on_read_loop : ℕ → ℕ → List ℕ → S → ReadResult S
  unfolding deliver
  on_read_loop zero total left s = running s
  on_read_loop (suc fuel) total left s =
      let m = message_at left in
      let next = on_read_loop fuel total (drop (size m) left) (deliver s m) in
      if ltb (length left) min_protocol_message_size
      then consumed (total - length left) s
      else if not (m.magic == protocol_message_magic)
      then closed s
      else if leb max_protocol_data_size m.len
      then closed s
      else if ltb (length left) (size m)
      then consumed (total - length left) s
      else next

  unfoldable pub on_read : ℕ → List ℕ → S → ReadResult S
  on_read fuel bytes s = on_read_loop fuel (length bytes) bytes s
