-- ===== src/Message/Codec/Limit.antt =====
-- The largest message, for Message::SetData (cpm/cpm_message.cc) and for MessageCodec::OnRead.
use cpmd.Base.{suc, ◌≤◌, ◌≡◌, inr, true, Option, List, ℕ, ◌++◌, length, length-append, arith}
use cpmd.Message.{Message, max_data_size, set_data, serialize}
use cpmd.Message.Layout.{IsValid, length-serialize, size-message_at-serialize}
use cpmd.Message.Data.{set_data-IsValid, set_data-len}
use cpmd.Message.Codec.{closed, on_read}
use cpmd.Message.Codec.Progress.{on_read-rejects}

-- SetData accepts data of kMaxDataSize bytes on a valid message with its whole array, and OnRead
-- closes the connection that carries the message, without handing it on.
set_data-on_read {ℓ} :
    {S : Type ℓ} (callback : Option (S → Message → S)) (s : S) (fuel : ℕ) (m : Message)
    (d rest : List ℕ)
    → IsValid m
    → max_data_size ≤ length m.data_
    → length d ≡ max_data_size
    → ((set_data m d).1 ≡ true)
      × (on_read callback (suc fuel) (serialize (set_data m d).0 ++ rest) s ≡ closed s)
set_data-on_read callback s fuel m d rest v h k =
    let fits : length d ≤ max_data_size = omega arith in
    let v' = set_data-IsValid m d v h fits in
    let n = size-message_at-serialize (set_data m d).0 rest v' in
    let l = set_data-len m d fits in
    (
      l.0,
      on_read-rejects callback fuel (serialize (set_data m d).0 ++ rest) s
          (omega (
            arith,
            length-append (serialize (set_data m d).0) rest,
            length-serialize (set_data m d).0 v',
          ))
          (inr (omega (arith, l.1), omega (arith, l.1))),
    )
