-- ===== src/Message/Data.antt =====
-- Message::SetData and Message::Data (cpm/cpm_message.cc).
use cpmd.Base.{
  ℕ, ◌≤◌, ◌<◌, ◌≡◌, refl, true, false, List, length, drop, take-append, arith, length-append,
  length-drop,
}
use cpmd.Message.{Message, max_data_size, data_slice, set_data}
use cpmd.Message.Layout.{IsValid}

-- SetData takes data of at most kMaxDataSize bytes, leaves the addresses, and Data gives the same
-- bytes back; longer data are refused and change nothing.
set_data-data_slice :
    (m : Message) (d : List ℕ)
    → ((length d ≤ max_data_size)
        → ((set_data m d).1 ≡ true)
          × (data_slice (set_data m d).0 ≡ d)
          × ((set_data m d).0.to ≡ m.to)
          × ((set_data m d).0.from ≡ m.from))
      × ((max_data_size < length d) → set_data m d ≡ (m, false))
unfolding set_data data_slice
set_data-data_slice m d = (
  λ h. ground (arith, take-append d (drop (length d) m.data_) (length d) refl),
  λ h. ground arith,
)

pub set_data-IsValid :
    (m : Message) (d : List ℕ)
    → IsValid m
    → max_data_size ≤ length m.data_
    → length d ≤ max_data_size
    → IsValid (set_data m d).0
unfolding set_data
set_data-IsValid m d v h k =
    ground (arith, length-append d (drop (length d) m.data_), length-drop (length d) m.data_)

pub set_data-len :
    (m : Message) (d : List ℕ)
    → length d ≤ max_data_size
    → ((set_data m d).1 ≡ true) × ((set_data m d).0.len ≡ length d)
unfolding set_data
set_data-len m d h = ground arith
