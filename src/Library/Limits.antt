-- ===== src/Library/Limits.antt =====
-- The limits of a message on a bus: SendMessage and ReceiveMessage of the client library
-- (cpm/cpm_impl.cc) and ReadMessage of cpmd (cpm/cpm_client_info.cc).
use cpmd.Base.{
  if◌then◌else◌, length, ◌^◌, ℕ, ◌+◌, ◌≤◌, ◌<◌, ◌≡◌, refl, sym, ap, ◌∙◌, List, [], append-nil, take,
  none, some, ltb, leb, ltb-eq-false, leb-eq-false, false, true, arith,
}
use cpmd.Alpha.{Alpha}
use cpmd.Message.{
  Message, min_size, max_size, max_data_size, size, serialize, message_at, data_slice,
}
use cpmd.Message.Codec.{is_negative}
use cpmd.Message.Layout.{IsValid, length-serialize, message_at-serialize}
use cpmd.Client.{is_too_large}
use cpmd.Client
use cpmd.Library.{accept}
use cpmd.Library.Udp.{status_ok, invalid_message}

module _ ⦃α : Alpha⦄ (m : Message) (v : IsValid m) where
  -- The message with its own data only.
  abbrev pub alone : Message
  alone = record m { data_ = take m.len m.data_ }

  message_at-alone : message_at (serialize m) ≡ alone
  unfolding data_slice
  message_at-alone =
      ap message_at (sym (append-nil (serialize m)))
      ∙ message_at-serialize m [] v
      ∙ ap (λ (d : List ℕ). record m { data_ = d }) (append-nil (take m.len m.data_))

  size-alone : size alone ≡ min_size + m.len
  unfolding size
  size-alone = let h : m.len ≤ max_data_size = v.len_fits in omega arith

  is_too_large-alone : is_too_large alone ≡ leb max_data_size (min_size + m.len)
  unfolding is_too_large is_negative
  is_too_large-alone =
      let h : m.len ≤ max_data_size = v.len_fits in
      rw (size-alone, leb-eq-false (2 ^ 31) (min_size + m.len) (omega arith)) refl

  not_truncated : ltb (length (serialize m)) min_size ≡ false
  not_truncated = ltb-eq-false (length (serialize m)) min_size (omega (arith, length-serialize m v))

  cpmd_accepts :
      Client.accept (some (serialize m))
      ≡ (if leb max_data_size (min_size + m.len) then none else some alone)
  unfolding Client.accept
  cpmd_accepts = rw (not_truncated, message_at-alone, is_too_large-alone) refl

  client_accepts :
      accept (some (serialize m))
      ≡ (if leb max_data_size m.len then (invalid_message, none) else (status_ok, some alone))
  unfolding accept
  client_accepts =
      let e : leb max_size (length (serialize m)) ≡ leb max_data_size m.len =
        ap (leb max_size) (length-serialize m v) ∙ ground arith in
      rw (not_truncated, e, message_at-alone) refl

  -- A valid message on a bus: cpmd reads it where header and data together are shorter than
  -- kMaxDataSize, and drops it otherwise; the client library reads it where the data are shorter
  -- than kMaxDataSize, and calls it invalid where they have exactly this size.
  pub serialize-limits :
      (min_size + m.len < max_data_size → Client.accept (some (serialize m)) ≡ some alone)
      × (max_data_size ≤ min_size + m.len → Client.accept (some (serialize m)) ≡ none)
      × (m.len < max_data_size → accept (some (serialize m)) ≡ (status_ok, some alone))
      × (m.len ≡ max_data_size → accept (some (serialize m)) ≡ (invalid_message, none))
  serialize-limits = (
    (λ h. cpmd_accepts ∙ rw (leb-eq-false max_data_size (min_size + m.len) h) refl),
    (λ h.
        let e : leb max_data_size (min_size + m.len) ≡ true = ground arith in
        cpmd_accepts ∙ rw e refl),
    (λ h. client_accepts ∙ rw (leb-eq-false max_data_size m.len h) refl),
    (λ h. let e : leb max_data_size m.len ≡ true = ground arith in client_accepts ∙ rw e refl),
  )
