-- ===== src/Protocol/Codec/Progress.antt =====
-- ProtocolMessageCodec::OnRead (cpm/cpm_protocol_message_codec.cc) on any bytes.
use cpmd.Base.{
  ℕ, zero, suc, ◌+◌, ◌-◌, ◌<◌, ◌≤◌, ◌≡◌, refl, sym, ap, subst, ◌∙◌, inl, inr, Bool, Bool-cases,
  ◌&&◌, ◌==◌, ltb, ltb→lt, true, false, Option, List, [], length, length-drop, drop, drop-add,
  arith,
}
use cpmd.Message.Codec.{ReadResult, consumed, closed}
use cpmd.Message.Codec.Cuts.{IsCut, IsCut-cons}
use cpmd.Protocol.{
  ProtocolMessage, max_protocol_data_size, protocol_message_magic, min_protocol_message_size, size,
  message_at,
}
use cpmd.Protocol.Codec.{deliver, on_read_loop, on_read}

-- What is handed over: the magic number, and a length below kMaxProtocolDataSize.
abbrev pub accepts : ProtocolMessage → Bool
accepts m = (m.magic == protocol_message_magic) && ltb m.len max_protocol_data_size

module _ {ℓ} {S : Type ℓ} (callback : Option (S → ProtocolMessage → S)) where
  -- The result of cutting the bytes from the position `p` on.
  abbrev CutAt : List ℕ → ℕ → S → ReadResult S → Type ℓ
  CutAt bytes p s r =
      IsCut message_at accepts size min_protocol_message_size (deliver callback) bytes p s r

  abbrev pub Halts : List ℕ → S → ReadResult S → Type ℓ
  Halts bytes s r = CutAt bytes 0 s r

  module _ (fuel total : ℕ) (left : List ℕ) (s : S) where
    loop_rest :
        length left < min_protocol_message_size
        → on_read_loop callback (suc fuel) total left s ≡ consumed (total - length left) s
    unfolding on_read_loop
    loop_rest h = ground arith

    loop_closed :
        min_protocol_message_size ≤ length left
        → accepts (message_at left) ≡ false
        → on_read_loop callback (suc fuel) total left s ≡ closed s
    unfolding on_read_loop
    loop_closed h a = ground arith

    loop_part :
        min_protocol_message_size ≤ length left
        → accepts (message_at left) ≡ true
        → length left < size (message_at left)
        → on_read_loop callback (suc fuel) total left s ≡ consumed (total - length left) s
    unfolding on_read_loop
    loop_part h a more = ground arith

    loop_whole :
        min_protocol_message_size ≤ length left
        → accepts (message_at left) ≡ true
        → size (message_at left) ≤ length left
        → on_read_loop callback (suc fuel) total left s
          ≡ on_read_loop callback fuel total
              (drop (size (message_at left)) left)
              (deliver callback s (message_at left))
    unfolding on_read_loop
    loop_whole h a there = ground arith

  size-pos : (m : ProtocolMessage) → min_protocol_message_size ≤ size m
  unfolding size
  size-pos m = omega arith

  loop-CutAt :
      (bytes : List ℕ) (fuel p : ℕ) (s : S)
      → p ≤ length bytes
      → length bytes < p + fuel
      → CutAt bytes p s (on_read_loop callback fuel (length bytes) (drop p bytes) s)
  loop-CutAt bytes zero p s k f = absurd (omega arith)
  loop-CutAt bytes (suc fuel) p s k f =
      let left : List ℕ = drop p bytes in
      let m = message_at left in
      let here : length left ≡ length bytes - p = length-drop p bytes in
      let ends : consumed (length bytes - length left) s ≡ consumed p s =
        ap (λ n. consumed n s) (omega arith) in
      elim (Bool-cases (ltb (length left) min_protocol_message_size)) [
        | inl short ↦
            let few = ltb→lt (length left) min_protocol_message_size short in
            ([], p, refl, inl (loop_rest fuel (length bytes) left s few ∙ ends, inl (omega arith)))
        | inr enough ↦
            let header : min_protocol_message_size ≤ length left = ground arith in
            elim (Bool-cases (accepts m)) [
              | inr refused ↦ (
                [],
                p,
                refl,
                inr (loop_closed fuel (length bytes) left s header refused, omega arith, refused),
              )
              | inl taken ↦ elim (Bool-cases (ltb (length left) (size m))) [
                | inl more ↦
                    let part = ltb→lt (length left) (size m) more in
                    (
                      [],
                      p,
                      refl,
                      inl (
                        loop_part fuel (length bytes) left s header taken part ∙ ends,
                        inr (taken, omega arith),
                      ),
                    )
                | inr whole ↦
                    let there : size m ≤ length left = ground arith in
                    let at_least = size-pos m in
                    let next =
                      loop-CutAt bytes fuel (p + size m) (deliver callback s m) (omega arith)
                        (omega arith) in
                    let moved : drop (p + size m) bytes ≡ drop (size m) left =
                      drop-add p (size m) bytes in
                    IsCut-cons message_at accepts size min_protocol_message_size (deliver callback)
                      bytes p s _ taken (omega arith) (omega arith)
                      (subst (CutAt bytes (p + size m) (deliver callback s m))
                        (ap
                            (λ (l : List ℕ).
                              on_read_loop callback fuel (length bytes) l (deliver callback s m))
                            moved
                          ∙ sym (loop_whole fuel (length bytes) left s header taken there))
                        next)
              ]
            ]
      ]

  -- On any bytes whatsoever, OnRead over protocol messages comes to its end, with a round more
  -- than there are bytes. There is a row of frames from the front of the buffer, each with the
  -- magic number and a length below kMaxProtocolDataSize, and each whole within the buffer:
  -- exactly these messages are handed to the callback, in order. Behind them either less than a
  -- header is left, or a message that would be accepted but is not whole, and exactly the frames
  -- are consumed; or a header is left without the magic number or with too great a length, and the
  -- connection is closed.
  pub on_read-Halts :
      (bytes : List ℕ) (fuel : ℕ) (s : S)
      → length bytes < fuel
      → Halts bytes s (on_read callback fuel bytes s)
  unfolding on_read
  on_read-Halts bytes fuel s f = loop-CutAt bytes fuel 0 s (omega arith) (omega arith)
