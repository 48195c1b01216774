-- ===== src/Message/Codec/Progress.antt =====
-- MessageCodec::OnRead (cpm/cpm_message_codec.cc) on any bytes.
use cpmd.Base.{
  sym, ap, subst, ◌∙◌, inl, inr, Bool, Bool-cases, ◌&&◌, ltb, ltb→lt, [], ℕ, zero, suc, ◌+◌, ◌-◌,
  ◌^◌, ◌≤◌, ◌<◌, ◌≡◌, refl, ◌⊎◌, true, false, Option, List, length, drop, arith,
}
use cpmd.Message.Codec.Cuts.{IsCut, IsCut-cons}
use cpmd.Message.Codec.Frames.{loop_whole, loop_part, loop_rest}
use cpmd.Message.{Message, min_size, max_size, size, check, message_at}
use cpmd.Message.Codec.{ReadResult, consumed, closed, running, deliver, on_read_loop, on_read}

-- What is handed over: the magic number, and less than kMaxSize bytes.
abbrev pub accepts : Message → Bool
accepts m = check m && ltb (size m) max_size

-- No header with the magic number, wherever it stands, has a length that makes Size() zero or
-- negative.
abbrev pub HasSizes : List ℕ → Type 0
HasSizes bytes =
    (p : ℕ)
    → check (message_at (drop p bytes)) ≡ true
    → (0 < size (message_at (drop p bytes))) × (size (message_at (drop p bytes)) < 2 ^ 31)

module _ {ℓ} {S : Type ℓ} (callback : Option (S → Message → S)) where
  -- The result of cutting the bytes from the position `p` on.
  abbrev CutAt : List ℕ → ℕ → S → ReadResult S → Type ℓ
  CutAt bytes p s r = IsCut message_at accepts size min_size (deliver callback) bytes p s r

  abbrev pub Ends : List ℕ → S → ReadResult S → Type ℓ
  Ends bytes s r = CutAt bytes 0 s r

  -- A header that is not accepted.
  loop_closed :
      (fuel : ℕ) (bytes : List ℕ) (at left : ℕ) (s : S)
      → min_size ≤ left
      → accepts (message_at (drop at bytes)) ≡ false
      → (check (message_at (drop at bytes)) ≡ true → size (message_at (drop at bytes)) < 2 ^ 31)
      → on_read_loop callback (suc fuel) bytes at left s ≡ closed s
  unfolding on_read_loop
  loop_closed fuel bytes at left s h a sized = ground (arith, sized)

  loop-CutAt :
      (bytes : List ℕ)
      → HasSizes bytes
      → (fuel at left : ℕ) (s : S) → at + left ≡ length bytes
      → left < fuel
      → CutAt bytes at s (on_read_loop callback fuel bytes at left s)
  loop-CutAt bytes h zero at left s e f = absurd (omega arith)
  loop-CutAt bytes h (suc fuel) at left s e f =
      let m = message_at (drop at bytes) in
      let read : length bytes - left ≡ at = omega arith in
      let ends : consumed (length bytes - left) s ≡ consumed at s = ap (λ n. consumed n s) read in
      elim (Bool-cases (ltb left min_size)) [
        | inl short ↦
            let few : left < min_size = ltb→lt left min_size short in
            (
              [],
              at,
              refl,
              inl (loop_rest callback fuel bytes at left s few ∙ ends, inl (omega arith)),
            )
        | inr enough ↦
            let header : min_size ≤ left = ground arith in
            elim (Bool-cases (accepts m)) [
              | inr refused ↦ (
                [],
                at,
                refl,
                inr (
                  loop_closed fuel bytes at left s header refused (λ c. (h at c).1),
                  omega arith,
                  refused,
                ),
              )
              | inl taken ↦
                  let c : check m ≡ true = ground arith in
                  let fits : size m < max_size = ground arith in
                  let (some_size, _) = h at c in
                  elim (Bool-cases (ltb left (size m))) [
                    | inl more ↦
                        let part : left < size m = ltb→lt left (size m) more in
                        (
                          [],
                          at,
                          refl,
                          inl (
                            loop_part callback fuel bytes at left (size m) m s refl c refl fits part
                                ∙ ends,
                            inr (taken, omega arith),
                          ),
                        )
                    | inr whole ↦
                        let there : size m ≤ left = ground arith in
                        let next =
                          loop-CutAt bytes h fuel (at + size m) (left - size m)
                            (deliver callback s m) (omega arith) (omega arith) in
                        IsCut-cons message_at accepts size min_size (deliver callback) bytes at s _
                          taken (omega arith) (omega arith)
                          (subst (CutAt bytes (at + size m) (deliver callback s m))
                            (sym (
                              loop_whole callback fuel bytes at left (size m) m s refl c refl fits
                                header there))
                            next)
                  ]
            ]
      ]

  -- Where no header with the magic number in the buffer makes Size() zero or negative, OnRead
  -- comes to its end within one round more than there are bytes. There is a row of frames from the
  -- front of the buffer, each with the magic number and less than kMaxSize, and each whole within
  -- the buffer: exactly these messages are handed to the callback, in order. Behind them either
  -- less than a header is left, or a message that would be accepted but is not whole, and exactly
  -- the frames are consumed; or a header is left without the magic number or with kMaxSize or
  -- more, and the connection is closed.
  pub on_read-Ends :
      (bytes : List ℕ) (fuel : ℕ) (s : S)
      → HasSizes bytes
      → length bytes < fuel
      → Ends bytes s (on_read callback fuel bytes s)
  unfolding on_read
  on_read-Ends bytes fuel s h f = loop-CutAt bytes h fuel 0 (length bytes) s (omega arith) f

  loop_spins :
      (fuel : ℕ) (bytes : List ℕ) (left : ℕ) (s : S)
      → min_size ≤ left
      → check (message_at bytes) ≡ true
      → size (message_at bytes) ≡ 0
      → (t : S) × (on_read_loop callback fuel bytes 0 left s ≡ running t)
  unfolding on_read_loop
  loop_spins zero bytes left s h c z = (s, refl)
  loop_spins (suc fuel) bytes left s h c z =
      let ih = loop_spins fuel bytes left (deliver callback s (message_at bytes)) h c z in
      let same : left - 0 ≡ left = omega arith in (ih.0, rw (z, c, same) (ground (arith, ih.1)))

  -- On a buffer that begins with a header with the magic number and a length that makes Size()
  -- zero, no number of rounds brings OnRead to an end.
  pub on_read-spins :
      (fuel : ℕ) (bytes : List ℕ) (s : S)
      → min_size ≤ length bytes
      → check (message_at bytes) ≡ true
      → size (message_at bytes) ≡ 0
      → (t : S) × (on_read callback fuel bytes s ≡ running t)
  unfolding on_read
  on_read-spins fuel bytes s h c z = loop_spins fuel bytes (length bytes) s h c z

  -- A buffer that begins with a header whose magic number is wrong, or whose Size() is kMaxSize or
  -- more, closes the connection, and nothing is handed to the callback.
  pub on_read-rejects :
      (fuel : ℕ) (bytes : List ℕ) (s : S)
      → min_size ≤ length bytes
      → ((check (message_at bytes) ≡ false)
          ⊎ ((max_size ≤ size (message_at bytes)) × (size (message_at bytes) < 2 ^ 31)))
      → on_read callback (suc fuel) bytes s ≡ closed s
  unfolding on_read on_read_loop
  on_read-rejects fuel bytes s h bad = ground arith
