-- ===== src/Message/Codec/Frames.antt =====
-- MessageCodec::OnRead on the bytes of messages, one behind the other, and of the beginning of one
-- more.
use cpmd.Base.{
  ℕ, zero, suc, ◌+◌, ◌-◌, ◌≤◌, ◌<◌, ◌≡◌, refl, sym, ap, ◌∙◌, ◌≢◌, true, Option, some, List, [], ◌∷◌,
  ◌++◌, map, append_assoc, append-nil, length, length-append, drop, drop-append, drop-add, All,
  Bool-cases, ltb→lt, inl, inr, arith, ltb,
}
use mathlib.Core.List.{foldl}
use cpmd.Message.{
  Message, max_data_size, min_size, max_size, size, magic_number, check, serialize, message_at,
}
use cpmd.Message.Layout.{
  IsValid, size-message_at-serialize, length-serialize, message_at-serialize, serialize-message_at,
  check-message_at-append, size-message_at-append,
}
use cpmd.Message.Codec.{consumed, deliver, is_negative, on_read_loop, on_read}

-- What OnRead accepts: a valid message with the class's magic number, of less than kMaxSize bytes.
pub record IsFrame (m : Message) : Type 0 where
  pub valid : IsValid m
  pub magic : m.magic ≡ magic_number
  pub short : m.len < max_data_size

-- The messages on the wire.
abbrev pub wire : List Message → List ℕ
wire [] = []
wire (m ∷ ms) = serialize m ++ wire ms

-- A proper beginning of a message's bytes.
pub record IsBeginning (tail : List ℕ) : Type 0 where
  pub of : Message
  pub is_frame : IsFrame of
  pub missing : List ℕ
  pub some_missing : missing ≢ []
  pub whole : tail ++ missing ≡ serialize of

-- One round on a whole frame, one on a part of a frame, and one on less than a header.
module _ {ℓ} {S : Type ℓ} (callback : Option (S → Message → S)) (fuel : ℕ) (bytes : List ℕ) where
  pub loop_whole :
      (at left n : ℕ) (m : Message) (s : S)
      → message_at (drop at bytes) ≡ m
      → check m ≡ true
      → size m ≡ n
      → n < max_size
      → min_size ≤ left
      → n ≤ left
      → on_read_loop callback (suc fuel) bytes at left s
        ≡ on_read_loop callback fuel bytes (at + n) (left - n) (deliver callback s m)
  unfolding on_read_loop
  loop_whole at left n m s e c z short enough fits =
      rw (e, c, z) (unfold is_negative in ground arith)

  pub loop_part :
      (at left n : ℕ) (m : Message) (s : S)
      → message_at (drop at bytes) ≡ m
      → check m ≡ true
      → size m ≡ n
      → n < max_size
      → left < n
      → on_read_loop callback (suc fuel) bytes at left s ≡ consumed (length bytes - left) s
  unfolding on_read_loop
  loop_part at left n m s e c z short more = rw (e, c, z) (unfold is_negative in ground arith)

  pub loop_rest :
      (at left : ℕ) (s : S)
      → left < min_size
      → on_read_loop callback (suc fuel) bytes at left s ≡ consumed (length bytes - left) s
  unfolding on_read_loop
  loop_rest at left s h = ground arith

length-pos : (xs : List ℕ) → xs ≢ [] → 0 < length xs
length-pos [] h = absurd (h refl)
length-pos (x ∷ xs) h = omega arith

consumed_length :
    (ms : List Message) (tail : List ℕ) → length (wire ms ++ tail) - length tail ≡ length (wire ms)
consumed_length ms tail = omega (arith, length-append (wire ms) tail)

-- The object that OnRead finds where a frame begins.
module _ (m : Message) (rest : List ℕ) (v : IsFrame m) where
  found-check : check (message_at (serialize m ++ rest)) ≡ true
  unfolding check
  found-check = rw (message_at-serialize m rest v.valid) (ground arith)

  found-size : size (message_at (serialize m ++ rest)) ≡ min_size + m.len
  found-size = size-message_at-serialize m rest v.valid

-- The same where only a beginning of the frame has come, with its header whole.
module _ (tail : List ℕ) (b : IsBeginning tail) where
  begun : tail ++ b.missing ≡ serialize b.of ++ []
  begun = b.whole ∙ sym (append-nil (serialize b.of))

  begun-check : min_size ≤ length tail → check (message_at tail) ≡ true
  begun-check h =
      sym (check-message_at-append tail b.missing h)
      ∙ ap (λ (xs : List ℕ). check (message_at xs)) begun
      ∙ found-check b.of [] b.is_frame

  begun-size : min_size ≤ length tail → size (message_at tail) ≡ min_size + b.of.len
  begun-size h =
      sym (size-message_at-append tail b.missing h)
      ∙ ap (λ (xs : List ℕ). size (message_at xs)) begun
      ∙ found-size b.of [] b.is_frame

  begun-length : length tail < min_size + b.of.len
  begun-length = omega (
    arith,
    length-append tail b.missing,
    ap length b.whole,
    length-serialize b.of b.is_frame.valid,
    length-pos b.missing b.some_missing,
  )

-- A callback that makes of a frame, whatever lies behind it, what `f` makes of the frame's bytes.
module _ {ℓ} {S : Type ℓ} (callback : Option (S → Message → S)) (f : S → List ℕ → S)
    (own : (s : S) (m : Message) (rest : List ℕ)
      → IsFrame m
      → deliver callback s (message_at (serialize m ++ rest)) ≡ f s (serialize m)) where
  loop_frame :
      (fuel at left : ℕ) (bytes rest : List ℕ) (m : Message) (s : S)
      → IsFrame m
      → drop at bytes ≡ serialize m ++ rest
      → left ≡ length (serialize m ++ rest)
      → on_read_loop callback (suc fuel) bytes at left s
        ≡ on_read_loop callback fuel bytes
            (at + (min_size + m.len))
            (left - (min_size + m.len))
            (f s (serialize m))
  loop_frame fuel at left bytes rest m s v e l =
      loop_whole callback fuel bytes at left (min_size + m.len) (message_at (serialize m ++ rest)) s
        (ap message_at e) (found-check m rest v) (found-size m rest v) (omega (arith, v.short))
        (omega (arith, length-append (serialize m) rest, length-serialize m v.valid))
        (omega (arith, length-append (serialize m) rest, length-serialize m v.valid))
      ∙ ap
          (λ (t : S).
            on_read_loop callback fuel bytes (at + (min_size + m.len)) (left - (min_size + m.len))
              t)
          (own s m rest v)

  loop_beginning :
      (fuel at left : ℕ) (bytes tail : List ℕ) (s : S)
      → IsBeginning tail
      → drop at bytes ≡ tail
      → left ≡ length tail
      → on_read_loop callback (suc fuel) bytes at left s ≡ consumed (length bytes - left) s
  loop_beginning fuel at left bytes tail s b e l = elim (Bool-cases (ltb left min_size)) [
    | inl short ↦ loop_rest callback fuel bytes at left s (ltb→lt left min_size short)
    | inr long ↦
        loop_part callback fuel bytes at left (min_size + b.of.len) (message_at tail) s
          (ap message_at e) (begun-check tail b (ground arith)) (begun-size tail b (ground arith))
          (omega (arith, b.is_frame.short)) (omega (arith, begun-length tail b))
  ]

  loop_wire :
      (ms : List Message) (fuel at left : ℕ) (bytes tail : List ℕ) (s : S)
      → All IsFrame ms
      → IsBeginning tail
      → length ms < fuel
      → drop at bytes ≡ wire ms ++ tail
      → left ≡ length (wire ms ++ tail)
      → on_read_loop callback fuel bytes at left s
        ≡ consumed (length bytes - length tail) (foldl f s (map serialize ms))
  loop_wire [] zero at left bytes tail s v b h e l = absurd (omega arith)
  loop_wire [] (suc fuel) at left bytes tail s v b h e l =
      loop_beginning fuel at left bytes tail s b e l
      ∙ ap (λ (n : ℕ). consumed (length bytes - n) s) l
  loop_wire (m ∷ ms) zero at left bytes tail s v b h e l = absurd (omega arith)
  loop_wire (m ∷ ms) (suc fuel) at left bytes tail s v b h e l =
      let n : ℕ = min_size + m.len in
      let rest : List ℕ = wire ms ++ tail in
      let e' : drop at bytes ≡ serialize m ++ rest =
        e ∙ append_assoc (serialize m) (wire ms) tail in
      let l' : left ≡ length (serialize m ++ rest) =
        l ∙ ap length (append_assoc (serialize m) (wire ms) tail) in
      let k : length (serialize m) ≡ n = length-serialize m v.0.valid in
      loop_frame fuel at left bytes rest m s v.0 e' l'
      ∙ loop_wire ms fuel (at + n) (left - n) bytes tail (f s (serialize m)) v.1 b (omega arith)
          (drop-add at n bytes ∙ ap (drop n) e' ∙ drop-append (serialize m) rest n k)
          (omega (arith, length-append (serialize m) rest))

  pub on_read-frames :
      (ms : List Message) (tail : List ℕ) (fuel : ℕ) (s : S)
      → All IsFrame ms
      → IsBeginning tail
      → length ms < fuel
      → on_read callback fuel (wire ms ++ tail) s
        ≡ consumed (length (wire ms)) (foldl f s (map serialize ms))
  unfolding on_read
  on_read-frames ms tail fuel s v b h =
      loop_wire ms fuel 0 (length (wire ms ++ tail)) (wire ms ++ tail) tail s v b h refl refl
      ∙ ap (λ (n : ℕ). consumed n (foldl f s (map serialize ms))) (consumed_length ms tail)

module _ {ℓ} {S : Type ℓ} (f : S → List ℕ → S) where
  -- A callback that reads the message's own bytes only.
  abbrev pub on_bytes : Option (S → Message → S)
  on_bytes = some (λ s m. f s (serialize m))

  own_bytes :
      (s : S) (m : Message) (rest : List ℕ)
      → IsFrame m
      → deliver on_bytes s (message_at (serialize m ++ rest)) ≡ f s (serialize m)
  unfolding deliver
  own_bytes s m rest v = ap (f s) (serialize-message_at m rest v.valid)

  -- On the bytes of any acceptable messages one behind the other, followed by a proper beginning
  -- of one more, OnRead with a round more than there are messages hands every whole message to the
  -- callback, in order, consumes exactly their bytes, and leaves the beginning.
  pub on_read-wire :
      (ms : List Message) (tail : List ℕ) (fuel : ℕ) (s : S)
      → All IsFrame ms
      → IsBeginning tail
      → length ms < fuel
      → on_read on_bytes fuel (wire ms ++ tail) s
        ≡ consumed (length (wire ms)) (foldl f s (map serialize ms))
  on_read-wire ms tail fuel s v b h = on_read-frames on_bytes f own_bytes ms tail fuel s v b h
