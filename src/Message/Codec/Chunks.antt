-- ===== src/Message/Codec/Chunks.antt =====
-- MessageCodec::OnRead (cpm/cpm_message_codec.cc) over a connection that hands over the bytes in
-- pieces, and keeps what OnRead has not consumed in front of the next piece.
use cpmd.Base.{
  subst, ℕ, ◌+◌, ◌<◌, ◌≡◌, ◌≢◌, refl, sym, ap, ◌∙◌, ◌⊎◌, inl, inr, Option, none, some, List, [],
  ◌∷◌, ◌++◌, map, append-nil, append_assoc, length, length-append, drop, drop-append, All, arith,
}
use mathlib.Core.List.{foldl}
use cpmd.Message.{Message, serialize}
use cpmd.Message.Layout.{length-serialize}
use cpmd.Message.Codec.{ReadResult, consumed, closed, stray, running, on_read}
use cpmd.Message.Codec.Frames.{IsFrame, wire, IsBeginning, on_bytes, on_read-wire}

-- Two ways to cut the same bytes: the first cut lies in front of the second, or not.
cut :
    {A : Type 0} (xs ys a b : List A)
    → xs ++ ys ≡ a ++ b
    → ((z : List A) × (z ≢ []) × (xs ++ z ≡ a) × (ys ≡ z ++ b))
      ⊎ ((z : List A) × (xs ≡ a ++ z) × (z ++ ys ≡ b))
cut xs ys [] b e = inr (xs, refl, e)
cut [] ys (x ∷ a) b e = inl (x ∷ a, (λ n. cc n), refl, e)
cut (x ∷ xs) ys (y ∷ a) b e =
    let same : x ≡ y = cc e in
    elim (cut xs ys a b (cc e)) [
      | inl (z, some_left, f, g) ↦ inl (z, some_left, cc (same, f), g)
      | inr (z, f, g) ↦ inr (z, cc (same, f), g)
    ]

-- What waits is less than the next message.
abbrev Held : List ℕ → List Message → Type 0
Held p [] = Unit
Held p (m ∷ ms) = length p < length (serialize m)

-- The bytes that have come, as the messages that are whole and the beginning of the next one.
record Parsed (ms : List Message) (xs ys tail : List ℕ) : Type 0 where
  done : List Message
  todo : List Message
  part : List ℕ
  joined : ms ≡ done ++ todo
  came : xs ≡ wire done ++ part
  comes : part ++ ys ≡ wire todo ++ tail
  begins : IsBeginning part
  held : Held part todo

parse :
    (ms : List Message) (xs ys tail : List ℕ)
    → xs ++ ys ≡ wire ms ++ tail
    → All IsFrame ms
    → IsBeginning tail
    → Parsed ms xs ys tail
parse [] xs ys tail e v b = record {
  done = [];
  todo = [];
  part = xs;
  joined = refl;
  came = refl;
  comes = e;
  begins = record {
    of = b.of;
    is_frame = b.is_frame;
    missing = ys ++ b.missing;
    some_missing = nonempty ys b.missing b.some_missing;
    whole = sym (append_assoc xs ys b.missing) ∙ ap (λ (t : List ℕ). t ++ b.missing) e ∙ b.whole;
  };
  held = tt;
}
  where
    nonempty : (u w : List ℕ) → w ≢ [] → u ++ w ≢ []
    nonempty [] w h = h
    nonempty (x ∷ u) w h = λ n. cc n
parse (m ∷ ms) xs ys tail e v b =
    elim (cut xs ys (serialize m) (wire ms ++ tail)
      (e ∙ append_assoc (serialize m) (wire ms) tail)) [
        | inl (z, left, f, g) ↦ record {
          done = [];
          todo = m ∷ ms;
          part = xs;
          joined = refl;
          came = refl;
          comes = e;
          begins = record { of = m; is_frame = v.0; missing = z; some_missing = left; whole = f };
          held = shorter xs z (serialize m) left f;
        }
        | inr (z, f, g) ↦
            let p = parse ms z ys tail g v.1 b in
            record {
              done = m ∷ p.done;
              todo = p.todo;
              part = p.part;
              joined = ap (◌∷◌ m) p.joined;
              came =
                  f
                  ∙ ap (λ (t : List ℕ). serialize m ++ t) p.came
                  ∙ sym (append_assoc (serialize m) (wire p.done) p.part);
              comes = p.comes;
              begins = p.begins;
              held = p.held;
            }
      ]
  where
    shorter : (u z w : List ℕ) → z ≢ [] → u ++ z ≡ w → length u < length w
    shorter u [] w h e = absurd (h refl)
    shorter u (x ∷ z) w h e = omega (arith, length-append u (x ∷ z), ap length e)

All-append : (xs ys : List Message) → All IsFrame (xs ++ ys) → All IsFrame xs × All IsFrame ys
All-append [] ys h = (tt, h)
All-append (x ∷ xs) ys h = let (a, b) = All-append xs ys h.1 in ((h.0, a), b)

-- The pieces together.
abbrev pub joined : List (List ℕ) → List ℕ
joined [] = []
joined (c ∷ cs) = c ++ joined cs

module _ {ℓ} {S : Type ℓ} (f : S → List ℕ → S) (fuel : ℕ) where
  -- What is left behind a call, where it came to its end and the connection stays open.
  abbrev pub kept : List ℕ → ReadResult S → Option (List ℕ × S)
  kept bytes (consumed n s) = some (drop n bytes, s)
  kept bytes (closed s) = none
  kept bytes (stray s) = none
  kept bytes (running s) = none

  abbrev pub next : Option (List ℕ × S) → (List ℕ → S → Option (List ℕ × S)) → Option (List ℕ × S)
  next none k = none
  next (some (buffer, s)) k = k buffer s

  -- One call for each piece, behind what is kept.
  abbrev pub feed : List (List ℕ) → List ℕ → S → Option (List ℕ × S)
  feed [] buffer s = some (buffer, s)
  feed (c ∷ cs) buffer s =
      next (kept (buffer ++ c) (on_read (on_bytes f) fuel (buffer ++ c) s)) (feed cs)

  deliver_all : List Message → S → S
  deliver_all ms s = foldl f s (map serialize ms)

  deliver_all-append :
      (ms ns : List Message) (s : S) → deliver_all (ms ++ ns) s ≡ deliver_all ns (deliver_all ms s)
  unfolding deliver_all
  deliver_all-append [] ns s = refl
  deliver_all-append (m ∷ ms) ns s = deliver_all-append ms ns (f s (serialize m))

  feed-held :
      (cs : List (List ℕ)) (ms : List Message) (buffer tail : List ℕ) (s : S)
      → buffer ++ joined cs ≡ wire ms ++ tail
      → All IsFrame ms
      → IsBeginning tail
      → Held buffer ms
      → length ms < fuel
      → feed cs buffer s ≡ some (tail, deliver_all ms s)
  unfolding deliver_all
  feed-held [] [] buffer tail s e v b h k =
      ap (λ (t : List ℕ). some (t, s)) (sym (append-nil buffer) ∙ e)
  feed-held [] (m ∷ ms) buffer tail s e v b h k = absurd (
      omega (
        arith,
        ap length e,
        length-append buffer [],
        length-append (serialize m ++ wire ms) tail,
        length-append (serialize m) (wire ms),
      ))
  feed-held (c ∷ cs) ms buffer tail s e v b h k =
      let p = parse ms (buffer ++ c) (joined cs) tail (append_assoc buffer c (joined cs) ∙ e) v b in
      let all = All-append p.done p.todo (subst (All IsFrame) p.joined v) in
      let count : length ms ≡ length p.done + length p.todo =
        ap length p.joined ∙ length-append p.done p.todo in
      let read : on_read (on_bytes f) fuel (wire p.done ++ p.part) s
          ≡ consumed (length (wire p.done)) (foldl f s (map serialize p.done)) =
        on_read-wire f p.done p.part fuel s all.0 p.begins (omega arith) in
      let rest : drop (length (wire p.done)) (wire p.done ++ p.part) ≡ p.part =
        drop-append (wire p.done) p.part (length (wire p.done)) refl in
      rw (p.came, read, rest)
        (feed-held cs p.todo p.part tail (foldl f s (map serialize p.done)) p.comes all.1 b p.held
            (omega arith)
          ∙ ap (λ (x : S). some (tail, x))
              (sym (deliver_all-append p.done p.todo s)
                ∙ ap (λ (l : List Message). deliver_all l s) (sym p.joined)))

  held-nil : (ms : List Message) → All IsFrame ms → Held [] ms
  held-nil [] v = tt
  held-nil (m ∷ ms) v = omega (arith, length-serialize m v.0.valid)

  -- However the bytes of acceptable messages and of a proper beginning of one more are cut into
  -- pieces: OnRead, called for each piece behind what it left of the earlier ones, with a round
  -- more than there are messages, hands every whole message to the callback, in order, and keeps
  -- exactly the beginning; and this is what one call on all of the bytes does.
  pub feed-joined :
      (cs : List (List ℕ)) (ms : List Message) (tail : List ℕ) (s : S)
      → joined cs ≡ wire ms ++ tail
      → All IsFrame ms
      → IsBeginning tail
      → length ms < fuel
      → (feed cs [] s ≡ some (tail, foldl f s (map serialize ms)))
        × (feed cs [] s ≡ feed (joined cs ∷ []) [] s)
  unfolding deliver_all
  feed-joined cs ms tail s e v b k =
      let whole = feed-held cs ms [] tail s e v b (held-nil ms v) k in
      (
        whole,
        whole
            ∙ sym (
                feed-held (joined cs ∷ []) ms [] tail s (append-nil (joined cs) ∙ e) v b
                  (held-nil ms v) k),
      )
