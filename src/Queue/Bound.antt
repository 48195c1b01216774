-- ===== src/Queue/Bound.antt =====
-- MessageCacheQueue::Push (cpm/cpm_message_cache_queue.cc): what the queue holds after pushes.
use cpmd.Base.{
  ℕ, suc, ◌+◌, ◌-◌, ◌≤◌, ◌<◌, ◌≡◌, refl, sym, ap, inl, inr, Bool-cases, ltb, ltb→lt, ◌∙◌, Option,
  none, some, List, [], ◌∷◌, ◌++◌, arith, length, length-append, drop, drop-append_le, length-drop,
  drop-add, append_assoc, append-nil,
}
use cpmd.Base.Outcome.{Outcome, ok, aborted, ◌>>=◌}
use cpmd.Message.{Message}
use cpmd.Queue.{Queue, push}

pub record IsValid (q : Queue) : Type 0 where
  pub positive : 0 < q.max_size
  pub bounded : length q.messages ≤ q.max_size

-- The last `n` of a list.
abbrev pub last_n {ℓ} : {A : Type ℓ} → ℕ → List A → List A
last_n n xs = drop (length xs - n) xs

push_room :
    (q : Queue) (m d : Message)
    → length q.messages < q.max_size
    → push q m (some d) ≡ ok (record q { messages = q.messages ++ (m ∷ []) }, some d)
unfolding push
push_room q m d h = ground arith

push_full :
    (q : Queue) (m d x : Message) (xs : List Message)
    → q.messages ≡ x ∷ xs
    → length q.messages ≡ q.max_size
    → push q m (some d) ≡ ok (record q { messages = xs ++ (m ∷ []) }, some x)
unfolding push
push_full q m d x xs e h = ground arith

-- Without a place for what is dropped, the assert stops a push on a full queue.
push_null_full :
    (q : Queue) (m : Message) → length q.messages ≡ q.max_size → push q m none ≡ aborted
unfolding push
push_null_full q m h = ground arith

-- One push with a place for what is dropped on a valid queue: with room, the message goes behind
-- the others and nothing is dropped; on a full queue exactly the oldest message is handed out and
-- the message goes behind the rest.
push_lem :
    (q : Queue) (m d : Message)
    → IsValid q
    → ((length q.messages < q.max_size)
        → push q m (some d) ≡ ok (record q { messages = q.messages ++ (m ∷ []) }, some d))
      × ((length q.messages ≡ q.max_size)
          → (x : Message) × (xs : List Message) × (q.messages ≡ x ∷ xs)
            × (push q m (some d) ≡ ok (record q { messages = xs ++ (m ∷ []) }, some x)))
push_lem q m d v = (push_room q m d, λ h. full q.messages refl h)
  where
    full :
        (ms : List Message)
        → q.messages ≡ ms
        → length q.messages ≡ q.max_size
        → (x : Message) × (xs : List Message) × (q.messages ≡ x ∷ xs)
          × (push q m (some d) ≡ ok (record q { messages = xs ++ (m ∷ []) }, some x))
    full [] e h = absurd (omega (arith, ap length e, v.positive))
    full (x ∷ xs) e h = (x, xs, e, push_full q m d x xs e h)

module _ {ℓ} {A : Type ℓ} where
  pub last_n-short : (n : ℕ) (xs : List A) → length xs ≤ n → last_n n xs ≡ xs
  last_n-short n xs h = let e : length xs - n ≡ 0 = omega arith in ap (λ (k : ℕ). drop k xs) e

  last_n-one : (n : ℕ) (x : A) (xs : List A) → length xs ≡ n → last_n n (x ∷ xs) ≡ xs
  last_n-one n x xs h =
      let e : suc (length xs) - n ≡ 1 = omega arith in ap (λ (k : ℕ). drop k (x ∷ xs)) e

  pub last_n-append : (n : ℕ) (xs ys : List A) → last_n n (last_n n xs ++ ys) ≡ last_n n (xs ++ ys)
  last_n-append n xs ys =
      let k : ℕ = length xs - n in
      let cut : drop k xs ++ ys ≡ drop k (xs ++ ys) = sym (drop-append_le k xs ys (omega arith)) in
      let j : ℕ = length (drop k (xs ++ ys)) - n in
      let e : k + j ≡ length (xs ++ ys) - n =
        omega (arith, length-drop k (xs ++ ys), length-append xs ys) in
      ap (last_n n) cut ∙ sym (drop-add k j (xs ++ ys)) ∙ ap (λ (i : ℕ). drop i (xs ++ ys)) e

-- Every push with a place for what is dropped succeeds, and keeps the newest messages.
pub push-last_n :
    (q : Queue) (m d : Message)
    → IsValid q
    → (out : Message) × (push q m (some d)
        ≡ ok (record q { messages = last_n q.max_size (q.messages ++ (m ∷ [])) }, some out))
push-last_n q m d v = elim (Bool-cases (ltb (length q.messages) q.max_size)) [
  | inl room ↦ (
    d,
    push_room q m d (ltb→lt _ _ room)
        ∙ kept
            (last_n-short q.max_size (q.messages ++ (m ∷ []))
              (omega (arith, ltb→lt _ _ room, length-append q.messages (m ∷ []))))
            d,
  )
  | inr full ↦
      let e : length q.messages ≡ q.max_size = ground (arith, v.bounded) in
      let (x, xs, split, pushed) = (push_lem q m d v).1 e in
      (
        x,
        pushed
            ∙ kept
                (rw split (
                  last_n-one q.max_size x (xs ++ (m ∷ []))
                    (omega (arith, length-append xs (m ∷ []), ap length split))))
                x,
      )
]
  where
    kept :
        {ms : List Message}
        → last_n q.max_size (q.messages ++ (m ∷ [])) ≡ ms
        → (x : Message)
        → ◌≡◌ {A = Outcome (Queue × Option Message)}
            (ok (record q { messages = ms }, some x))
            (ok (record q { messages = last_n q.max_size (q.messages ++ (m ∷ [])) }, some x))
    kept e x = λ i. ok (record q { messages = sym e i }, some x)

-- Pushes in order, each with a place for what is dropped.
abbrev pub push_all : Queue → List Message → Message → Outcome Queue
push_all q [] d = ok q
push_all q (m ∷ ms) d = do (q', out) ← push q m (some d); push_all q' ms d

-- Any sequence of pushes, each with a place for what is dropped, on a valid queue returns, and the
-- queue then holds the newest of all messages, in order, as many as it may.
pub push_all-last_n :
    (q : Queue) (ms : List Message) (d : Message)
    → IsValid q
    → push_all q ms d ≡ ok (record q { messages = last_n q.max_size (q.messages ++ ms) })
push_all-last_n q [] d v =
    let e : last_n q.max_size (q.messages ++ []) ≡ q.messages =
      rw append-nil (last_n-short q.max_size q.messages v.bounded) in
    λ i. ok (record q { messages = sym e i })
push_all-last_n q (m ∷ ms) d v =
    let (out, e) = push-last_n q m d v in
    let kept = last_n q.max_size (q.messages ++ (m ∷ [])) in
    let bound : length kept ≤ q.max_size = omega (
      arith,
      length-drop (length (q.messages ++ (m ∷ [])) - q.max_size) (q.messages ++ (m ∷ [])),
    ) in
    rw e (
      push_all-last_n (record q { messages = kept }) ms d
        (record { positive = v.positive; bounded = bound })
      ∙ ap (λ (xs : List Message). ok (record q { messages = xs }))
          (last_n-append q.max_size (q.messages ++ (m ∷ [])) ms
            ∙ ap (last_n q.max_size) (append_assoc q.messages (m ∷ []) ms)))
