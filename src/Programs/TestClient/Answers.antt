-- ===== src/Programs/TestClient/Answers.antt =====
-- The loop of the test client that receives (cpm/cpm_client_main.cc), whenever the messages come.
use cpmd.Base.{
  ℕ, zero, suc, ◌+◌, ◌-◌, ◌%◌, ◌^◌, ◌<◌, ◌≡◌, refl, sym, ap, subst, ◌∙◌, true, false, inl, inr, ◌⊎◌,
  Option, none, some, List, [], ◌∷◌, ◌++◌, map, length, length-append, take, take-take, replicate,
  All, ◌==◌, if◌then◌else◌, arith,
}
use cpmd.Base.Bytes.{same, same_iff}
use cpmd.Base.Outcome.{Outcome, ok}
use cpmd.Alpha.{Alpha}
use cpmd.Message.{Message, data_slice, serialize}
use cpmd.Library.{accept, receive_message}
use cpmd.Library.Limits.{serialize-limits}
use cpmd.Programs.{Exit, exit_success}
use cpmd.Programs.TestClient.{
  msg, increment, decrement, Waiting, Round, goes_on, ends, round, changed, receive_loop,
}
use cpmd.Delivery.{IsQueue}
use cpmd.Delivery.Ends.{IsReceived}
use cpmd.Delivery.Local.{map-append}

-- A message that comes back.
pub record IsAnswer (m : Message) : Type 0 where
  pub is_received : IsReceived m
  pub is_msg : data_slice m ≡ msg

decrement-suc : (k : ℕ) → suc k < 2 ^ 31 → decrement (suc k) ≡ ok k
unfolding decrement
decrement-suc k h = let e : (suc k + (2 ^ 32 - 1)) % 2 ^ 32 ≡ k = omega arith in ground (arith, e)

increment-lt : (k : ℕ) → suc k < 2 ^ 31 → increment k ≡ ok (suc k)
unfolding increment
increment-lt k h = let e : (k + 1) % 2 ^ 32 ≡ suc k = omega arith in ground (arith, e)

last_or_next :
    (n : ℕ) (r : Outcome (Option Exit))
    → ((j : ℕ) → n ≡ suc j → r ≡ ok (some exit_success))
    → (if n == 0 then ok (some exit_success) else r) ≡ ok (some exit_success)
last_or_next zero r next = refl
last_or_next (suc j) r next = let e : suc j == 0 ≡ false = ground arith in rw e (next j refl)

module _ ⦃α : Alpha⦄ where
  -- Nothing happens to the bus.
  abbrev pub still : α.Bus → α.Bus
  still b = b

  -- The client after a read.
  abbrev looked : Waiting → α.Bus → Waiting
  looked w b = record w { client = record w.client { input = some (α.bus_read b).0 } }

  abbrev counted : Waiting → ℕ → Round
  counted w k = if k == 0 then ends exit_success else goes_on (record w { num = k })

  round-IsAnswer :
      (w : Waiting) (b : α.Bus) (m : Message) (k : ℕ)
      → w.client.input ≡ some b
      → (α.bus_read b).1 ≡ some (serialize m)
      → IsAnswer m
      → w.num ≡ suc k
      → suc k < 2 ^ 31
      → round w ≡ ok (counted (looked w b) k)
  unfolding round receive_message data_slice
  round-IsAnswer w b m k i read a n h =
      let whole = (serialize-limits m a.is_received.valid).2 a.is_received.short in
      let text : same (take m.len (take m.len m.data_)) msg ≡ true =
        (same_iff _ _).1 (take-take m.len m.data_ ∙ a.is_msg) in
      rw (i, read, whole, text, n, decrement-suc k h)

  round-idle :
      (w : Waiting) (b : α.Bus)
      → w.client.input ≡ some b
      → (α.bus_read b).1 ≡ none
      → suc w.loop_times < 2 ^ 31
      → round w ≡ ok (goes_on (record (looked w b) { loop_times = suc w.loop_times }))
  unfolding round receive_message
  round-idle w b i read h = rw (i, read, accept, increment-lt w.loop_times h)

module _ ⦃α : Alpha⦄ (contents : α.Bus → List (List ℕ)) where
  -- The changes put these messages on the bus, one part of them each.
  abbrev pub Brings : List (α.Bus → α.Bus) → List Message → Type 0
  Brings [] ms = ms ≡ []
  Brings (f ∷ fs) ms =
      (now : List Message) × (later : List Message) × (ms ≡ now ++ later)
      × ((b : α.Bus) → contents (f b) ≡ contents b ++ map serialize now)
      × Brings fs later

module _ ⦃α : Alpha⦄ (contents : α.Bus → List (List ℕ)) (queue : IsQueue contents) where
  All-append : (xs ys : List Message) → All IsAnswer xs → All IsAnswer ys → All IsAnswer (xs ++ ys)
  All-append [] ys h k = k
  All-append (x ∷ xs) ys h k = (h.0, All-append xs ys h.1 k)

  All-split : (xs ys : List Message) → All IsAnswer (xs ++ ys) → All IsAnswer xs × All IsAnswer ys
  All-split [] ys h = (tt, h)
  All-split (x ∷ xs) ys h = let (a, b) = All-split xs ys h.1 in ((h.0, a), b)

  -- The loop where a message lies on the bus.
  receive_loop-some :
      (f : α.Bus → α.Bus) (fs : List (α.Bus → α.Bus)) (w : Waiting) (b : α.Bus) (m : Message)
      (rest : List Message) (k : ℕ)
      → w.client.input ≡ some b
      → contents (f b) ≡ map serialize (m ∷ rest)
      → IsAnswer m
      → w.num ≡ suc k
      → suc k < 2 ^ 31
      → (v : Waiting) × (receive_loop (f ∷ fs) w
          ≡ (if k == 0 then ok (some exit_success) else receive_loop fs v))
        × (v.num ≡ k)
        × (v.loop_times ≡ w.loop_times)
        × (v.client.input ≡ some (α.bus_read (f b)).0)
        × (contents (α.bus_read (f b)).0 ≡ map serialize rest)
  unfolding changed receive_loop
  receive_loop-some f fs w b m rest k i e a n h =
      let w' : Waiting = record w { client = record w.client { input = some (f b) } } in
      let (read, left) = queue.reads (f b) (serialize m) (map serialize rest) e in
      let once = round-IsAnswer w' (f b) m k refl read a n h in
      (record (looked w' (f b)) { num = k }, rw (i, once) (ground arith), refl, refl, refl, left)

  -- The loop where nothing lies on the bus.
  receive_loop-none :
      (f : α.Bus → α.Bus) (fs : List (α.Bus → α.Bus)) (w : Waiting) (b : α.Bus)
      → w.client.input ≡ some b
      → contents (f b) ≡ []
      → suc w.loop_times < 2 ^ 31
      → (v : Waiting) × (receive_loop (f ∷ fs) w ≡ receive_loop fs v)
        × (v.num ≡ w.num)
        × (v.loop_times ≡ suc w.loop_times)
        × (v.client.input ≡ some (α.bus_read (f b)).0)
        × (contents (α.bus_read (f b)).0 ≡ [])
  unfolding changed receive_loop
  receive_loop-none f fs w b i e h =
      let w' : Waiting = record w { client = record w.client { input = some (f b) } } in
      let (read, left) = queue.reads_nothing (f b) e in
      let once = round-idle w' (f b) refl read h in
      (
        record (looked w' (f b)) { loop_times = suc w.loop_times },
        rw (i, once),
        refl,
        refl,
        refl,
        left,
      )

  List-cases :
      (xs : List Message) → (xs ≡ []) ⊎ ((m : Message) × (rest : List Message) × (xs ≡ m ∷ rest))
  List-cases [] = inl refl
  List-cases (m ∷ rest) = inr (m, rest, refl)

  -- Where enough lies on the bus.
  receive_loop-pending :
      (k n : ℕ) (pending : List Message) (w : Waiting) (b : α.Bus)
      → w.num ≡ suc n
      → suc n < 2 ^ 31
      → w.client.input ≡ some b
      → contents b ≡ map serialize pending
      → All IsAnswer pending
      → n < length pending
      → n < k
      → receive_loop (replicate k still) w ≡ ok (some exit_success)
  unfolding replicate
  receive_loop-pending zero n pending w b num h i e a enough more = absurd (omega arith)
  receive_loop-pending (suc k) n [] w b num h i e a enough more = absurd (omega arith)
  receive_loop-pending (suc k) n (m ∷ rest) w b num h i e a enough more =
      let (v, run, left, _, i', e') =
        receive_loop-some still (replicate k still) w b m rest n i e a.0 num h in
      run
      ∙ last_or_next n (receive_loop (replicate k still) v) λ j next.
        receive_loop-pending k j rest v _ (left ∙ next) (omega arith) i' e' a.1 (omega arith)
          (omega arith)

  -- The next round, behind a change that brings some messages.
  pub receive_loop-Brings :
      (fs : List (α.Bus → α.Bus)) (k n : ℕ) (pending coming : List Message) (w : Waiting)
      (b : α.Bus)
      → w.num ≡ suc n
      → suc n < 2 ^ 31
      → w.client.input ≡ some b
      → contents b ≡ map serialize pending
      → Brings contents fs coming
      → All IsAnswer pending
      → All IsAnswer coming
      → n < length pending + length coming
      → w.loop_times + length fs < 2 ^ 31
      → n < k
      → receive_loop (fs ++ replicate k still) w ≡ ok (some exit_success)
  receive_loop-Brings [] k n pending coming w b num h i e none_left a a' enough idle more =
      let all : length coming ≡ 0 = ap length none_left in
      receive_loop-pending k n pending w b num h i e a (omega arith) more
  receive_loop-Brings (f ∷ fs) k n pending coming w b num h i e (now, later, whole, adds, brings) a
        a' enough idle more =
      let here : contents (f b) ≡ map serialize (pending ++ now) =
        adds b
        ∙ ap (λ (xs : List (List ℕ)). xs ++ map serialize now) e
        ∙ sym (map-append serialize pending now) in
      let (a_now, a_later) = All-split now later (subst (All IsAnswer) whole a') in
      let a_here : All IsAnswer (pending ++ now) = All-append pending now a a_now in
      let count : length coming ≡ length now + length later =
        ap length whole ∙ length-append now later in
      let lies : length (pending ++ now) ≡ length pending + length now =
        length-append pending now in
      elim (List-cases (pending ++ now)) [
        | inl nothing ↦
            let zero_here : length (pending ++ now) ≡ 0 = ap length nothing in
            let (v, run, num', times, i', e') =
              receive_loop-none f (fs ++ replicate k still) w b i
                (here ∙ ap (map serialize) nothing) (omega arith) in
            run
            ∙ receive_loop-Brings fs k n [] later v _ (num' ∙ num) h i' e' brings tt a_later
                (omega arith) (omega arith) more
        | inr (m, rest, there) ↦
            let some_here : length (pending ++ now) ≡ suc (length rest) = ap length there in
            let answers : All IsAnswer (m ∷ rest) = subst (All IsAnswer) there a_here in
            let (v, run, num', times, i', e') =
              receive_loop-some f (fs ++ replicate k still) w b m rest n i
                (here ∙ ap (map serialize) there) answers.0 num h in
            run
            ∙ last_or_next n (receive_loop (fs ++ replicate k still) v) λ j more_to_come.
              receive_loop-Brings fs k j rest later v _ (num' ∙ more_to_come) (omega arith) i' e'
                brings answers.1 a_later (omega arith) (omega arith) (omega arith)
      ]
