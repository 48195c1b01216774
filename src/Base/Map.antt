-- ===== src/Base/Map.antt =====
-- std::map as an association list: `emplace` keeps the keys in their order, which is the order of
-- iteration, and changes nothing where the key is present.
use Prim.Native.Nat.{ℕ}
use mathlib.Core.Path.{◌≡◌, refl, sym, ap, ◌∙◌}
use mathlib.Core.Logic.{◌↔◌, ◌⊎◌, inl, inr}
use mathlib.Core.Bool.{Bool, true, false}
use mathlib.Core.Option
use mathlib.Core.Option.{Option, none, some}
use mathlib.Core.List.{List, [], ◌∷◌, map}
use native.Mathlib.Omega.{arith}
use cpmd.Base.Lists.{All, All-mono}
use cpmd.Base.Tests.{ltb, ◌==◌, ==_iff, Bool-cases, Option-cases, if◌then◌else◌}

-- What std::map asks of its key type; `beq` is what two negative comparisons come to.
pub record Key {ℓ} (K : Type ℓ) : Type ℓ where
  pub beq : K → K → Bool
  pub less : K → K → Bool
  pub beq_iff : (a b : K) → (beq a b ≡ true) ↔ (a ≡ b)

instance abbrev pub nat_key : Key ℕ
nat_key = record { beq = ◌==◌; less = ltb; beq_iff = ==_iff }

module _ {ℓ κ} {K : Type ℓ} {V : Type κ} ⦃o : Key K⦄ where
  unfoldable pub find : K → List (K × V) → Option V
  find k [] = none
  find k ((j, v) ∷ m) = if o.beq j k then some v else find k m

  -- Behind the smaller keys.
  unfoldable pub insert : K → V → List (K × V) → List (K × V)
  insert k v [] = (k, v) ∷ []
  insert k v ((j, w) ∷ m) = if o.less k j then (k, v) ∷ (j, w) ∷ m else (j, w) ∷ insert k v m

  -- The map, and whether the pair was added.
  unfoldable pub emplace : K → V → List (K × V) → List (K × V) × Bool
  emplace k v m = elim (find k m) [ none ↦ (insert k v m, true) | some w ↦ (m, false) ]

  -- A write through a pointer to the value at a key.
  unfoldable pub set : K → V → List (K × V) → List (K × V)
  set k v [] = []
  set k v ((j, w) ∷ m) = if o.beq j k then (j, v) ∷ set k v m else (j, w) ∷ set k v m

  -- `m[k] = v`
  unfoldable pub assign : K → V → List (K × V) → List (K × V)
  assign k v m = elim (find k m) [ none ↦ insert k v m | some w ↦ set k v m ]

  unfoldable pub erase : K → List (K × V) → List (K × V)
  erase k [] = []
  erase k ((j, w) ∷ m) = if o.beq j k then erase k m else (j, w) ∷ erase k m

  pub find-insert :
      (k j : K) (v : V) (m : List (K × V))
      → find k m ≡ none
      → find j (insert k v m) ≡ (if o.beq k j then some v else find j m)
  unfolding find insert
  find-insert k j v [] h = refl
  find-insert k j v ((i, w) ∷ m) h =
      ground (arith, o.beq_iff k j, o.beq_iff i k, o.beq_iff i j, find-insert k j v m)

  pub find-set :
      (k j : K) (v : V) (m : List (K × V))
      → find j (set k v m) ≡ (if o.beq k j then Option.map (λ _. v) (find k m) else find j m)
  unfolding find set
  find-set k j v [] = ground arith
  find-set k j v ((i, w) ∷ m) =
      ground (arith, o.beq_iff k j, o.beq_iff i k, o.beq_iff i j, find-set k j v m)

  pub find-erase :
      (k j : K) (m : List (K × V)) → find j (erase k m) ≡ (if o.beq k j then none else find j m)
  unfolding find erase
  find-erase k j [] = ground arith
  find-erase k j ((i, w) ∷ m) =
      ground (arith, o.beq_iff k j, o.beq_iff i k, o.beq_iff i j, find-erase k j m)

  -- What is found after a change was written by it, or was there before.
  pub find-set_cases :
      (k j : K) (v x : V) (m : List (K × V))
      → find j (set k v m) ≡ some x
      → ((k ≡ j) × (x ≡ v)) ⊎ (find j m ≡ some x)
  find-set_cases k j v x m e = ground (arith, find-set k j v m, o.beq_iff k j)

  pub find-set-some :
      (k j : K) (v x : V) (m : List (K × V))
      → find j m ≡ some x
      → (y : V) × (find j (set k v m) ≡ some y)
  find-set-some k j v x m e = elim (Bool-cases (o.beq k j)) [
    | inl same ↦ (v, ground (arith, find-set k j v m, o.beq_iff k j))
    | inr other ↦ (x, ground (arith, find-set k j v m))
  ]

  pub find-set_self :
      (k : K) (v x : V) (m : List (K × V)) → find k m ≡ some x → find k (set k v m) ≡ some v
  find-set_self k v x m e = ground (arith, find-set k k v m, o.beq_iff k k)

  pub find-insert_cases :
      (k j : K) (v x : V) (m : List (K × V))
      → find k m ≡ none
      → find j (insert k v m) ≡ some x
      → ((k ≡ j) × (x ≡ v)) ⊎ (find j m ≡ some x)
  find-insert_cases k j v x m e f = ground (arith, find-insert k j v m, o.beq_iff k j)

  pub find-insert-some :
      (k j : K) (v x : V) (m : List (K × V))
      → find k m ≡ none
      → find j m ≡ some x
      → find j (insert k v m) ≡ some x
  find-insert-some k j v x m e f = ground (arith, find-insert k j v m, o.beq_iff k j)

  pub emplace-eq_none :
      (k : K) (v : V) (m : List (K × V)) → find k m ≡ none → emplace k v m ≡ (insert k v m, true)
  unfolding emplace
  emplace-eq_none k v m e = ground arith

  pub emplace-eq_some :
      (k : K) (v x : V) (m : List (K × V)) → find k m ≡ some x → emplace k v m ≡ (m, false)
  unfolding emplace
  emplace-eq_some k v x m e = ground arith

  pub find-insert_self :
      (k : K) (v : V) (m : List (K × V)) → find k m ≡ none → find k (insert k v m) ≡ some v
  find-insert_self k v m e = ground (arith, find-insert k k v m, o.beq_iff k k)

  pub find-erase_cases :
      (k j : K) (x : V) (m : List (K × V)) → find j (erase k m) ≡ some x → find j m ≡ some x
  find-erase_cases k j x m e = ground (arith, find-erase k j m)

  find-cons_some :
      (k j : K) (w x : V) (m : List (K × V))
      → find k m ≡ some x
      → (y : V) × (find k ((j, w) ∷ m) ≡ some y)
  unfolding find
  find-cons_some k j w x m e = elim (Bool-cases (o.beq j k)) [
    | inl same ↦ (w, rw same)
    | inr other ↦ (x, rw other e)
  ]

  find-cons_self : (k : K) (v : V) (m : List (K × V)) → find k ((k, v) ∷ m) ≡ some v
  unfolding find
  find-cons_self k v m = ground (arith, o.beq_iff k k)

  -- The keys that an iteration visits are those that are found.
  pub keys-found : (m : List (K × V)) → All (λ k. (v : V) × (find k m ≡ some v)) (map (λ p. p.0) m)
  keys-found [] = tt
  keys-found ((j, w) ∷ m) = (
    (w, find-cons_self j w m),
    All-mono _ _ _ (λ k h. find-cons_some k j w h.0 m h.1) (keys-found m),
  )

  pub find-assign :
      (k j : K) (v : V) (m : List (K × V))
      → find j (assign k v m) ≡ (if o.beq k j then some v else find j m)
  unfolding assign
  find-assign k j v m = elim (Option-cases (find k m)) [
    | inl e ↦ rw (e, assign) (find-insert k j v m e)
    | inr (w, e) ↦ rw (e, assign) (find-set k j v m ∙ rw e)
  ]

  pub find-emplace_cases :
      (k j : K) (v x : V) (m : List (K × V))
      → find j (emplace k v m).0 ≡ some x
      → ((k ≡ j) × (x ≡ v)) ⊎ (find j m ≡ some x)
  find-emplace_cases k j v x m e = elim (Option-cases (find k m)) [
    | inl free ↦
        find-insert_cases k j v x m free
          (ap (λ (r : List (K × V) × Bool). find j r.0) (sym (emplace-eq_none k v m free)) ∙ e)
    | inr (w, there) ↦
        inr (ap (λ (r : List (K × V) × Bool). find j r.0) (sym (emplace-eq_some k v w m there)) ∙ e)
  ]
