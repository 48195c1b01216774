-- ===== src/Base/Bytes.antt =====
-- std::string as a key: strings in the order of their bytes.
use Prim.Native.Nat.{ℕ}
use mathlib.Core.Path.{◌≡◌}
use mathlib.Core.Logic.{◌↔◌}
use mathlib.Core.Bool.{Bool, true, false, ◌&&◌, ◌||◌}
use mathlib.Core.List.{List, [], ◌∷◌}
use native.Mathlib.Omega.{arith}
use cpmd.Base.Tests.{ltb, ◌==◌, ==_iff}
use cpmd.Base.Map.{Key}

abbrev pub same : List ℕ → List ℕ → Bool
same [] [] = true
same [] (y ∷ ys) = false
same (x ∷ xs) [] = false
same (x ∷ xs) (y ∷ ys) = let rest = same xs ys in x == y && rest

abbrev pub before : List ℕ → List ℕ → Bool
before xs [] = false
before [] (y ∷ ys) = true
before (x ∷ xs) (y ∷ ys) = let rest = before xs ys in ltb x y || (x == y && rest)

pub same_iff : (xs ys : List ℕ) → (same xs ys ≡ true) ↔ (xs ≡ ys)
same_iff [] [] = ground arith
same_iff [] (y ∷ ys) = ground arith
same_iff (x ∷ xs) [] = ground arith
same_iff (x ∷ xs) (y ∷ ys) = ground (arith, same_iff xs ys, ==_iff x y)

instance abbrev pub bytes_key : Key (List ℕ)
bytes_key = record { beq = same; less = before; beq_iff = same_iff }

-- std::pair of a string and an int.
abbrev pub same_pair : List ℕ × ℕ → List ℕ × ℕ → Bool
same_pair p q = same p.0 q.0 && p.1 == q.1

abbrev pub before_pair : List ℕ × ℕ → List ℕ × ℕ → Bool
before_pair p q = before p.0 q.0 || (same p.0 q.0 && ltb p.1 q.1)

pub same_pair_iff : (p q : List ℕ × ℕ) → (same_pair p q ≡ true) ↔ (p ≡ q)
same_pair_iff (s, i) (t, j) = ground (arith, same_iff s t, ==_iff i j)

instance abbrev pub pair_key : Key (List ℕ × ℕ)
pair_key = record { beq = same_pair; less = before_pair; beq_iff = same_pair_iff }
