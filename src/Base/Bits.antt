-- ===== src/Base/Bits.antt =====
-- Exclusive or on machine words.
use Prim.Native.Nat.{ℕ, zero, suc, ◌/◌, ◌%◌, ◌^◌, ◌<◌, bit_xor, digits, bit_xor-bitwise, differ}
use mathlib.Core.Path.{sym, subst}
use native.Mathlib.Nat.{pow-suc}
use native.Mathlib.Omega.{arith}

differ-lt : (n a b : ℕ) → a < n → b < n → differ a b < n
differ-lt n zero b p q = q
differ-lt n (suc a) zero p q = p
differ-lt n (suc a) (suc b) p q = differ-lt n a b (omega arith) (omega arith)

digits-lt : (n k a b : ℕ) → a < 2 ^ k → b < 2 ^ k → digits (λ b. b) differ n a b < 2 ^ k
digits-lt zero k a b p q = q
digits-lt (suc n) k zero b p q = q
digits-lt (suc n) zero (suc a) b p q = absurd (omega arith)
digits-lt (suc n) (suc k) (suc a) b p q = omega (
  arith,
  pow-suc 2 k,
  differ-lt 2 (suc a % 2) (b % 2) (omega arith) (omega arith),
  digits-lt n k (suc a / 2) (b / 2) (omega (arith, pow-suc 2 k)) (omega (arith, pow-suc 2 k)),
)

pub bit_xor-lt : (k a b : ℕ) → a < 2 ^ k → b < 2 ^ k → bit_xor a b < 2 ^ k
bit_xor-lt k a b p q = subst (λ n. n < 2 ^ k) (sym (bit_xor-bitwise a b)) (digits-lt a k a b p q)
