-- ===== src/Resolve/Load.antt =====
-- How the reading of the configuration ends: with a value, with a null pointer (an error that is
-- logged, or an exception that is caught), or as any call may (Base/Outcome).
pub mod Reads
use cpmd.Base.{Bool, Option, none, some}
use cpmd.Base.Outcome.{Outcome, ok, aborted, invalid, beyond, assert}

abbrev pub Load {ℓ} : Type ℓ → Type ℓ
Load A = Outcome (Option A)

infixl 5 ◌>>=◌ ◌>>◌
abbrev pub ◌>>=◌ {ℓ κ} : {A : Type ℓ} {B : Type κ} → Load A → (A → Load B) → Load B
ok none >>= f = ok none
ok (some a) >>= f = f a
aborted >>= f = aborted
invalid >>= f = invalid
beyond >>= f = beyond

abbrev pub ◌>>◌ {ℓ} : {B : Type ℓ} → Load (Unit {0}) → Load B → Load B
first >> next = first >>= λ _. next

abbrev pub loaded {ℓ} : {A : Type ℓ} → A → Load A
loaded a = ok (some a)

-- `return nullptr`
abbrev pub refused {ℓ} : {A : Type ℓ} → Load A
refused = ok none

-- A call that may throw.
abbrev pub thrown {ℓ} : {A : Type ℓ} → Option A → Load A
thrown o = ok o

abbrev pub lift {ℓ} : {A : Type ℓ} → Outcome A → Load A
lift (ok a) = ok (some a)
lift aborted = aborted
lift invalid = invalid
lift beyond = beyond

abbrev pub asserted : Bool → Load (Unit {0})
asserted b = lift (assert b)
