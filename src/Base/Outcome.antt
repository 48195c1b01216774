-- ===== src/Base/Outcome.antt =====
-- What a call of C++ code comes to: a value, a failed assert, an access that has no meaning
-- (through a null pointer or an end iterator, or an overflow), or a read that goes on behind the
-- last of the bytes that are there.
use mathlib.Core.Path.{◌≡◌, refl}
use mathlib.Core.Bool.{Bool, true, false}
use mathlib.Core.Option.{Option, none, some}
use cpmd.Base.Tests.{if◌then◌else◌}

pub data Outcome {ℓ} (A : Type ℓ) : Type ℓ where
  ok : A → Outcome A
  aborted : Outcome A
  invalid : Outcome A
  beyond : Outcome A

infixl 5 ◌>>=◌ ◌>>◌
abbrev pub ◌>>=◌ {ℓ κ} : {A : Type ℓ} {B : Type κ} → Outcome A → (A → Outcome B) → Outcome B
ok a >>= f = f a
aborted >>= f = aborted
invalid >>= f = invalid
beyond >>= f = beyond

abbrev pub ◌>>◌ {ℓ} : {B : Type ℓ} → Outcome (Unit {0}) → Outcome B → Outcome B
action >> next = action >>= λ _. next

-- `assert (b)` in a build without NDEBUG.
abbrev pub assert : Bool → Outcome (Unit {0})
assert true = ok tt
assert false = aborted

-- Asserts that a pointer is set, and reads it.
abbrev pub assert_some {ℓ} : {A : Type ℓ} → Option A → Outcome A
assert_some none = aborted
assert_some (some a) = ok a

-- Reads through a pointer or an iterator that nothing has checked.
abbrev pub deref {ℓ} : {A : Type ℓ} → Option A → Outcome A
deref none = invalid
deref (some a) = ok a

-- Goes on where what is read lies within the bytes.
abbrev pub within : Bool → Outcome (Unit {0})
within true = ok tt
within false = beyond

-- Where a call may stop at an assert or read behind the bytes that are there, but makes no invalid
-- access, and its result has a property.
abbrev pub Safe {ℓ} : {A : Type ℓ} → (A → Type 0) → Outcome A → Type 0
Safe P (ok a) = P a
Safe P aborted = Unit
Safe P invalid = ⊥
Safe P beyond = Unit

pub Safe->>= {ℓ κ} :
    {A : Type ℓ} {B : Type κ} (P : A → Type 0) (Q : B → Type 0) (m : Outcome A) (f : A → Outcome B)
    → Safe P m
    → ((a : A) → P a → Safe Q (f a))
    → Safe Q (m >>= f)
Safe->>= P Q (ok a) f h k = k a h
Safe->>= P Q aborted f h k = tt
Safe->>= P Q invalid f h k = absurd h
Safe->>= P Q beyond f h k = tt

pub Safe-assert {ℓ} :
    {B : Type ℓ} (Q : B → Type 0) (b : Bool) (m : Outcome B)
    → (b ≡ true → Safe Q m)
    → Safe Q (assert b >> m)
Safe-assert Q true m h = h refl
Safe-assert Q false m h = tt

pub Safe-within {ℓ} :
    {B : Type ℓ} (Q : B → Type 0) (b : Bool) (m : Outcome B)
    → (b ≡ true → Safe Q m)
    → Safe Q (within b >> m)
Safe-within Q true m h = h refl
Safe-within Q false m h = tt

pub Safe-assert_some {ℓ κ} :
    {A : Type ℓ} {B : Type κ} (Q : B → Type 0) (o : Option A) (f : A → Outcome B)
    → ((a : A) → o ≡ some a → Safe Q (f a))
    → Safe Q (assert_some o >>= f)
Safe-assert_some Q none f h = tt
Safe-assert_some Q (some a) f h = h a refl

pub Safe-deref {ℓ κ} :
    {A : Type ℓ} {B : Type κ} (Q : B → Type 0) (o : Option A) (f : A → Outcome B) (a : A)
    → o ≡ some a
    → Safe Q (f a)
    → Safe Q (deref o >>= f)
Safe-deref Q o f a e h = rw e h

pub Safe-mono {ℓ} :
    {A : Type ℓ} (P Q : A → Type 0) (m : Outcome A) → ((a : A) → P a → Q a) → Safe P m → Safe Q m
Safe-mono P Q (ok a) f h = f a h
Safe-mono P Q aborted f h = tt
Safe-mono P Q invalid f h = absurd h
Safe-mono P Q beyond f h = tt

-- Where a call returns, its result has a property.
abbrev pub Ensures {ℓ} : {A : Type ℓ} → (A → Type 0) → Outcome A → Type 0
Ensures P (ok a) = P a
Ensures P aborted = Unit
Ensures P invalid = Unit
Ensures P beyond = Unit

pub Ensures->>= {ℓ κ} :
    {A : Type ℓ} {B : Type κ} (P : A → Type 0) (Q : B → Type 0) (m : Outcome A) (f : A → Outcome B)
    → Ensures P m
    → ((a : A) → P a → Ensures Q (f a))
    → Ensures Q (m >>= f)
Ensures->>= P Q (ok a) f h k = k a h
Ensures->>= P Q aborted f h k = tt
Ensures->>= P Q invalid f h k = tt
Ensures->>= P Q beyond f h k = tt

pub Ensures-any {ℓ κ} :
    {A : Type ℓ} {B : Type κ} (Q : B → Type 0) (m : Outcome A) (f : A → Outcome B)
    → ((a : A) → Ensures Q (f a))
    → Ensures Q (m >>= f)
Ensures-any Q (ok a) f k = k a
Ensures-any Q aborted f k = tt
Ensures-any Q invalid f k = tt
Ensures-any Q beyond f k = tt

pub Ensures-if {ℓ} :
    {A : Type ℓ} (P : A → Type 0) (b : Bool) (x y : Outcome A)
    → Ensures P x
    → Ensures P y
    → Ensures P (if b then x else y)
Ensures-if P true x y h k = h
Ensures-if P false x y h k = k

pub Ensures-mono {ℓ} :
    {A : Type ℓ} (P Q : A → Type 0) (m : Outcome A)
    → ((a : A) → P a → Q a)
    → Ensures P m
    → Ensures Q m
Ensures-mono P Q (ok a) f h = f a h
Ensures-mono P Q aborted f h = tt
Ensures-mono P Q invalid f h = tt
Ensures-mono P Q beyond f h = tt

-- A call returns, and its result has a property.
abbrev pub Returns {ℓ} : {A : Type ℓ} → (A → Type 0) → Outcome A → Type 0
Returns P (ok a) = P a
Returns P aborted = ⊥
Returns P invalid = ⊥
Returns P beyond = ⊥

pub Returns->>= {ℓ κ} :
    {A : Type ℓ} {B : Type κ} (P : A → Type 0) (Q : B → Type 0) (m : Outcome A) (f : A → Outcome B)
    → Returns P m
    → ((a : A) → P a → Returns Q (f a))
    → Returns Q (m >>= f)
Returns->>= P Q (ok a) f h k = k a h
Returns->>= P Q aborted f h k = absurd h
Returns->>= P Q invalid f h k = absurd h
Returns->>= P Q beyond f h k = absurd h

pub Returns-assert {ℓ} :
    {B : Type ℓ} (Q : B → Type 0) (b : Bool) (m : Outcome B)
    → b ≡ true
    → Returns Q m
    → Returns Q (assert b >> m)
Returns-assert Q true m e h = h
Returns-assert Q false m e h = cc

-- A call returns, and its result has a property; or it reads behind the bytes that are there, and
-- then something else is the case.
abbrev pub ReturnsUnless {ℓ} : {A : Type ℓ} → Type 0 → (A → Type 0) → Outcome A → Type 0
ReturnsUnless U P (ok a) = P a
ReturnsUnless U P aborted = ⊥
ReturnsUnless U P invalid = ⊥
ReturnsUnless U P beyond = U

pub ReturnsUnless->>= {ℓ κ} :
    {A : Type ℓ} {B : Type κ} (U : Type 0) (P : A → Type 0) (Q : B → Type 0) (m : Outcome A)
    (f : A → Outcome B)
    → ReturnsUnless U P m
    → ((a : A) → P a → ReturnsUnless U Q (f a))
    → ReturnsUnless U Q (m >>= f)
ReturnsUnless->>= U P Q (ok a) f h k = k a h
ReturnsUnless->>= U P Q aborted f h k = absurd h
ReturnsUnless->>= U P Q invalid f h k = absurd h
ReturnsUnless->>= U P Q beyond f h k = h

pub ReturnsUnless-Returns {ℓ} :
    {A : Type ℓ} (U : Type 0) (P : A → Type 0) (m : Outcome A) → Returns P m → ReturnsUnless U P m
ReturnsUnless-Returns U P (ok a) h = h
ReturnsUnless-Returns U P aborted h = absurd h
ReturnsUnless-Returns U P invalid h = absurd h
ReturnsUnless-Returns U P beyond h = absurd h
