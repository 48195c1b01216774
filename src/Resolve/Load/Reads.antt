-- ===== src/Resolve/Load/Reads.antt =====
-- Rules for the reading of the configuration (cpm/cpm_resolve_server_conf.cc) that no assert stops.
use cpmd.Base.{◌≡◌, refl, Bool, true, false, Option, none, some, if◌then◌else◌}
use cpmd.Base.Outcome.{ok, aborted, invalid, beyond}
use cpmd.Resolve.Load.{Load, thrown, ◌>>=◌}

-- A reading that no assert stops: it gives nothing, or a value with a property.
abbrev pub Reads {ℓ} : {A : Type ℓ} → (A → Type 0) → Load A → Type 0
Reads P (ok none) = Unit
Reads P (ok (some a)) = P a
Reads P aborted = ⊥
Reads P invalid = ⊥
Reads P beyond = ⊥

pub Reads->>= {ℓ κ} :
    {A : Type ℓ} {B : Type κ} (P : A → Type 0) (Q : B → Type 0) (m : Load A) (f : A → Load B)
    → Reads P m
    → ((a : A) → P a → Reads Q (f a))
    → Reads Q (m >>= f)
Reads->>= P Q (ok none) f h k = tt
Reads->>= P Q (ok (some a)) f h k = k a h
Reads->>= P Q aborted f h k = absurd h
Reads->>= P Q invalid f h k = absurd h
Reads->>= P Q beyond f h k = absurd h

-- Behind a call that may throw.
pub Reads-thrown {ℓ κ} :
    {A : Type ℓ} {B : Type κ} (Q : B → Type 0) (o : Option A) (f : A → Load B)
    → ((a : A) → Reads Q (f a))
    → Reads Q (thrown o >>= f)
Reads-thrown Q none f k = tt
Reads-thrown Q (some a) f k = k a

pub Reads-if {ℓ} :
    {A : Type ℓ} (P : A → Type 0) (b : Bool) (x y : Load A)
    → (b ≡ true → Reads P x)
    → (b ≡ false → Reads P y)
    → Reads P (if b then x else y)
Reads-if P true x y h k = h refl
Reads-if P false x y h k = k refl

pub Reads-mono {ℓ} :
    {A : Type ℓ} (P Q : A → Type 0) (m : Load A) → ((a : A) → P a → Q a) → Reads P m → Reads Q m
Reads-mono P Q (ok none) f h = tt
Reads-mono P Q (ok (some a)) f h = f a h
Reads-mono P Q aborted f h = absurd h
Reads-mono P Q invalid f h = absurd h
Reads-mono P Q beyond f h = absurd h

pub Reads-up :
    {A : Type 0} (P : A → Type 0) (b : Bool) (a : A)
    → P a
    → Reads P (ok (if b then some a else none))
Reads-up P true a h = h
Reads-up P false a h = tt
