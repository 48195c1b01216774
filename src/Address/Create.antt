-- ===== src/Address/Create.antt =====
-- What Address::Create (cpm/cpm_address.cc) makes of a readable name: the three forms of names, and
-- the address that each stands for.
use cpmd.Base.{
  ℕ, ◌+◌, ◌≡◌, refl, ◌≢◌, true, false, none, some, List, [], ◌∷◌, ◌++◌, ◌∙◌, take, drop, Bool-cases,
  inl, inr, All, arith, length, take-append, drop-append, length-append, append_assoc,
}
use cpmd.Base.Outcome.{ok}
use cpmd.Address.Hash.{hash}
use cpmd.Address.{
  Address, slash, is_empty, has_slash, back, ends_with_slash, rfind, after_slash, get_node_address,
  create,
}

-- "name", "path/" and "path/name"; a path may hold slashes.
pub data Name : Type 0 where
  local : List ℕ → Name
  node : List ℕ → Name
  client : List ℕ → ℕ → List ℕ → Name

abbrev pub print : Name → List ℕ
print (local s) = s
print (node p) = p ++ (slash ∷ [])
print (client p c cs) = p ++ (slash ∷ c ∷ cs)

-- Only the path of a name holds slashes.
abbrev pub IsName : Name → Type 0
IsName (local s) = All (λ c. c ≢ slash) s
IsName (node p) = Unit
IsName (client p c cs) = All (λ c. c ≢ slash) (c ∷ cs)

-- A client's node part is the address of its node's own name, "path/".
abbrev pub meaning : Name → Address
meaning (local s) = record { node_addr = 0; client_addr = hash s }
meaning (node p) = record { node_addr = hash (p ++ (slash ∷ [])); client_addr = 0 }
meaning (client p c cs) = record {
  node_addr = hash (p ++ (slash ∷ []));
  client_addr = hash (c ∷ cs);
}

has_slash_none : (s : List ℕ) → All (λ c. c ≢ slash) s → has_slash s ≡ false
unfolding has_slash
has_slash_none [] h = refl
has_slash_none (x ∷ xs) h = ground (arith, has_slash_none xs h.1)

has_slash_some : (p s : List ℕ) → has_slash (p ++ (slash ∷ s)) ≡ true
unfolding has_slash
has_slash_some [] s = refl
has_slash_some (x ∷ p) s = ground (arith, has_slash_some p s)

rfind-none : (s : List ℕ) → All (λ c. c ≢ slash) s → rfind s ≡ none
unfolding rfind
rfind-none [] h = refl
rfind-none (x ∷ xs) h = ground (arith, rfind-none xs h.1)

rfind-some : (p s : List ℕ) → All (λ c. c ≢ slash) s → rfind (p ++ (slash ∷ s)) ≡ some (length p)
unfolding rfind
rfind-some [] s h = ground (arith, rfind-none s h)
rfind-some (x ∷ p) s h = ground (arith, rfind-some p s h)

back-append : (p : List ℕ) (c : ℕ) (s : List ℕ) → back (p ++ (c ∷ s)) ≡ back (c ∷ s)
unfolding back
back-append [] c s = refl
back-append (x ∷ p) c s = ground (arith, back-append p c s)

ends_none :
    (s : List ℕ) (c : ℕ) → c ≢ slash → All (λ c. c ≢ slash) s → ends_with_slash (c ∷ s) ≡ false
unfolding ends_with_slash back
ends_none [] c h hs = ground arith
ends_none (x ∷ s) c h hs = ground (arith, ends_none s x hs.0 hs.1)

ends-append :
    (p : List ℕ) (c : ℕ) (s : List ℕ) → ends_with_slash (p ++ (c ∷ s)) ≡ ends_with_slash (c ∷ s)
unfolding ends_with_slash
ends-append p c s = ground (arith, back-append p c s)

is_empty-append : (p : List ℕ) (c : ℕ) (s : List ℕ) → is_empty (p ++ (c ∷ s)) ≡ false
unfolding is_empty
is_empty-append [] c s = refl
is_empty-append (x ∷ p) c s = refl

after_slash-append :
    (p s : List ℕ) → All (λ c. c ≢ slash) s → after_slash (p ++ (slash ∷ s)) ≡ length p + 1
unfolding after_slash
after_slash-append p s h = ground (arith, rfind-some p s h)

-- The split is behind the last slash.
get_node_address-append :
    (p s : List ℕ)
    → All (λ c. c ≢ slash) s
    → ends_with_slash (p ++ (slash ∷ s)) ≡ false
    → get_node_address (p ++ (slash ∷ s)) ≡ ok (p ++ (slash ∷ []), s)
unfolding get_node_address
get_node_address-append p s h e =
    rw (e, is_empty-append p slash s, after_slash-append p s h)
      (rw (← append_assoc p (slash ∷ []) s) (
        ground (
          arith,
          take-append (p ++ (slash ∷ [])) s (length p + 1) (length-append p (slash ∷ [])),
          drop-append (p ++ (slash ∷ [])) s (length p + 1) (length-append p (slash ∷ [])),
        )))

client-split :
    (p : List ℕ) (c : ℕ) (cs : List ℕ)
    → All (λ c. c ≢ slash) (c ∷ cs)
    → ends_with_slash (p ++ (slash ∷ c ∷ cs)) ≡ false
client-split p c cs h =
    ends-append p slash (c ∷ cs) ∙ ends-append (slash ∷ []) c cs ∙ ends_none cs c h.0 h.1

-- Create gives every name of the three forms (a local name without a slash, a node's path, a path
-- with a client's name) the address that it stands for: the hash of the path up to and with its
-- last slash, and the hash of what is behind it, each 0 where it has no such part.
pub create-print : (n : Name) → IsName n → create (print n) ≡ ok (meaning n)
unfolding create
create-print (local s) h = rw (has_slash_none s h)
create-print (node p) h =
    rw (has_slash_some p [], ends-append p slash []) (unfold ends_with_slash back in refl)
create-print (client p c cs) h = rw (
  has_slash_some p (c ∷ cs),
  client-split p c cs h,
  get_node_address-append p (c ∷ cs) h (client-split p c cs h),
)

is_empty-of-slash : (s : List ℕ) → has_slash s ≡ true → is_empty s ≡ false
unfolding is_empty has_slash
is_empty-of-slash [] h = cc
is_empty-of-slash (x ∷ s) h = refl

-- Create makes an address of every name: no assert of it fails.
pub create-total : (s : List ℕ) → (a : Address) × (create s ≡ ok a)
unfolding create
create-total s = elim (Bool-cases (has_slash s)) [
  | inl slashed ↦ elim (Bool-cases (ends_with_slash s)) [
    | inl e ↦ (record { node_addr = hash s; client_addr = 0 }, rw (slashed, e))
    | inr e ↦ (
      record {
        node_addr = hash (take (after_slash s) s);
        client_addr = hash (drop (after_slash s) s);
      },
      unfold get_node_address in rw (slashed, e, is_empty-of-slash s slashed),
    )
  ]
  | inr h ↦ (record { node_addr = 0; client_addr = hash s }, rw h)
]
