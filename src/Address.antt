-- ===== src/Address.antt =====
-- cpm/cpm_address.h and cpm/cpm_address.cc: logical addresses, and their making from readable names.
-- A slice is the list of its bytes.
pub mod Hash
pub mod Create
use cpmd.Base.{
  ℕ, suc, ◌+◌, ◌≡◌, Bool, true, false, ◌&&◌, not, Option, none, some, List, [], ◌∷◌, take, drop,
  ◌==◌, if◌then◌else◌,
}
use cpmd.Base.Outcome.{Outcome, ok, assert, ◌>>=◌, ◌>>◌}
use Hash.{hash}

pub record Address : Type 0 where
  pub node_addr : ℕ
  pub client_addr : ℕ

-- kLocalNodeAddress
abbrev pub local_node_address : ℕ
local_node_address = 0

abbrev pub slash : ℕ
slash = b'/'

-- Address::Clear and Address::Default
unfoldable pub clear : Address → Address
clear a = record a { node_addr = 0; client_addr = 0 }

-- The default-constructed object that Clear overwrites: its fields have no values in C++.
unfoldable pub default : Address → Address
unfolding clear
default uninitialized = clear uninitialized

unfoldable pub create_directly : ℕ → ℕ → Address
create_directly node client = record { node_addr = node; client_addr = client }

-- operator== on addresses.
unfoldable pub eq : Address → Address → Bool
eq a b = a.node_addr == b.node_addr && a.client_addr == b.client_addr

unfoldable pub ne : Address → Address → Bool
unfolding eq
ne a b = not (eq a b)

-- Slice::find("/") != npos
unfoldable pub has_slash : List ℕ → Bool
has_slash [] = false
has_slash (x ∷ xs) = if x == slash then true else has_slash xs

-- std::string::back, where the string has a last character.
unfoldable pub back : List ℕ → Option ℕ
back [] = none
back (x ∷ xs) = elim (back xs) [ none ↦ some x | some y ↦ some y ]

unfoldable pub ends_with_slash : List ℕ → Bool
ends_with_slash s = elim (back s) [ none ↦ false | some c ↦ c == slash ]

-- std::string::rfind('/')
unfoldable pub rfind : List ℕ → Option ℕ
rfind [] = none
rfind (x ∷ xs) = elim (rfind xs) [
  | none ↦ if x == slash then some 0 else none
  | some i ↦ some (suc i)
]

unfoldable pub is_empty : List ℕ → Bool
is_empty [] = true
is_empty (x ∷ xs) = false

-- `pos + 1`, where npos + 1 wraps to 0.
unfoldable pub after_slash : List ℕ → ℕ
after_slash s = elim (rfind s) [ none ↦ 0 | some i ↦ i + 1 ]

-- The node's part, with its slash, and what is left of it for the client.
unfoldable pub get_node_address : List ℕ → Outcome (List ℕ × List ℕ)
get_node_address s = do
  assert (not (is_empty s))
  assert (not (is_empty s) && not (ends_with_slash s))
  ok (take (after_slash s) s, drop (after_slash s) s)

unfoldable pub create : List ℕ → Outcome Address
create s =
    if not (has_slash s)
    then ok (record { node_addr = 0; client_addr = hash s })
    else if ends_with_slash s
    then ok (record { node_addr = hash s; client_addr = 0 })
    else do
      (node, client) ← get_node_address s
      ok (record { node_addr = hash node; client_addr = hash client })
