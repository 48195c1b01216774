-- ===== src/Tests/Addresses.antt =====
-- Concrete names, with the hashes that MurmurHash3 gives them, and the theorems on names at them.
use cpmd.Base.{[], ◌∷◌, ◌≡◌, refl, arith}
use cpmd.Base.Outcome.{ok}
use cpmd.Address.Hash.{hash}
use cpmd.Address.Create.{Name, client, print, IsName, meaning, create-print}
use cpmd.Address.{
  slash, has_slash, back, ends_with_slash, rfind, after_slash, is_empty, get_node_address, create,
}

hash_abcde : hash (b'a' ∷ b'b' ∷ b'c' ∷ b'd' ∷ b'e' ∷ []) ≡ 1742503088
unfolding hash
hash_abcde = refl

create_client :
    create (b'a' ∷ slash ∷ b'c' ∷ b'd' ∷ b'e' ∷ [])
    ≡ ok (record { node_addr = 3602372301; client_addr = 1353069143 })
unfolding create has_slash back ends_with_slash rfind after_slash is_empty get_node_address hash
create_client = refl

-- "a/b": client "b" of the node "a/".
abbrev a_b : Name
a_b = client (b'a' ∷ []) b'b' []

a_b-IsName : IsName a_b
a_b-IsName = ground arith

create-print_example : create (print a_b) ≡ ok (meaning a_b)
create-print_example = create-print a_b a_b-IsName
