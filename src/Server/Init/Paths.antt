-- ===== src/Server/Init/Paths.antt =====
-- The paths of a client's two buses (Server::GetBusPath in cpm/cpm_server.cc).
use cpmd.Base.{
  ℕ, zero, suc, ◌+◌, ◌≤◌, ◌<◌, ◌≡◌, ◌≢◌, refl, sym, ap, ◌∙◌, List, [], ◌∷◌, ◌++◌, length,
  length-append, take, append_assoc, arith,
}
use cpmd.Address.{slash}
use cpmd.Protocol.{c_string}
use cpmd.Server.Init.{
  input_suffix, output_suffix, get_bus_path, get_input_bus_path, get_output_bus_path,
}

-- What two lists have in common decides what their beginnings have in common.
take-common : (n : ℕ) (xs ys zs : List ℕ) → n ≤ length xs → take n (xs ++ ys) ≡ take n (xs ++ zs)
take-common zero xs ys zs h = refl
take-common (suc n) [] ys zs h = absurd (omega arith)
take-common (suc n) (x ∷ xs) ys zs h = ap (◌∷◌ x) (take-common n xs ys zs (omega arith))

take-differs :
    (n : ℕ) (xs ys zs : List ℕ) (c a b : ℕ)
    → a ≢ b
    → length xs + 2 ≤ n
    → take n (xs ++ (c ∷ a ∷ ys)) ≢ take n (xs ++ (c ∷ b ∷ zs))
take-differs zero xs ys zs c a b d h e = absurd (omega arith)
take-differs (suc zero) xs ys zs c a b d h e = absurd (omega arith)
take-differs (suc (suc n)) [] ys zs c a b d h e = d (cc e)
take-differs (suc (suc n)) (x ∷ xs) ys zs c a b d h e =
    take-differs (suc n) xs ys zs c a b d (omega arith) (cc e)

-- The suffixes behind the underscore that they share.
abbrev input_rest : List ℕ
input_rest = b'i' ∷ b'n' ∷ b'p' ∷ b'u' ∷ b't' ∷ b'.' ∷ b'b' ∷ b'u' ∷ b's' ∷ []

abbrev output_rest : List ℕ
output_rest = b'o' ∷ b'u' ∷ b't' ∷ b'p' ∷ b'u' ∷ b't' ∷ b'.' ∷ b'b' ∷ b'u' ∷ b's' ∷ []

module _ (location name : List ℕ) where
  abbrev stem : List ℕ
  stem = c_string location ++ (slash ∷ c_string name)

  length-stem : length stem ≡ length (c_string location) + (length (c_string name) + 1)
  length-stem = omega (arith, length-append (c_string location) (slash ∷ c_string name))

  path-eq : (suffix : List ℕ) → get_bus_path suffix location name ≡ take 127 (stem ++ suffix)
  unfolding get_bus_path
  path-eq suffix =
      ap (λ (xs : List ℕ). take 127 xs)
        (sym (append_assoc (c_string location) (slash ∷ c_string name) suffix))

  shared_start :
      (ys zs : List ℕ)
      → 126 ≤ length stem
      → take 127 (stem ++ (b'_' ∷ ys)) ≡ take 127 (stem ++ (b'_' ∷ zs))
  shared_start ys zs h =
      let long : 127 ≤ length (stem ++ (b'_' ∷ [])) =
        omega (arith, length-append stem (b'_' ∷ [])) in
      ap (λ (xs : List ℕ). take 127 xs) (sym (append_assoc stem (b'_' ∷ []) ys))
      ∙ take-common 127 (stem ++ (b'_' ∷ [])) ys zs long
      ∙ ap (λ (xs : List ℕ). take 127 xs) (append_assoc stem (b'_' ∷ []) zs)

  -- Where the bus location and the client's name together have 125 bytes or more, the paths of the
  -- client's two buses are the same; where they have fewer, the paths differ.
  pub get_input_bus_path-get_output_bus_path :
      ((125 ≤ length (c_string location) + length (c_string name))
        → get_input_bus_path location name ≡ get_output_bus_path location name)
      × ((length (c_string location) + length (c_string name) < 125)
          → get_input_bus_path location name ≢ get_output_bus_path location name)
  unfolding get_input_bus_path get_output_bus_path
  get_input_bus_path-get_output_bus_path = (
    λ h.
        path-eq input_suffix
        ∙ shared_start input_rest output_rest (omega (arith, length-stem))
        ∙ sym (path-eq output_suffix),
    λ h e.
        take-differs 127 stem _ _ b'_' b'i' b'o' (λ f. omega (arith, f))
          (omega (arith, length-stem)) (sym (path-eq input_suffix) ∙ e ∙ path-eq output_suffix),
  )
