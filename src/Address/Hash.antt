-- ===== src/Address/Hash.antt =====
-- Address::Hash (cpm/cpm_address.cc): MurmurHash3 over the bytes of a name, on 32-bit words, with
-- the blocks read in the machine's order, lowest byte first.
use cpmd.Base.{ℕ, ◌+◌, ◌*◌, ◌/◌, ◌%◌, ◌^◌, ◌<◌, bit_or, bit_xor, List, [], ◌∷◌, length, arith}
use cpmd.Base.Bits.{bit_xor-lt}

abbrev u32 : ℕ → ℕ
u32 n = n % 2 ^ 32

-- k *= c1; k = (k << r1) | (k >> (32 - r1)); k *= c2
unfoldable pub scramble : ℕ → ℕ
scramble k =
    let a = u32 (k * 0xcc9e2d51) in
    let b = bit_or (u32 (a * 2 ^ 15)) (a / 2 ^ 17) in u32 (b * 0x1b873593)

-- The body of the loop over the blocks.
unfoldable pub mix : ℕ → ℕ → ℕ
unfolding scramble
mix h block =
    let x = bit_xor h (scramble block) in
    u32 (bit_or (u32 (x * 2 ^ 13)) (x / 2 ^ 19) * 5 + 0xe6546b64)

-- The loop, then the switch over the tail, whose cases fall through.
unfoldable pub blocks : ℕ → List ℕ → ℕ
unfolding mix
blocks h [] = h
blocks h (a ∷ []) = bit_xor h (scramble a)
blocks h (a ∷ b ∷ []) = bit_xor h (scramble (bit_xor (b * 2 ^ 8) a))
blocks h (a ∷ b ∷ c ∷ []) = bit_xor h (scramble (bit_xor (bit_xor (c * 2 ^ 16) (b * 2 ^ 8)) a))
blocks h (a ∷ b ∷ c ∷ d ∷ rest) = blocks (mix h (a + b * 2 ^ 8 + c * 2 ^ 16 + d * 2 ^ 24)) rest

-- The steps after `hash ^= len`.
unfoldable pub finish : ℕ → ℕ
finish h =
    let a = u32 (bit_xor h (h / 2 ^ 16) * 0x85ebca6b) in
    let b = u32 (bit_xor a (a / 2 ^ 13) * 0xc2b2ae35) in bit_xor b (b / 2 ^ 16)

unfoldable pub hash : List ℕ → ℕ
unfolding blocks finish
hash s = finish (bit_xor (blocks 0xee6b27eb s) (u32 (length s)))

finish-lt : (h : ℕ) → finish h < 2 ^ 32
unfolding finish
finish-lt h = bit_xor-lt 32 _ _ (omega arith) (omega arith)

-- The hash of any name is a 32-bit number.
pub hash-lt : (s : List ℕ) → hash s < 2 ^ 32
unfolding hash
hash-lt s = finish-lt _
