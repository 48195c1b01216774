-- ===== src/Chat/Strings.antt =====
-- The strings of a chat message (examples/chatroom/chat_protocol.cc), written and read.
use cpmd.Base.{
  ℕ, zero, suc, ◌+◌, ◌-◌, ◌^◌, ◌≤◌, ◌<◌, ◌≡◌, refl, ap, ◌∙◌, List, [], ◌∷◌, ◌++◌, length, take,
  drop, replicate, append_assoc, drop-append, drop-add, length-append, length-take,
  length-replicate, arith,
}
use cpmd.Protocol.{half_bytes, half, c_string, strncpy}
use cpmd.Protocol.Layout.{half-eq}
use cpmd.Protocol.Fields.{IsText, zeros, c_string-IsText}
use cpmd.Chat.{
  max_name_size, max_words_size, builder, array_of, set_type, set_name, set_to_name, set_words,
  chat_bytes, heard_at,
}

-- A string of no zeros is cut, or filled up.
c_string-padded :
    (t rest : List ℕ) (k j : ℕ)
    → IsText t
    → k ≤ length t + j
    → c_string (take k (t ++ zeros j) ++ (0 ∷ rest)) ≡ take k t
unfolding c_string replicate
c_string-padded t rest zero j h le = refl
c_string-padded [] rest (suc k) zero h le = absurd (omega arith)
c_string-padded [] rest (suc k) (suc j) h le = refl
c_string-padded (x ∷ t) rest (suc k) j h le =
    ground (arith, h.0, c_string-padded t rest k j h.1 (omega arith))

c_string-array_of :
    (s rest : List ℕ) (n : ℕ) → c_string (array_of n s ++ rest) ≡ take (n - 1) (c_string s)
unfolding array_of strncpy
c_string-array_of s rest n =
    ap c_string (append_assoc (strncpy s (n - 1)) (0 ∷ []) rest)
    ∙ c_string-padded (c_string s) rest (n - 1) (n - 1) (c_string-IsText s) (omega arith)

pub length-array_of : (n : ℕ) (s : List ℕ) → 0 < n → length (array_of n s) ≡ n
unfolding array_of strncpy
length-array_of n s h =
    let long : n - 1 ≤ length (c_string s ++ zeros (n - 1)) =
      omega
        (arith, length-append (c_string s) (zeros (n - 1)), length-replicate {A = ℕ} (n - 1) 0) in
    length-append (strncpy s (n - 1)) (0 ∷ [])
    ∙ omega (arith, length-take (n - 1) (c_string s ++ zeros (n - 1)) long)

module _ (kind : ℕ) (name to_name words rest : List ℕ) (fits : kind < 2 ^ 16) where
  abbrev a : List ℕ
  a = array_of max_name_size name

  abbrev b : List ℕ
  b = array_of max_name_size to_name

  abbrev c : List ℕ
  c = array_of max_words_size words

  abbrev written : List ℕ
  written =
      chat_bytes (set_words words (set_to_name to_name (set_name name (set_type kind builder))))
      ++ rest

  written-eq : written ≡ half_bytes kind ++ (a ++ (b ++ (c ++ rest)))
  unfolding chat_bytes set_words set_to_name set_name set_type half_bytes
  written-eq =
      ap (λ (t : List ℕ). half_bytes kind ++ t)
        (append_assoc a (b ++ c) rest ∙ ap (λ (t : List ℕ). a ++ t) (append_assoc b c rest))

  second : drop 16 (a ++ (b ++ (c ++ rest))) ≡ b ++ (c ++ rest)
  second = drop-append a (b ++ (c ++ rest)) 16 (length-array_of 16 name (omega arith))

  third : drop 32 (a ++ (b ++ (c ++ rest))) ≡ c ++ rest
  third =
      drop-add 16 16 (a ++ (b ++ (c ++ rest)))
      ∙ ap (drop 16) second
      ∙ drop-append b (c ++ rest) 16 (length-array_of 16 to_name (omega arith))

  heard : heard_at (half_bytes kind ++ (a ++ (b ++ (c ++ rest)))) ≡ record {
    kind = kind;
    member = take 15 (c_string name);
    to_member = take 15 (c_string to_name);
    said = take 63 (c_string words);
  }
  unfolding heard_at half half_bytes
  heard = λ i. record {
    kind = half-eq kind fits i;
    member = c_string-array_of name (b ++ (c ++ rest)) 16 i;
    to_member = (ap c_string second ∙ c_string-array_of to_name (c ++ rest) 16) i;
    said = (ap c_string third ∙ c_string-array_of words rest 64) i;
  }

  -- What the chat room reads in the bytes of a message that the builder made, whatever follows
  -- them: its 16-bit type, the name and the other member's name up to their first zeros and cut to
  -- 15 bytes, and the words up to their first zero and cut to 63.
  pub heard_at-chat_bytes :
      heard_at (
        chat_bytes (set_words words (set_to_name to_name (set_name name (set_type kind builder))))
        ++ rest)
      ≡ record {
        kind = kind;
        member = take 15 (c_string name);
        to_member = take 15 (c_string to_name);
        said = take 63 (c_string words);
      }
  heard_at-chat_bytes = ap heard_at written-eq ∙ heard
