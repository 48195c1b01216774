-- ===== src/Message/Layout.antt =====
-- The layout of a message in memory (cpm/cpm_message.h), written and read.
use cpmd.Base.{
  ℕ, suc, ◌+◌, ◌*◌, ◌/◌, ◌%◌, ◌^◌, ◌≤◌, ◌<◌, ◌≡◌, refl, sym, ap, ◌∙◌, List, [], ◌∷◌, ◌++◌, length,
  take, arith, take-append, length-append, length-take, length-drop, drop, drop-append_le,
  append_assoc,
}
use cpmd.Address.{Address}
use cpmd.Message.{
  Message, max_data_size, min_size, size, data_slice, word_bytes, word, header, serialize,
  message_at, check,
}

abbrev pub IsWord : ℕ → Type 0
IsWord w = w < 2 ^ 32

abbrev pub IsAddress : Address → Type 0
IsAddress a = IsWord a.node_addr × IsWord a.client_addr

-- An object of the class whose length lies within its array.
pub record IsValid (m : Message) : Type 0 where
  pub from_words : IsAddress m.from
  pub to_words : IsAddress m.to
  pub magic_word : IsWord m.magic
  pub len_fits : m.len ≤ max_data_size
  pub has_data : m.len ≤ length m.data_

pub word-eq :
    (w : ℕ)
    → IsWord w
    → w % 256 + w / 256 % 256 * 256 + w / 65536 % 256 * 65536 + w / 16777216 % 256 * 16777216 ≡ w
word-eq w h = omega arith

length-data_slice : (m : Message) → IsValid m → length (data_slice m) ≡ m.len
unfolding data_slice
length-data_slice m v = length-take m.len m.data_ v.has_data

pub size-eq : (m : Message) → IsValid m → size m ≡ min_size + m.len
unfolding size
size-eq m v = omega arith

length-header : (m : Message) → length (header m) ≡ min_size
unfolding header word_bytes
length-header m = refl

pub take-past : (xs ys : List ℕ) (n : ℕ) → take (length xs + n) (xs ++ ys) ≡ xs ++ take n ys
take-past [] ys n = ap (λ (k : ℕ). take k ys) (omega arith)
take-past (x ∷ xs) ys n = take_suc (length xs + n) (omega arith) ∙ ap (◌∷◌ x) (take-past xs ys n)
  where
    take_suc : (k : ℕ) {j : ℕ} → j ≡ suc k → take j (x ∷ (xs ++ ys)) ≡ x ∷ take k (xs ++ ys)
    take_suc k e = rw e

pub serialize-eq : (m : Message) → IsValid m → serialize m ≡ header m ++ data_slice m
unfolding serialize data_slice
serialize-eq m v =
    ap (λ (k : ℕ). take k (header m ++ m.data_)) (omega (arith, size-eq m v, length-header m))
    ∙ take-past (header m) m.data_ m.len

pub length-serialize : (m : Message) → IsValid m → length (serialize m) ≡ min_size + m.len
length-serialize m v =
    ap length (serialize-eq m v)
    ∙ omega (arith, length-append (header m) (data_slice m), length-header m, length-data_slice m v)

-- The object that lies where a message was written, whatever follows it.
pub message_at-header :
    (m : Message) (rest : List ℕ)
    → IsValid m
    → message_at (header m ++ rest) ≡ record m { data_ = rest }
unfolding message_at header word_bytes word
message_at-header m rest v = λ i. record {
  from = record {
    node_addr = word-eq m.from.node_addr v.from_words.0 i;
    client_addr = word-eq m.from.client_addr v.from_words.1 i;
  };
  to = record {
    node_addr = word-eq m.to.node_addr v.to_words.0 i;
    client_addr = word-eq m.to.client_addr v.to_words.1 i;
  };
  magic = word-eq m.magic v.magic_word i;
  len = word-eq m.len (omega arith) i;
  data_ = rest;
}

-- The data of a valid message comes back whole.
pub message_at-serialize :
    (m : Message) (rest : List ℕ)
    → IsValid m
    → message_at (serialize m ++ rest) ≡ record m { data_ = data_slice m ++ rest }
message_at-serialize m rest v =
    rw (serialize-eq m v, append_assoc) (message_at-header m (data_slice m ++ rest) v)

-- What a reader finds in the header of a valid message.
pub size-message_at-serialize :
    (m : Message) (rest : List ℕ)
    → IsValid m
    → size (message_at (serialize m ++ rest)) ≡ min_size + m.len
unfolding size
size-message_at-serialize m rest v = rw (message_at-serialize m rest v) (size-eq m v)

received-IsValid :
    (m : Message) (rest : List ℕ) → IsValid m → IsValid (record m { data_ = data_slice m ++ rest })
received-IsValid m rest v = record {
  from_words = v.from_words;
  to_words = v.to_words;
  magic_word = v.magic_word;
  len_fits = v.len_fits;
  has_data = omega (arith, length-append (data_slice m) rest, length-data_slice m v);
}

received-data_slice :
    (m : Message) (rest : List ℕ)
    → IsValid m
    → data_slice (record m { data_ = data_slice m ++ rest }) ≡ data_slice m
unfolding data_slice
received-data_slice m rest v =
    take-append (take m.len m.data_) rest m.len (length-take m.len m.data_ v.has_data)

-- A valid message that was written and is read in place, whatever bytes follow, has the same bytes
-- when it is written again.
pub serialize-message_at :
    (m : Message) (rest : List ℕ)
    → IsValid m
    → serialize (message_at (serialize m ++ rest)) ≡ serialize m
unfolding header
serialize-message_at m rest v =
    ap serialize (message_at-serialize m rest v)
    ∙ serialize-eq (record m { data_ = data_slice m ++ rest }) (received-IsValid m rest v)
    ∙ ap (λ (d : List ℕ). header m ++ d) (received-data_slice m rest v)
    ∙ sym (serialize-eq m v)

-- A header is read from its own bytes alone.
word-append : (xs ys : List ℕ) → 4 ≤ length xs → word (xs ++ ys) ≡ word xs
unfolding word
word-append [] ys h = absurd (omega arith)
word-append (a ∷ []) ys h = absurd (omega arith)
word-append (a ∷ b ∷ []) ys h = absurd (omega arith)
word-append (a ∷ b ∷ c ∷ []) ys h = absurd (omega arith)
word-append (a ∷ b ∷ c ∷ d ∷ xs) ys h = refl

word-drop-append :
    (n : ℕ) (xs ys : List ℕ) → n + 4 ≤ length xs → word (drop n (xs ++ ys)) ≡ word (drop n xs)
word-drop-append n xs ys h =
    ap word (drop-append_le n xs ys (omega arith))
    ∙ word-append (drop n xs) ys (omega (arith, length-drop n xs))

pub check-message_at-append :
    (xs ys : List ℕ) → min_size ≤ length xs → check (message_at (xs ++ ys)) ≡ check (message_at xs)
unfolding check message_at
check-message_at-append xs ys h = rw (word-drop-append 16 xs ys (omega arith))

pub size-message_at-append :
    (xs ys : List ℕ) → min_size ≤ length xs → size (message_at (xs ++ ys)) ≡ size (message_at xs)
unfolding size message_at
size-message_at-append xs ys h = rw (word-drop-append 20 xs ys (omega arith))
