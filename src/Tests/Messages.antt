-- ===== src/Tests/Messages.antt =====
-- The theorems on messages and on MessageCodec::OnRead, at concrete messages.
use cpmd.Base.{
  ℕ, zero, suc, ◌+◌, ◌^◌, ◌<◌, Bool, not, ◌&&◌, ◌||◌, ltb, ◌≡◌, refl, true, false, some, List, [],
  ◌∷◌, ◌++◌, map, length, arith,
}
use mathlib.Core.List.{foldl}
use cpmd.Message.{Message, size, check, word, header, word_bytes, serialize, message_at}
use cpmd.Message.Layout.{IsValid}
use cpmd.Message.Codec.{consumed, running, on_read}
use cpmd.Message.Codec.Frames.{IsFrame, IsBeginning, wire, on_bytes, on_read-wire}
use cpmd.Message.Codec.Progress.{Ends, HasSizes, on_read-Ends, on_read-spins}
use cpmd.Tests.Net.{hello}

pub hello-IsValid : IsValid hello
hello-IsValid = omega arith

pub hello-IsFrame : IsFrame hello
hello-IsFrame = record { valid = hello-IsValid; magic = refl; short = omega arith }

-- The first half of the message's header.
abbrev pub begun : List ℕ
begun = 1 ∷ 0 ∷ 0 ∷ 0 ∷ 5 ∷ 0 ∷ 0 ∷ 0 ∷ 7 ∷ 0 ∷ 0 ∷ 0 ∷ []

abbrev unread : List ℕ
unread = 6 ∷ 0 ∷ 0 ∷ 0 ∷ 0x21 ∷ 0x43 ∷ 0x65 ∷ 0x87 ∷ 2 ∷ 0 ∷ 0 ∷ 0 ∷ b'h' ∷ b'i' ∷ []

pub begun-IsBeginning : IsBeginning begun
unfolding serialize header word_bytes size
begun-IsBeginning = record {
  of = hello;
  is_frame = hello-IsFrame;
  missing = unread;
  some_missing = λ e. cc;
  whole = refl;
}

abbrev pub keep : List (List ℕ) → List ℕ → List (List ℕ)
keep seen bytes = bytes ∷ seen

on_read-wire_example :
    on_read (on_bytes keep) 3 (wire (hello ∷ hello ∷ []) ++ begun) []
    ≡ consumed
        (length (wire (hello ∷ hello ∷ [])))
        (foldl keep [] (map serialize (hello ∷ hello ∷ [])))
on_read-wire_example =
    on_read-wire keep (hello ∷ hello ∷ []) begun 3 [] (hello-IsFrame, (hello-IsFrame, tt))
      begun-IsBeginning (omega arith)

-- A callback that counts.
abbrev keep_message : ℕ → Message → ℕ
keep_message n m = n + 1

-- A header of zeros: no magic number.
abbrev zeros : List ℕ
zeros =
    0 ∷ 0 ∷ 0 ∷ 0 ∷ 0 ∷ 0 ∷ 0 ∷ 0 ∷ 0 ∷ 0 ∷ 0 ∷ 0 ∷ 0 ∷ 0 ∷ 0 ∷ 0 ∷ 0 ∷ 0 ∷ 0 ∷ 0 ∷ 0 ∷ 0 ∷ 0 ∷ 0
    ∷ []

-- The length -24, in a header with the magic number.
abbrev spinning : List ℕ
spinning =
    0 ∷ 0 ∷ 0 ∷ 0 ∷ 0 ∷ 0 ∷ 0 ∷ 0 ∷ 0 ∷ 0 ∷ 0 ∷ 0 ∷ 0 ∷ 0 ∷ 0 ∷ 0 ∷ 0x21 ∷ 0x43 ∷ 0x65 ∷ 0x87 ∷ 0xe8
    ∷ 0xff ∷ 0xff ∷ 0xff ∷ []

spinning-check : check (message_at spinning) ≡ true
unfolding message_at check word
spinning-check = refl

spinning-size : size (message_at spinning) ≡ 0
unfolding message_at size word
spinning-size = refl

on_read-spins_example : (t : ℕ) × (on_read (some keep_message) 1000 spinning 0 ≡ running t)
on_read-spins_example =
    on_read-spins (some keep_message) 1000 spinning 0 (omega arith) spinning-check spinning-size

-- Whether HasSizes holds, tested at every offset.
abbrev sizes_fit : Message → Bool
sizes_fit m = not (check m) || (ltb 0 (size m) && ltb (size m) (2 ^ 31))

abbrev all_sizes_fit : List ℕ → Bool
all_sizes_fit [] = true
all_sizes_fit (x ∷ xs) = sizes_fit (message_at (x ∷ xs)) && all_sizes_fit xs

sizes_fit_lem :
    (m : Message) → sizes_fit m ≡ true → check m ≡ true → (0 < size m) × (size m < 2 ^ 31)
sizes_fit_lem m h c = ground arith

both_true : (a b : Bool) → a && b ≡ true → (a ≡ true) × (b ≡ true)
both_true true b h = (refl, h)
both_true false b h = cc

no_magic : check (message_at []) ≡ false
unfolding message_at check word
no_magic = refl

all_sizes_fit-HasSizes : (bytes : List ℕ) → all_sizes_fit bytes ≡ true → HasSizes bytes
all_sizes_fit-HasSizes [] h zero c = cc (no_magic, c)
all_sizes_fit-HasSizes [] h (suc p) c = cc (no_magic, c)
all_sizes_fit-HasSizes (x ∷ xs) h zero c = sizes_fit_lem (message_at (x ∷ xs)) (both_true _ _ h).0 c
all_sizes_fit-HasSizes (x ∷ xs) h (suc p) c = all_sizes_fit-HasSizes xs (both_true _ _ h).1 p c

-- A whole message and the beginning of the next one.
abbrev one_and_more : List ℕ
one_and_more =
    1 ∷ 0 ∷ 0 ∷ 0 ∷ 5 ∷ 0 ∷ 0 ∷ 0 ∷ 7 ∷ 0 ∷ 0 ∷ 0 ∷ 6 ∷ 0 ∷ 0 ∷ 0 ∷ 0x21 ∷ 0x43 ∷ 0x65 ∷ 0x87 ∷ 2
    ∷ 0 ∷ 0 ∷ 0 ∷ b'h' ∷ b'i' ∷ 1 ∷ 0 ∷ 0 ∷ []

one_and_more-HasSizes : HasSizes one_and_more
one_and_more-HasSizes =
    all_sizes_fit-HasSizes one_and_more (unfold message_at check word size in refl)

on_read-Ends_example :
    Ends (some keep_message) one_and_more 0 (on_read (some keep_message) 40 one_and_more 0)
on_read-Ends_example =
    on_read-Ends (some keep_message) one_and_more 40 0 one_and_more-HasSizes (omega arith)
