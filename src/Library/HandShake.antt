-- ===== src/Library/HandShake.antt =====
-- The hand shake from both sides: the client library (cpm/cpm_impl.cc) and cpmd (cpm/cpm_server.cc).
pub mod Crossed
use cpmd.Base.{
  true, ℕ, suc, ◌+◌, ◌-◌, ◌^◌, ◌≤◌, ◌<◌, ◌≡◌, ◌≢◌, refl, sym, ap, ◌∙◌, List, [], ◌∷◌, ◌++◌, length,
  take, drop, take-append, drop-append, drop-add, length-append, length-take, length-take_le,
  length-drop, append_assoc, arith, All, inl, inr, ◌⊎◌, Option, some, none, ◌==◌, ==_iff,
}
use cpmd.Message.{word_bytes, word}
use cpmd.Message.Layout.{IsWord, word-eq}
use cpmd.Address.{slash}
use cpmd.Protocol.{
  max_name_size, max_path_size, min_protocol_message_size, sizeof_protocol_message, half_bytes,
  c_string, has_end, strncpy, write_at, ok_code,
}
use cpmd.Protocol.Fields.{
  IsText, length-strncpy, c_string-strncpy, has_end-strncpy, c_string-IsText, append-IsText,
  take-IsText,
}
use cpmd.Server.Init.{
  HandShakeRequest, request_of, name_ends, get_bus_path, get_input_bus_path, get_output_bus_path,
  input_suffix, output_suffix, reply_code, reply_input_path, reply_output_path,
}
use cpmd.Library.{hand_shake_request, input_tunnel_path, output_tunnel_path}

drop-write_at :
    (n : ℕ) (xs d : List ℕ) → n ≤ length d → drop n (write_at n xs d) ≡ xs ++ drop (n + length xs) d
unfolding write_at
drop-write_at n xs d h = drop-append (take n d) (xs ++ drop (n + length xs) d) n (length-take n d h)

-- Behind what was written.
drop-write_at_past :
    (n k : ℕ) (xs d : List ℕ)
    → n ≤ length d
    → length xs ≡ k
    → drop (n + k) (write_at n xs d) ≡ drop (n + k) d
drop-write_at_past n k xs d h e =
    drop-add n k (write_at n xs d)
    ∙ ap (drop k) (drop-write_at n xs d h)
    ∙ drop-append xs (drop (n + length xs) d) k e
    ∙ ap (λ (m : ℕ). drop (n + m) d) e

length-write_at :
    (n : ℕ) (xs d : List ℕ) → n + length xs ≤ length d → length (write_at n xs d) ≡ length d
unfolding write_at
length-write_at n xs d h = omega (
  arith,
  length-append (take n d) (xs ++ drop (n + length xs) d),
  length-append xs (drop (n + length xs) d),
  length-take n d (omega arith),
  length-drop (n + length xs) d,
)

length-word_bytes : (w : ℕ) → length (word_bytes w) ≡ 4
unfolding word_bytes
length-word_bytes w = refl

read_word : (w : ℕ) (rest : List ℕ) → IsWord w → word (word_bytes w ++ rest) ≡ w
unfolding word word_bytes
read_word w rest h = word-eq w h

module _ (name memory : List ℕ) (size : ℕ) (text : IsText name)
    (short : length name < max_name_size) (whole : length memory ≡ sizeof_protocol_message) where
  abbrev inner : List ℕ
  inner = write_at 14 (strncpy name 128) memory

  length-inner : length inner ≡ length memory
  length-inner =
      length-write_at 14 (strncpy name 128) memory
        (omega (arith, length-strncpy name 128 text (omega arith)))

  pub length-hand_shake_request :
      length (hand_shake_request name size memory) ≡ sizeof_protocol_message
  unfolding hand_shake_request
  length-hand_shake_request =
      length-write_at 10 (word_bytes size) inner
        (omega (arith, length-word_bytes size, length-inner))
      ∙ length-inner
      ∙ whole

  behind_size :
      drop 14 (hand_shake_request name size memory)
      ≡ strncpy name 128 ++ drop (14 + length (strncpy name 128)) memory
  unfolding hand_shake_request
  behind_size =
      drop-write_at_past 10 4 (word_bytes size) inner (omega (arith, length-inner))
        (length-word_bytes size)
      ∙ drop-write_at 14 (strncpy name 128) memory (omega arith)

  pub name_ends-hand_shake_request : name_ends (hand_shake_request name size memory) ≡ true
  unfolding name_ends
  name_ends-hand_shake_request =
      ap has_end behind_size
      ∙ has_end-strncpy name (drop (14 + length (strncpy name 128)) memory) 128 text short

  -- What cpmd reads in the request.
  pub request_of-hand_shake_request :
      IsWord size
      → request_of (hand_shake_request name size memory)
        ≡ record { buffer_size = size; name = name }
  unfolding hand_shake_request request_of
  request_of-hand_shake_request w = λ i. record {
    buffer_size =
        (ap word (drop-write_at 10 (word_bytes size) inner (omega (arith, length-inner)))
            ∙ read_word size (drop (10 + length (word_bytes size)) inner) w)
          i;
    name =
        (ap c_string behind_size
            ∙ c_string-strncpy name (drop (14 + length (strncpy name 128)) memory) 128 text short)
          i;
  }

-- The paths of the buses fit the fields of the reply.
pub get_bus_path-IsText :
    (suffix location name : List ℕ) → IsText suffix → IsText (get_bus_path suffix location name)
unfolding get_bus_path
get_bus_path-IsText suffix location name h =
    take-IsText 127 (c_string location ++ (slash ∷ (c_string name ++ suffix))) (
      append-IsText (c_string location) (slash ∷ (c_string name ++ suffix))
        (c_string-IsText location)
        ((omega arith), append-IsText (c_string name) suffix (c_string-IsText name) h))

pub length-get_bus_path :
    (suffix location name : List ℕ) → length (get_bus_path suffix location name) ≤ 127
unfolding get_bus_path
length-get_bus_path suffix location name = length-take_le 127 _

module _ (code : ℕ) (p q out : List ℕ) (tp : IsText p) (tq : IsText q) (sp : length p ≤ 127)
    (sq : length q ≤ 127) (whole : length out ≡ sizeof_protocol_message) where
  abbrev coded : List ℕ
  coded = reply_code code out

  abbrev half_done : List ℕ
  half_done = reply_output_path q coded

  length-half_bytes : length (half_bytes code) ≡ 2
  unfolding half_bytes
  length-half_bytes = refl

  length-coded : length coded ≡ 1036
  unfolding reply_code
  length-coded = length-write_at 10 (half_bytes code) out (omega (arith, length-half_bytes)) ∙ whole

  length-half_done : length half_done ≡ 1036
  unfolding reply_output_path
  length-half_done =
      length-write_at 140 (strncpy q 128) coded
        (omega (arith, length-coded, length-strncpy q 128 tq (omega arith)))
      ∙ length-coded

  -- The client reads the two paths where cpmd wrote them.
  pub input_tunnel_path-reply : input_tunnel_path (reply_input_path p half_done) ≡ p
  unfolding input_tunnel_path reply_input_path
  input_tunnel_path-reply =
      ap c_string (drop-write_at 12 (strncpy p 128) half_done (omega (arith, length-half_done)))
      ∙ c_string-strncpy p (drop (12 + length (strncpy p 128)) half_done) 128 tp (omega arith)

  pub output_tunnel_path-reply : output_tunnel_path (reply_input_path p half_done) ≡ q
  unfolding output_tunnel_path reply_input_path reply_output_path
  output_tunnel_path-reply =
      ap c_string (
        drop-write_at_past 12 128 (strncpy p 128) half_done (omega (arith, length-half_done))
          (length-strncpy p 128 tp (omega arith))
        ∙ drop-write_at 140 (strncpy q 128) coded (omega (arith, length-coded)))
      ∙ c_string-strncpy q (drop (140 + length (strncpy q 128)) coded) 128 tq (omega arith)
