-- ===== src/Protocol/Fields/Reply.antt =====
-- A ResolveResponse that names a node: built by the setters of its strings (cpm/cpm_protocol.cc),
-- written, and read in place.
use cpmd.Base.{
  true, ℕ, ◌+◌, ◌-◌, ◌^◌, ◌≤◌, ◌<◌, ◌≡◌, refl, sym, ap, ◌∙◌, List, ◌++◌, length, take, drop,
  take-append, drop-append, length-append, append_assoc, arith, lt→ltb,
}
use cpmd.Base.Outcome.{ok}
use cpmd.Message.{word_bytes, word}
use cpmd.Message.Layout.{IsWord, word-eq}
use cpmd.Protocol.{
  ProtocolMessage, protocol_message_magic, resolve_response, max_ip_size, max_node_path_size,
  half_bytes, half, has_end, c_string, ensure_length, serialize, message_at,
}
use cpmd.Protocol.Layout.{half-eq, message_at-serialize}
use cpmd.Protocol.Response.{ip_ends, path_ends, of_data, set_node_ip, set_node_path}
use cpmd.Protocol.Fields.{
  IsText, zeros, ip_field, length-ip_field, strncpy-eq, write_ip, write_path, c_string-append,
  c_string-ends, has_end-behind, has_end-zeros,
}

-- A message with some data in front of zeros.
abbrev pub begun : ℕ → List ℕ → ProtocolMessage
begun len bytes = record {
  kind = resolve_response;
  magic = protocol_message_magic;
  len = len;
  data_ = bytes;
}

pub set_node_ip-eq :
    (p ip : List ℕ) (len n : ℕ)
    → length p ≡ 12
    → IsText ip
    → length ip < max_ip_size
    → len < 28
    → set_node_ip ip (begun len (p ++ zeros n)) ≡ ok (begun 28 (p ++ (ip ++ zeros (n - length ip))))
unfolding set_node_ip ensure_length
set_node_ip-eq p ip len n e h k l =
    rw (lt→ltb (length ip) max_ip_size k, strncpy-eq ip h, write_ip p ip n e, lt→ltb len 28 l) refl

pub set_node_path-eq :
    (p ip path : List ℕ) (len n : ℕ)
    → length p ≡ 12
    → length ip < max_ip_size
    → max_ip_size ≤ n
    → IsText path
    → length path < max_node_path_size
    → (tail : List ℕ) × (set_node_path path (begun len (p ++ (ip ++ zeros (n - length ip))))
        ≡ ok (begun (28 + length path) (p ++ (ip_field ip ++ (path ++ tail)))))
unfolding set_node_path
set_node_path-eq p ip path len n e k l h m =
    let (tail, f) = write_path p ip path n e k l in
    (tail, rw (lt→ltb (length path) max_node_path_size m, strncpy-eq path h, f) refl)

length-reply :
    (p ip path : List ℕ)
    → length p ≡ 12
    → length ip < max_ip_size
    → length (p ++ (ip_field ip ++ path)) ≡ 28 + length path
length-reply p ip path e k = omega (
  arith,
  length-append p (ip_field ip ++ path),
  length-append (ip_field ip) path,
  length-ip_field ip k,
)

regroup : (p f path tail : List ℕ) → p ++ (f ++ (path ++ tail)) ≡ (p ++ (f ++ path)) ++ tail
regroup p f path tail =
    ap (λ (t : List ℕ). p ++ t) (sym (append_assoc f path tail))
    ∙ sym (append_assoc p (f ++ path) tail)

-- What is read at the bytes: behind the path stands whatever follows the message.
pub message_at-reply :
    (p ip path tail rest : List ℕ)
    → length p ≡ 12
    → length ip < max_ip_size
    → length path < max_node_path_size
    → message_at
        (serialize (begun (28 + length path) (p ++ (ip_field ip ++ (path ++ tail)))) ++ rest)
      ≡ begun (28 + length path) (p ++ (ip_field ip ++ (path ++ rest)))
message_at-reply p ip path tail rest e k m =
    let whole : length (p ++ (ip_field ip ++ (path ++ tail))) ≡ 28 + length path + length tail =
      ap length (regroup p (ip_field ip) path tail)
      ∙ omega
          (arith, length-append (p ++ (ip_field ip ++ path)) tail, length-reply p ip path e k) in
    message_at-serialize (begun (28 + length path) (p ++ (ip_field ip ++ (path ++ tail)))) rest
      (record {
        kind_half = omega arith;
        magic_word = omega arith;
        len_half = omega arith;
        has_data = omega arith;
      })
    ∙ ap (λ (t : List ℕ). begun (28 + length path) (t ++ rest))
        (ap (take (28 + length path)) (regroup p (ip_field ip) path tail)
          ∙ take-append (p ++ (ip_field ip ++ path)) tail (28 + length path)
              (length-reply p ip path e k))
    ∙ ap (begun (28 + length path)) (sym (regroup p (ip_field ip) path rest))

-- The numbers in front.
abbrev pub front : ℕ → ℕ → ℕ → ℕ → List ℕ
front code kind addr port =
    half_bytes code ++ (half_bytes kind ++ (word_bytes addr ++ word_bytes port))

read_path :
    (ip path rest : List ℕ)
    → length ip < max_ip_size
    → IsText path
    → c_string (drop 16 (ip_field ip ++ (path ++ rest))) ≡ path ++ c_string rest
read_path ip path rest k h =
    ap c_string (drop-append (ip_field ip) (path ++ rest) 16 (length-ip_field ip k))
    ∙ c_string-append path rest h

read_ip :
    (ip rest : List ℕ) → length ip < max_ip_size → IsText ip → c_string (ip_field ip ++ rest) ≡ ip
read_ip ip rest k h =
    ap c_string (append_assoc ip (zeros (max_ip_size - length ip)) rest)
    ∙ c_string-ends ip rest (max_ip_size - length ip) h (omega arith)

pub of_data-reply :
    (code kind addr port : ℕ) (ip path rest : List ℕ)
    → code < 2 ^ 16
    → kind < 2 ^ 16
    → IsWord addr
    → IsWord port
    → length ip < max_ip_size
    → IsText ip
    → IsText path
    → of_data (front code kind addr port ++ (ip_field ip ++ (path ++ rest))) ≡ record {
      code = code;
      type_ = kind;
      node_addr = addr;
      node_port = port;
      node_ip = ip;
      node_path = path ++ c_string rest;
    }
unfolding of_data half half_bytes word word_bytes
of_data-reply code kind addr port ip path rest c t a p k h g = λ i. record {
  code = half-eq code c i;
  type_ = half-eq kind t i;
  node_addr = word-eq addr a i;
  node_port = word-eq port p i;
  node_ip = read_ip ip (path ++ rest) k h i;
  node_path = read_path ip path rest k g i;
}

-- The strings in the bytes of a reply, in front of other bytes.
module _ (code kind addr port : ℕ) (ip path rest : List ℕ) (k : length ip < max_ip_size) where
  abbrev reply_data : List ℕ
  reply_data = front code kind addr port ++ (ip_field ip ++ (path ++ rest))

  behind_ip : drop 28 reply_data ≡ path ++ rest
  unfolding half_bytes word_bytes
  behind_ip = drop-append (ip_field ip) (path ++ rest) 16 (length-ip_field ip k)

  pub ip_ends-reply : ip_ends reply_data ≡ true
  unfolding ip_ends half_bytes word_bytes
  ip_ends-reply =
      ap has_end (append_assoc ip (zeros (max_ip_size - length ip)) (path ++ rest))
      ∙ has_end-behind ip (zeros (max_ip_size - length ip) ++ (path ++ rest))
          (has_end-zeros (max_ip_size - length ip) (path ++ rest) (omega arith))

  pub path_ends-reply : path_ends reply_data ≡ has_end (path ++ rest)
  unfolding path_ends
  path_ends-reply = ap has_end behind_ip
