-- ===== src/Protocol/Fields.antt =====
-- The strings of a ResolveResponse (cpm/cpm_protocol.cc) in the data of the message: the address in
-- 16 bytes from offset 12 on, and the path from offset 28 on.
pub mod Reply
use cpmd.Base.{
  true, false, ℕ, zero, suc, ◌+◌, ◌-◌, ◌^◌, ◌≤◌, ◌<◌, ◌≡◌, ◌≢◌, refl, sym, ap, ◌∙◌, List, [], ◌∷◌,
  ◌++◌, length, take, drop, replicate, take-append, drop-append, drop-add, length-append,
  length-replicate, append-nil, append_assoc, arith, All, lt→ltb, inl, inr, Bool-cases, ◌==◌,
  ==_iff,
}
use cpmd.Base.Outcome.{ok}
use cpmd.Message.Layout.{take-past}
use cpmd.Protocol.{
  ProtocolMessage, protocol_message_magic, resolve_response, max_ip_size, max_node_path_size,
  c_string, has_end, strncpy, write_at, ensure_length, serialize, message_at,
}
use cpmd.Protocol.Layout.{IsValid, message_at-serialize}
use cpmd.Protocol.Response.{set_node_ip, set_node_path}

abbrev pub zeros : ℕ → List ℕ
zeros n = replicate n 0

-- A string without a zero.
abbrev pub IsText : List ℕ → Type 0
IsText s = All (λ x. x ≢ 0) s

pub c_string-append : (s t : List ℕ) → IsText s → c_string (s ++ t) ≡ s ++ c_string t
unfolding c_string
c_string-append [] t h = refl
c_string-append (x ∷ s) t h = ground (arith, h.0, c_string-append s t h.1)

-- A string and a zero.
pub c_string-ends : (s t : List ℕ) (n : ℕ) → IsText s → 0 < n → c_string (s ++ (zeros n ++ t)) ≡ s
unfolding replicate
c_string-ends s t zero h p = absurd (omega arith)
c_string-ends s t (suc n) h p =
    c_string-append s (zeros (suc n) ++ t) h ∙ unfold c_string in append-nil s

pub has_end-behind : (s t : List ℕ) → has_end t ≡ true → has_end (s ++ t) ≡ true
unfolding has_end
has_end-behind [] t h = h
has_end-behind (x ∷ s) t h = ground (arith, has_end-behind s t h)

pub has_end-zeros : (n : ℕ) (t : List ℕ) → 0 < n → has_end (zeros n ++ t) ≡ true
unfolding has_end replicate
has_end-zeros zero t p = absurd (omega arith)
has_end-zeros (suc n) t p = refl

pub has_end-IsText : (s : List ℕ) → IsText s → has_end s ≡ false
unfolding has_end
has_end-IsText [] h = refl
has_end-IsText (x ∷ s) h = ground (arith, h.0, has_end-IsText s h.1)

pub c_string-eq : (s : List ℕ) → IsText s → c_string s ≡ s
c_string-eq s h =
    ap c_string (sym (append-nil s)) ∙ c_string-append s [] h ∙ unfold c_string in append-nil s

pub strncpy-eq : (s : List ℕ) → IsText s → strncpy s (length s) ≡ s
unfolding strncpy
strncpy-eq s h =
    ap (λ t. take (length s) (t ++ zeros (length s))) (c_string-eq s h)
    ∙ take-append s (zeros (length s)) (length s) refl

drop-replicate : (k n : ℕ) → drop k (zeros n) ≡ zeros (n - k)
unfolding replicate
drop-replicate zero n = ap (λ (m : ℕ). zeros m) (omega arith)
drop-replicate (suc k) zero = let e : 0 ≡ 0 - suc k = omega arith in ap (λ (m : ℕ). zeros m) e
drop-replicate (suc k) (suc n) = drop-replicate k n ∙ ap (λ (m : ℕ). zeros m) (omega arith)

take-replicate : (k n : ℕ) → k ≤ n → take k (zeros n) ≡ zeros k
unfolding replicate
take-replicate zero n h = refl
take-replicate (suc k) zero h = absurd (omega arith)
take-replicate (suc k) (suc n) h = ap (◌∷◌ 0) (take-replicate k n (omega arith))

pub strncpy-pads :
    (s : List ℕ) (n : ℕ) → IsText s → length s ≤ n → strncpy s n ≡ s ++ zeros (n - length s)
unfolding strncpy
strncpy-pads s n h k =
    let e : n ≡ length s + (n - length s) = omega arith in
    ap (λ t. take n (t ++ zeros n)) (c_string-eq s h)
    ∙ ap (λ (m : ℕ). take m (s ++ zeros n)) e
    ∙ take-past s (zeros n) (n - length s)
    ∙ ap (λ (t : List ℕ). s ++ t) (take-replicate (n - length s) n (omega arith))

pub length-strncpy : (s : List ℕ) (n : ℕ) → IsText s → length s ≤ n → length (strncpy s n) ≡ n
length-strncpy s n h k =
    ap length (strncpy-pads s n h k)
    ∙ omega
        (arith, length-append s (zeros (n - length s)), length-replicate {A = ℕ} (n - length s) 0)

-- A string that was copied with a zero behind it is read back.
pub c_string-strncpy :
    (s t : List ℕ) (n : ℕ) → IsText s → length s < n → c_string (strncpy s n ++ t) ≡ s
c_string-strncpy s t n h k =
    ap (λ (u : List ℕ). c_string (u ++ t)) (strncpy-pads s n h (omega arith))
    ∙ ap c_string (append_assoc s (zeros (n - length s)) t)
    ∙ c_string-ends s t (n - length s) h (omega arith)

pub has_end-strncpy :
    (s t : List ℕ) (n : ℕ) → IsText s → length s < n → has_end (strncpy s n ++ t) ≡ true
has_end-strncpy s t n h k =
    ap (λ (u : List ℕ). has_end (u ++ t)) (strncpy-pads s n h (omega arith))
    ∙ ap has_end (append_assoc s (zeros (n - length s)) t)
    ∙ has_end-behind s (zeros (n - length s) ++ t) (has_end-zeros (n - length s) t (omega arith))

pub c_string-IsText : (s : List ℕ) → IsText (c_string s)
unfolding c_string
c_string-IsText [] = tt
c_string-IsText (x ∷ s) = elim (Bool-cases (x == 0)) [
  | inl e ↦ rw e tt
  | inr e ↦ rw e ((λ z. cc (e, (==_iff x 0).1 z)), c_string-IsText s)
]

pub append-IsText : (s t : List ℕ) → IsText s → IsText t → IsText (s ++ t)
append-IsText [] t h k = k
append-IsText (x ∷ s) t h k = (h.0, append-IsText s t h.1 k)

pub take-IsText : (n : ℕ) (s : List ℕ) → IsText s → IsText (take n s)
take-IsText zero s h = tt
take-IsText (suc n) [] h = tt
take-IsText (suc n) (x ∷ s) h = (h.0, take-IsText n s h.1)

-- The field of an address.
abbrev pub ip_field : List ℕ → List ℕ
ip_field ip = ip ++ zeros (max_ip_size - length ip)

pub length-ip_field : (ip : List ℕ) → length ip < max_ip_size → length (ip_field ip) ≡ max_ip_size
length-ip_field ip h = omega (
  arith,
  length-append ip (zeros (max_ip_size - length ip)),
  length-replicate {A = ℕ} (max_ip_size - length ip) 0,
)

pub write_ip :
    (p ip : List ℕ) (n : ℕ)
    → length p ≡ 12
    → write_at 12 ip (p ++ zeros n) ≡ p ++ (ip ++ zeros (n - length ip))
unfolding write_at
write_ip p ip n h =
    ap (λ (t : List ℕ). t ++ (ip ++ drop (12 + length ip) (p ++ zeros n)))
      (take-append p (zeros n) 12 h)
    ∙ ap (λ (t : List ℕ). p ++ (ip ++ t))
        (drop-add 12 (length ip) (p ++ zeros n)
          ∙ ap (drop (length ip)) (drop-append p (zeros n) 12 h)
          ∙ drop-replicate (length ip) n)

take_ip :
    (ip : List ℕ) (n : ℕ)
    → length ip < max_ip_size
    → max_ip_size ≤ n
    → take max_ip_size (ip ++ zeros (n - length ip)) ≡ ip_field ip
take_ip ip n h k =
    let e : max_ip_size ≡ length ip + (max_ip_size - length ip) = omega arith in
    ap (λ (m : ℕ). take m (ip ++ zeros (n - length ip))) e
    ∙ take-past ip (zeros (n - length ip)) (max_ip_size - length ip)
    ∙ ap (λ (t : List ℕ). ip ++ t)
        (take-replicate (max_ip_size - length ip) (n - length ip) (omega arith))

-- The data of a reply: code, type, address and port in 12 bytes, the address's field, and the path.
pub write_path :
    (p ip path : List ℕ) (n : ℕ)
    → length p ≡ 12
    → length ip < max_ip_size
    → max_ip_size ≤ n
    → (tail : List ℕ) × (write_at 28 path (p ++ (ip ++ zeros (n - length ip)))
        ≡ p ++ (ip_field ip ++ (path ++ tail)))
unfolding write_at
write_path p ip path n h k le =
    let e : 28 ≡ length p + max_ip_size = omega arith in
    let t = ip ++ zeros (n - length ip) in
    (
      drop (28 + length path) (p ++ t),
      ap (λ (x : List ℕ). x ++ (path ++ drop (28 + length path) (p ++ t)))
            (ap (λ (m : ℕ). take m (p ++ t)) e
              ∙ take-past p t max_ip_size
              ∙ ap (λ (x : List ℕ). p ++ x) (take_ip ip n k le))
          ∙ append_assoc p (ip_field ip) (path ++ drop (28 + length path) (p ++ t)),
    )
