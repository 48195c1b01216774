-- ===== src/Chat/Member/Print.antt =====
-- Words that a member of the chat room says (examples/chatroom/chat_client.cc), on their way through
-- the room's server (examples/chatroom/chat_server.cc) to what other members print.
use cpmd.Base.{
  ℕ, ◌<◌, ◌≡◌, refl, sym, ap, ◌∙◌, true, some, List, [], ◌∷◌, ◌++◌, append-nil, length,
  length-append, take, take-take, take-append, drop, replicate, ltb-eq-false, arith,
}
use cpmd.Base.Outcome.{ok}
use cpmd.Alpha.{Alpha}
use cpmd.Address.{Address}
use cpmd.Message.{Message, max_data_size, data_slice, set_data, set_remote_address, serialize}
use cpmd.Message
use cpmd.Library.{send_message}
use cpmd.Protocol.{c_string, half_bytes, strncpy}
use cpmd.Protocol.Fields.{c_string-eq, c_string-IsText, take-IsText}
use cpmd.Chat.{
  message, max_name_size, max_words_size, Chat, Heard, builder, array_of, set_type, set_name,
  set_to_name, set_words, chat_bytes, heard_at,
}
use cpmd.Chat.Strings.{heard_at-chat_bytes, length-array_of}
use cpmd.Chat.Room.{reply_chat, reply_message}
use cpmd.Chat.Member.{ready, saying, Line, print, Member, send_chat, say}

-- Nothing has set the other member's name.
abbrev pub NamesNobody : Chat → Type 0
NamesNobody b = b.to_name ≡ builder.to_name

saying-eq :
    (name words : List ℕ) (b : Chat)
    → NamesNobody b
    → saying name words b
      ≡ set_words words (set_to_name [] (set_name name (set_type message builder)))
unfolding saying set_words set_to_name set_name set_type builder array_of strncpy replicate c_string
saying-eq name words b e = λ i. record {
  type_ = message;
  name = array_of max_name_size name;
  to_name = e i;
  words = array_of max_words_size words;
}

heard_at-saying :
    (name words rest : List ℕ) (b : Chat)
    → NamesNobody b
    → heard_at (chat_bytes (saying name words b) ++ rest) ≡ record {
      kind = message;
      member = take 15 (c_string name);
      to_member = [];
      said = take 63 (c_string words);
    }
heard_at-saying name words rest b e =
    ap (λ (x : Chat). heard_at (chat_bytes x ++ rest)) (saying-eq name words b e)
    ∙ heard_at-chat_bytes message name [] words rest (omega arith)
    ∙ unfold c_string in refl

length-saying :
    (name words : List ℕ) (b : Chat)
    → NamesNobody b
    → length (chat_bytes (saying name words b)) ≡ 98
unfolding chat_bytes set_words set_to_name set_name set_type half_bytes
length-saying name words b e =
    let n : List ℕ = array_of max_name_size name in
    let t : List ℕ = array_of max_name_size [] in
    let w : List ℕ = array_of max_words_size words in
    ap (λ (x : Chat). length (chat_bytes x)) (saying-eq name words b e)
    ∙ omega (
      arith,
      length-append n (t ++ w),
      length-append t w,
      length-array_of 16 name (omega arith),
      length-array_of 16 [] (omega arith),
      length-array_of 64 words (omega arith),
    )

-- A string is cut once.
c_string-take : (n : ℕ) (s : List ℕ) → take n (c_string (take n (c_string s))) ≡ take n (c_string s)
c_string-take n s =
    ap (take n) (c_string-eq (take n (c_string s)) (take-IsText n (c_string s) (c_string-IsText s)))
    ∙ take-take n (c_string s)

-- The data of a message on which data were set that fit.
data_slice-set_data :
    (m : Message) (d : List ℕ) → length d < max_data_size → data_slice (set_data m d).0 ≡ d
unfolding set_data data_slice
data_slice-set_data m d h =
    rw (ltb-eq-false max_data_size (length d) (omega arith))
      (take-append d (drop (length d) m.data_) (length d) refl)

-- What the others print: the name and the words, up to their first zeros, and cut.
abbrev pub line : List ℕ → List ℕ → Line
line name words = (take 15 (c_string name), take 63 (c_string words))

reply_chat-saying : (h : Heard) → reply_chat message h ≡ saying h.member h.said builder
unfolding reply_chat saying
reply_chat-saying h = refl

-- What is heard of what a member says, and printed of what is heard.
heard : List ℕ → List ℕ → Heard
heard name words = record {
  kind = message;
  member = take 15 (c_string name);
  to_member = [];
  said = take 63 (c_string words);
}

heard_at-said :
    (name words : List ℕ) (b : Chat)
    → NamesNobody b
    → heard_at (chat_bytes (saying name words b)) ≡ heard name words
unfolding heard
heard_at-said name words b e =
    ap heard_at (sym (append-nil (chat_bytes (saying name words b))))
    ∙ heard_at-saying name words [] b e

print-heard :
    (name words : List ℕ)
    → print (heard_at (chat_bytes (reply_chat message (heard name words)))) ≡ line name words ∷ []
unfolding heard print
print-heard name words =
    let h : Heard = heard name words in
    ap (λ (x : Chat). print (heard_at (chat_bytes x))) (reply_chat-saying h)
    ∙ ap print (heard_at-said h.member h.said builder refl)
    ∙ ap (λ (l : Line). l ∷ []) (λ i. (c_string-take 15 name i, c_string-take 63 words i))

length-reply : (h : Heard) → length (chat_bytes (reply_chat message h)) ≡ 98
length-reply h =
    ap (λ (x : Chat). length (chat_bytes x)) (reply_chat-saying h)
    ∙ length-saying h.member h.said builder refl

print-reply :
    (memory : Message) (a : Address) (name words : List ℕ) (b : Chat)
    → NamesNobody b
    → let h = heard_at (chat_bytes (saying name words b)) in
      print (heard_at (data_slice (set_remote_address (reply_message memory message h) a)))
      ≡ line name words ∷ []
unfolding reply_message set_remote_address data_slice
print-reply memory a name words b e =
    let h : Heard = heard_at (chat_bytes (saying name words b)) in
    let d : List ℕ = chat_bytes (reply_chat message h) in
    ap (λ (bytes : List ℕ). print (heard_at bytes))
      (data_slice-set_data (Message.default memory) d (omega (arith, length-reply h)))
    ∙ ap (λ (g : Heard). print (heard_at (chat_bytes (reply_chat message g))))
        (heard_at-said name words b e)
    ∙ print-heard name words

module _ ⦃α : Alpha⦄ where
  -- What a member of the chat room says, over a bus that takes the message: the round sends it,
  -- the builder still names nobody else, and in every reply that the room's server makes of it, to
  -- whichever address, a member prints exactly one line: the name up to its first zero and cut to
  -- 15 bytes, and the words up to their first zero and cut to 63.
  pub say-print :
      (name words : List ℕ) (s : Member) (p : α.Bus)
      → s.client.output ≡ some p
      → NamesNobody s.chat
      → let m : Message = (set_data s.m (chat_bytes (saying name words s.chat))).0 in
        (α.bus_write p (serialize m)).1 ≡ true
        → (t : Member) × (say name (ready true (some words)) s ≡ ok (t, true))
          × (t.m ≡ m)
          × (t.client.output ≡ some (α.bus_write p (serialize m)).0)
          × NamesNobody t.chat
          × ((memory : Message) (a : Address)
              → print (
                  heard_at (
                    data_slice (
                      set_remote_address
                        (reply_message memory message (heard_at (data_slice m)))
                        a)))
                ≡ line name words ∷ [])
  unfolding say send_chat send_message saying set_words set_name set_type
  say-print name words s p o e w =
      let d : List ℕ = chat_bytes (saying name words s.chat) in
      let m : Message = (set_data s.m d).0 in
      let kept : data_slice m ≡ d =
        data_slice-set_data s.m d (omega (arith, length-saying name words s.chat e)) in
      let c' = record s.client { output = some (α.bus_write p (serialize m)).0 } in
      (
        record { client = c'; chat = saying name words s.chat; m = m },
        rw (o, w),
        refl,
        refl,
        e,
        λ memory a.
            ap
              (λ (bytes : List ℕ). print (
                heard_at (
                  data_slice
                    (set_remote_address (reply_message memory message (heard_at bytes)) a))))
              kept
            ∙ print-reply memory a name words s.chat e,
      )
