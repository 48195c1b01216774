-- ===== src/Chat/Member.antt =====
-- examples/chatroom/chat_client.cc: a member of the chat room. What poll and read give is an argument
-- of each round of the loop.
pub mod Print
pub mod Listen
use cpmd.Base.{
  ℕ, zero, suc, Bool, true, false, not, ◌&&◌, leb, Option, none, some, List, [], ◌∷◌, ◌++◌, length,
  ◌==◌, if◌then◌else◌,
}
use cpmd.Base.Outcome.{Outcome, ok, assert, within, deref, ◌>>=◌, ◌>>◌}
use cpmd.Alpha.{Alpha}
use cpmd.Address
use cpmd.Message.{Message, default, data_slice, set_data, set_remote_address}
use cpmd.Library.{ClientImpl, default_options, create, send_message, receive_message}
use cpmd.Library.Udp.{Status, System, bus_empty, is_ok}
use cpmd.Programs.{argument}
use cpmd.Chat.{
  register, message, sizeof_chat, Chat, Heard, builder, set_type, set_name, set_words, chat_bytes,
  heard_at, name_ends, words_end,
}

-- What poll says: -1; 0; or that there is something, whether it is POLLIN, and what read then
-- gives, at most kMaxWordsSize bytes or -1.
pub data Polled : Type 0 where
  failed : Polled
  expired : Polled
  ready : Bool → Option (List ℕ) → Polled

-- `status == Status::kBusEmpty`
abbrev pub is_empty : Status → Bool
is_empty bus_empty = true
is_empty _ = false

-- What the builder holds when a member registers, and when it has said something.
unfoldable pub registering : List ℕ → Chat
registering name = set_name name (set_type register builder)

unfoldable pub saying : List ℕ → List ℕ → Chat → Chat
saying name words b = set_words words (set_name name (set_type message b))

-- A line of the output: a name, and words.
abbrev pub Line : Type 0
Line = List ℕ × List ℕ

-- What is printed for a message of the chat room.
unfoldable pub print : Heard → List Line
print h = if h.kind == message then (h.member, h.said) ∷ [] else []

-- Whether all that is read of the object lies within the bytes: the type, and of a message the name
-- and the words.
unfoldable pub is_readable : List ℕ → Bool
is_readable bytes =
    leb 2 (length bytes)
    && (if (heard_at bytes).kind == message then name_ends bytes && words_end bytes else true)

module _ ⦃α : Alpha⦄ where
  -- The client, the builder's message, and the message that is sent.
  pub record Member : Type 0 where
    pub client : ClientImpl
    pub chat : Chat
    pub m : Message

  -- SetData with a message of the chat room, and SendMessage: whether it gives kOk.
  unfoldable pub send_chat : Chat → Member → Outcome (Member × Bool)
  send_chat b s = do
    let m = (set_data s.m (chat_bytes b)).0
    (c, status) ← send_message s.client m
    ok (record { client = c; chat = b; m = m }, is_ok status)

  abbrev pub say_words : List ℕ → Option (List ℕ) → Member → Outcome (Member × Bool)
  say_words name none s = ok (s, false)
  say_words name (some words) s = send_chat (saying name words s.chat) s

  -- The ifs over what poll gives; with false, main ends with EXIT_FAILURE.
  unfoldable pub say : List ℕ → Polled → Member → Outcome (Member × Bool)
  say name failed s = ok (s, false)
  say name expired s = ok (s, true)
  say name (ready pollin words) s = do assert pollin; say_words name words s

  -- Slice::as for a type of the given size, where it gives an object, which nothing checks; and
  -- what lies at a message on the bus when the bus has been read again.
  module _ (slice_as : ℕ → List ℕ → Option (List ℕ)) (later : Message → Message) where
    -- received_message, behind a ReceiveMessage that may leave it alone.
    abbrev pub pointer : Option Message → Message → Option Message
    pointer none m = some (later m)
    pointer (some n) m = some n

    -- The loop over what is received, on fuel: the pointer, the status, the client, and the lines
    -- so far.
    unfoldable pub listen :
        ℕ
        → Option Message
        → Status
        → ClientImpl
        → List Line
        → Outcome (Option (ClientImpl × List Line))
    listen zero p code c lines = ok none
    listen (suc fuel) p code c lines = elim (is_empty code) [
      | true ↦ ok (some (c, lines))
      | false ↦ deref p >>= λ m. deref (slice_as sizeof_chat (data_slice m)) >>= λ bytes.
          within (is_readable bytes) >>= λ _. receive_message c >>= λ (c', code', got).
          listen fuel (pointer got m) code' c' (lines ++ print (heard_at bytes))
    ]

    unfoldable pub hear : ℕ → Member → Outcome (Option (Member × List Line))
    hear fuel s = do
      (c, code, got) ← receive_message s.client
      r ← listen fuel got code c []
      ok (elim r [ none ↦ none | some (d, lines) ↦ some (record s { client = d }, lines) ])

    -- A round of the loop of main goes on with some lines, ends the program, or runs out of fuel.
    pub data Round : Type 0 where
      goes_on : Member → List Line → Round
      exits : Round
      runs : Round

    abbrev pub round_of : Option (Member × List Line) → Round
    round_of none = runs
    round_of (some (s, lines)) = goes_on s lines

    unfoldable pub round : ℕ → List ℕ → Polled → Member → Outcome Round
    round fuel name polled s = say name polled s >>= λ (t, going). elim going [
      | false ↦ ok exits
      | true ↦ hear fuel t >>= λ r. ok (round_of r)
    ]

  module _ ⦃sys : System⦄ where
    -- main behind Create: the registration. `none` is EXIT_FAILURE.
    unfoldable pub join : Message → Address.Address → List ℕ → ClientImpl → Outcome (Option Member)
    join memory chatroom name c = do
      (s, going) ←
          send_chat (registering name) (record {
            client = c;
            chat = builder;
            m = set_remote_address (default memory) chatroom;
          })
      ok (if going then some s else none)

    -- main up to its loop.
    unfoldable pub enter : α.World → List ℕ → Message → List (List ℕ) → Outcome (Option Member)
    enter w bytes memory argv = elim (length argv == 3) [
      | false ↦ ok none
      | true ↦ deref (argument 1 argv) >>= λ room. deref (argument 2 argv) >>= λ name.
          Address.create room >>= λ chatroom.
          create w bytes name default_options >>= λ (w', c, status).
          if is_ok status then (deref c >>= λ d. join memory chatroom name d) else ok none
    ]
