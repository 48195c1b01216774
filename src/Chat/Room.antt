-- ===== src/Chat/Room.antt =====
-- examples/chatroom/chat_server.cc: the server of the chat room.
pub mod Broadcast
pub mod Private
use cpmd.Base.{
  ℕ, suc, Bool, true, false, not, ◌&&◌, Option, none, some, List, [], ◌∷◌, ◌==◌, if◌then◌else◌,
}
use cpmd.Base.Map
use cpmd.Base.Bytes.{bytes_key}
use cpmd.Base.Outcome.{Outcome, ok, invalid, within, ◌>>◌, deref, ◌>>=◌}
use cpmd.Alpha.{Alpha}
use cpmd.Address.{Address, ne}
use cpmd.Message.{Message, default, data_slice, set_data, set_remote_address, source_address}
use cpmd.Library.{ClientImpl, send_message, receive_message}
use cpmd.Library.Udp.{Status, status_ok, bus_empty, is_ok}
use cpmd.Chat.{
  register, heart_beat, message, private_message, sizeof_chat, Chat, Heard, builder, set_type,
  set_name, set_words, chat_bytes, heard_at, name_ends, to_name_ends, words_end,
}

-- MemberMap
abbrev pub Members : Type 0
Members = List (List ℕ × Address)

-- The chat message of a reply, and the message that carries it; `memory` is what lay there.
unfoldable pub reply_chat : ℕ → Heard → Chat
reply_chat kind h = set_words h.said (set_name h.member (set_type kind builder))

unfoldable pub reply_message : Message → ℕ → Heard → Message
reply_message memory kind h = (set_data (default memory) (chat_bytes (reply_chat kind h))).0

-- members.emplace, where the name is not there.
unfoldable pub registered : Members → Heard → Address → Members
registered members h from = (Map.emplace h.member from members).0

module _ ⦃α : Alpha⦄ where
  pub record Room : Type 0 where
    pub client : ClientImpl
    pub members : Members
    pub idle : ℕ

  -- A round of the loop: it goes on, or main ends with EXIT_FAILURE.
  pub data Turn : Type 0 where
    goes_on : Room → Turn
    exits : Room → Turn

  -- BroadcastMessage, with the message that it leaves behind.
  unfoldable pub broadcast_message :
      Members → ClientImpl → Address → Message → Outcome (ClientImpl × Message × Bool)
  broadcast_message [] c from m = ok (c, m, true)
  broadcast_message ((name, a) ∷ members) c from m = elim (ne a from) [
    | false ↦ broadcast_message members c from m
    | true ↦ send_message c (set_remote_address m a) >>= λ (c', status). elim (is_ok status) [
      | false ↦ ok (c', set_remote_address m a, false)
      | true ↦ broadcast_message members c' from (set_remote_address m a)
    ]
  ]

  -- The case of a private message, at what members.find gives.
  abbrev pub answer_private : Option Address → Message → Room → Heard → Outcome Turn
  answer_private none memory r h = ok (goes_on r)
  answer_private (some a) memory r h = do
    (c, status) ← send_message r.client (reply_message memory private_message h)
    let t : Room = record r { client = c }
    ok (if is_ok status then goes_on t else exits t)

  -- The switch. Heart beats and unknown types change nothing.
  unfoldable pub answer : Message → Room → Address → Heard → Outcome Turn
  answer memory r from h =
      if h.kind == register
      then ok (goes_on (record r { members = registered r.members h from }))
      else if h.kind == heart_beat
      then ok (goes_on r)
      else if h.kind == message
      then (do
        (c, m, all) ← broadcast_message r.members r.client from (reply_message memory message h)
        let t : Room = record r { client = c }
        ok (if all then goes_on t else exits t))
      else if h.kind == private_message
      then answer_private (Map.find h.to_member r.members) memory r h
      else ok (goes_on r)

  -- Whether all that main reads of the object lies within the bytes: the type and the name in any
  -- case, the words of a message, and the other member's name of a private one. It reads them before
  -- it does anything else.
  unfoldable pub is_readable : List ℕ → Bool
  is_readable bytes =
      let kind = (heard_at bytes).kind in
      name_ends bytes
      && (if kind == message
          then words_end bytes
          else if kind == private_message
          then to_name_ends bytes && words_end bytes
          else true)

  -- Slice::as for a type of the given size, where it gives an object; nothing checks that it does.
  module _ (slice_as : ℕ → List ℕ → Option (List ℕ)) where
    abbrev pub received : Status → Option Message → Message → Room → Outcome Turn
    received bus_empty m memory r = ok (goes_on (record r { idle = suc r.idle }))
    received status_ok (some m) memory r = do
      bytes ← deref (slice_as sizeof_chat (data_slice m))
      within (is_readable bytes)
      answer memory (record r { idle = 0 }) (source_address m) (heard_at bytes)
    received status_ok none memory r = invalid
    received _ m memory r = ok (exits r)

    -- The body of the loop of main.
    unfoldable pub turn : Message → Room → Outcome Turn
    turn memory r = do
      (c, status, m) ← receive_message r.client
      received status m memory (record r { client = c })
