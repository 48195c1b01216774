-- ===== src/Chat/Room/Private.antt =====
-- Private messages (examples/chatroom/chat_server.cc).
use cpmd.Base.{
  ℕ, ◌≡◌, refl, ◌∙◌, true, false, Bool, Bool-cases, inl, inr, ltb, length, some, if◌then◌else◌,
  List,
}
use cpmd.Base.Map
use cpmd.Base.Bytes.{bytes_key}
use cpmd.Base.Outcome.{ok}
use cpmd.Alpha.{Alpha}
use cpmd.Address.{Address}
use cpmd.Address
use cpmd.Message.{Message, default, clear, set_data, serialize, max_data_size}
use cpmd.Library.Udp.{status_ok, bus_full, is_ok}
use cpmd.Library.{send_message}
use cpmd.Chat.{Heard, private_message, chat_bytes}
use cpmd.Chat.Room.{Room, goes_on, exits, reply_message, reply_chat, answer}

-- The zero address, which stands for client 0 of the own node.
abbrev pub nowhere : Address
nowhere = record { node_addr = 0; client_addr = 0 }

set_data-to : (m : Message) (d : List ℕ) → (set_data m d).0.to ≡ m.to
unfolding set_data
set_data-to m d = elim (Bool-cases (ltb max_data_size (length d))) [
  | inl e ↦ rw e refl
  | inr e ↦ rw e refl
]

reply_message-to :
    (memory : Message) (kind : ℕ) (h : Heard) → (reply_message memory kind h).to ≡ nowhere
unfolding reply_message
reply_message-to memory kind h =
    set_data-to (default memory) (chat_bytes (reply_chat kind h))
    ∙ unfold default clear Address.clear in refl

module _ ⦃α : Alpha⦄ where
  -- A private message to a member of the chat room makes the room write a message on its bus whose
  -- receiver is address 0 of the own node, whichever member it is for; the room goes on where the
  -- bus takes the message and ends where it does not.
  pub answer-nowhere :
      (memory : Message) (r : Room) (from : Address) (h : Heard) (a : Address) (b : α.Bus)
      → h.kind ≡ private_message
      → Map.find h.to_member r.members ≡ some a
      → r.client.output ≡ some b
      → let w = α.bus_write b (serialize (reply_message memory private_message h)) in
        let t : Room = record r { client = record r.client { output = some w.0 } } in
        ((reply_message memory private_message h).to ≡ nowhere)
        × (answer memory r from h ≡ ok (if w.1 then goes_on t else exits t))
  unfolding answer send_message
  answer-nowhere memory r from h a b k e o =
      (reply_message-to memory private_message h, rw (k, e, o) (written _))
    where
      written :
          (w : α.Bus × Bool)
          → ok (
              if is_ok (if w.1 then status_ok else bus_full)
              then goes_on (record r { client = record r.client { output = some w.0 } })
              else exits (record r { client = record r.client { output = some w.0 } }))
            ≡ ok (
                if w.1
                then goes_on (record r { client = record r.client { output = some w.0 } })
                else exits (record r { client = record r.client { output = some w.0 } }))
      written (x, true) = refl
      written (x, false) = refl
