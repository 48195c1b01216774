-- ===== src/Chat/Member/Listen.antt =====
-- The loop of a member of the chat room over what it receives (examples/chatroom/chat_client.cc).
use cpmd.Base.{
  ℕ, suc, ◌<◌, ◌≤◌, ◌≡◌, refl, ◌⊎◌, inl, inr, true, false, Option, none, some, List, [], ◌∷◌, ◌++◌,
  length, Bool-cases, ltb, leb, arith,
}
use cpmd.Base.Outcome.{invalid}
use cpmd.Alpha.{Alpha}
use cpmd.Message.{Message, data_slice, min_size, max_size}
use cpmd.Library.{ClientImpl, accept, receive_message}
use cpmd.Library.Udp.{Status, truncated_message, invalid_message}
use cpmd.Chat.{sizeof_chat, heard_at}
use cpmd.Chat.Member.{is_readable, Line, print, is_empty, Member, listen, hear}

-- The lines that messages make, in their order.
abbrev pub lines_of : List Message → List Line
lines_of [] = []
lines_of (m ∷ ms) = print (heard_at (data_slice m)) ++ lines_of ms

-- What ReceiveMessage takes for no message.
accept-none :
    (bytes : List ℕ)
    → (length bytes < min_size) ⊎ (max_size ≤ length bytes)
    → (code : Status) × (accept (some bytes) ≡ (code, none)) × (is_empty code ≡ false)
unfolding accept
accept-none bytes h = elim (Bool-cases (ltb (length bytes) min_size)) [
  | inl short ↦ (truncated_message, rw short refl, refl)
  | inr enough ↦
      let long : leb max_size (length bytes) ≡ true = ground arith in
      (invalid_message, rw (enough, long) refl, refl)
]

module _ ⦃α : Alpha⦄ (slice_as : ℕ → List ℕ → Option (List ℕ)) (later : Message → Message) where
  -- The data are an object of the chat room's message class, as Slice::as sees it, and what is read
  -- of it lies within them.
  abbrev pub IsChat : Message → Type 0
  IsChat m =
      (slice_as sizeof_chat (data_slice m) ≡ some (data_slice m))
      × (is_readable (data_slice m) ≡ true)

  -- A status other than kBusEmpty, while nothing has set the pointer.
  listen-unset :
      (fuel : ℕ) (code : Status) (c : ClientImpl) (ls : List Line)
      → is_empty code ≡ false
      → listen slice_as later (suc fuel) none code c ls ≡ invalid
  unfolding listen
  listen-unset fuel code c ls e = rw (listen, e)

  -- A member of the chat room whose bus gives first fewer bytes than a header or at least kMaxSize
  -- bytes reads through a pointer that nothing has set.
  pub hear-invalid :
      (fuel : ℕ) (s : Member) (b : α.Bus) (bytes : List ℕ)
      → s.client.input ≡ some b
      → (α.bus_read b).1 ≡ some bytes
      → (length bytes < min_size) ⊎ (max_size ≤ length bytes)
      → hear slice_as later (suc fuel) s ≡ invalid
  unfolding hear receive_message
  hear-invalid fuel s b bytes i read h =
      let (code, e, there) = accept-none bytes h in
      rw (i, read, e, listen-unset fuel code _ [] there)
