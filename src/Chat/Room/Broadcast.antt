-- ===== src/Chat/Room/Broadcast.antt =====
-- BroadcastMessage (examples/chatroom/chat_server.cc).
use cpmd.Base.{
  ℕ, ◌≡◌, refl, ap, ◌∙◌, inl, inr, Bool, true, false, Bool-cases, Option, some, List, [], ◌∷◌,
  if◌then◌else◌,
}
use cpmd.Base.Outcome.{Outcome, ok}
use cpmd.Alpha.{Alpha}
use cpmd.Address.{Address, ne}
use cpmd.Message.{Message, serialize, set_remote_address}
use cpmd.Library.{ClientImpl, send_message}
use cpmd.Chat.Room.{Members, broadcast_message}

-- The members' addresses other than one, in the order of the names.
abbrev pub others : Members → Address → List Address
others [] from = []
others ((name, a) ∷ members) from =
    let rest = others members from in if ne a from then a ∷ rest else rest

module _ ⦃α : Alpha⦄ where
  -- Offers of some bytes for each address, up to the first that the bus refuses, and whether it
  -- refuses none.
  abbrev pub offers : (Address → List ℕ) → List Address → α.Bus → α.Bus × Bool
  offers bytes [] b = (b, true)
  offers bytes (a ∷ rest) b = elim (α.bus_write b (bytes a)).1 [
    | true ↦ offers bytes rest (α.bus_write b (bytes a)).0
    | false ↦ ((α.bus_write b (bytes a)).0, false)
  ]

  -- A message to an address.
  abbrev pub addressed : Message → Address → List ℕ
  addressed m a = serialize (record m { to = a })

  -- What comes of a broadcast: only the client's bus changes.
  abbrev Comes : ClientImpl → α.Bus × Bool → Outcome (ClientImpl × Message × Bool) → Type 0
  Comes c (b, all) r = (m : Message) × (r ≡ ok (record c { output = some b }, m, all))

  module _ (members : Members) (name : List ℕ) (c : ClientImpl) (a from : Address) (m : Message)
      (b : α.Bus) where
    open_on : α.Bus → ClientImpl
    open_on x = record c { output = some x }

    broadcast_self :
        ne a from ≡ false
        → broadcast_message ((name, a) ∷ members) (open_on b) from m
          ≡ broadcast_message members (open_on b) from m
    unfolding broadcast_message
    broadcast_self e = rw (e, broadcast_message) refl

    broadcast_refused :
        ne a from ≡ true
        → (α.bus_write b (addressed m a)).1 ≡ false
        → broadcast_message ((name, a) ∷ members) (open_on b) from m
          ≡ ok (open_on (α.bus_write b (addressed m a)).0, record m { to = a }, false)
    unfolding broadcast_message open_on send_message set_remote_address
    broadcast_refused e f = rw (e, broadcast_message, f) refl

    broadcast_done :
        ne a from ≡ true
        → (α.bus_write b (addressed m a)).1 ≡ true
        → broadcast_message ((name, a) ∷ members) (open_on b) from m
          ≡ broadcast_message members
              (open_on (α.bus_write b (addressed m a)).0)
              from
              (record m { to = a })
    unfolding broadcast_message open_on send_message set_remote_address
    broadcast_done e f = rw (e, broadcast_message, f) refl

  broadcast_open :
      (members : Members) (c : ClientImpl) (from : Address) (m : Message) (b : α.Bus)
      → Comes c
          (offers (addressed m) (others members from) b)
          (broadcast_message members (record c { output = some b }) from m)
  unfolding open_on
  broadcast_open [] c from m b = (m, unfold broadcast_message in refl)
  broadcast_open ((name, a) ∷ members) c from m b = elim (Bool-cases (ne a from)) [
    | inr same ↦
        let (n, e) = broadcast_open members c from m b in
        (n, broadcast_self members name c a from m b same ∙ e ∙ rw same refl)
    | inl other ↦ elim (Bool-cases (α.bus_write b (addressed m a)).1) [
      | inl done ↦
          let (n, e) =
            broadcast_open members c from (record m { to = a }) (α.bus_write b (addressed m a)).0 in
          (n, broadcast_done members name c a from m b other done ∙ e ∙ rw (other, done) refl)
      | inr refused ↦ (
        record m { to = a },
        broadcast_refused members name c a from m b other refused ∙ rw (other, refused) refl,
      )
    ]
  ]

  -- BroadcastMessage on a client whose output bus is open returns: it offers the bus the message
  -- once for each member with another address than the sender's, addressed to this member, in the
  -- order of the names, up to the first offer that the bus refuses; it gives true exactly where
  -- the bus refuses none, and nothing of the client changes but its output bus.
  pub broadcast_message-offers :
      (members : Members) (c : ClientImpl) (from : Address) (m : Message) (b : α.Bus)
      → c.output ≡ some b
      → (n : Message) × (broadcast_message members c from m
          ≡ ok (
            record c { output = some (offers (addressed m) (others members from) b).0 },
            n,
            (offers (addressed m) (others members from) b).1,
          ))
  broadcast_message-offers members c from m b e =
      let (n, f) = broadcast_open members c from m b in
      (
        n,
        ap (λ (o : Option α.Bus). broadcast_message members (record c { output = o }) from m) e ∙ f,
      )
