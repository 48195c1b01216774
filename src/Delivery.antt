-- ===== src/Delivery.antt =====
-- A message on its whole way from one client to another: the client library that sends it
-- (cpm/cpm_impl.cc), cpmd (cpm/cpm_server.cc), and the client library that receives it. The two
-- ends of a bus are one file in memory: what one end leaves is what the other end finds.
pub mod Ends
pub mod Rounds
pub mod Local
pub mod Leaving
pub mod Arriving
pub mod Remote
pub mod FirstMessage
pub mod ColdStart
use cpmd.Base.{ℕ, ◌+◌, ◌<◌, ◌≡◌, true, none, some, List, [], ◌∷◌, ◌++◌, take}
use cpmd.Base.Outcome.{ok}
use cpmd.Alpha.{Alpha}
use cpmd.Address.{create_directly}
use cpmd.Message.{Message, max_data_size, min_size, set_source_address}
use cpmd.Message.Layout.{IsValid}
use cpmd.Library.{ClientImpl, send_message, receive_message}
use cpmd.Library.Udp.{status_ok, bus_empty}

-- A message as ReceiveMessage shows it: its own data, and nothing behind them.
abbrev pub trimmed : Message → Message
trimmed m = record m { data_ = take m.len m.data_ }

-- What cpmd at a node makes of a message that its client sent.
abbrev pub sent_by : ℕ → ℕ → Message → Message
sent_by node client m = set_source_address (trimmed m) (create_directly node client)

-- What cpmd passes on: ReadMessage wants header and data to be shorter than kMaxDataSize.
pub record IsPassed (m : Message) : Type 0 where
  pub valid : IsValid m
  pub short : min_size + m.len < max_data_size

-- For a client of a node.
abbrev pub IsTo : ℕ → ℕ → Message → Type 0
IsTo node client m = (m.to.node_addr ≡ node) × (m.to.client_addr ≡ client)

module _ ⦃α : Alpha⦄ where
  -- `contents` is what a bus holds, the oldest first: a read takes the oldest, and a write that
  -- succeeds adds at the end.
  pub record IsQueue (contents : α.Bus → List (List ℕ)) : Type 0 where
    pub reads :
        (b : α.Bus) (x : List ℕ) (xs : List (List ℕ))
        → contents b ≡ x ∷ xs
        → ((α.bus_read b).1 ≡ some x) × (contents (α.bus_read b).0 ≡ xs)
    pub reads_nothing :
        (b : α.Bus) → contents b ≡ [] → ((α.bus_read b).1 ≡ none) × (contents (α.bus_read b).0 ≡ [])
    pub writes :
        (b : α.Bus) (x : List ℕ)
        → (α.bus_write b x).1 ≡ true
        → contents (α.bus_write b x).0 ≡ contents b ++ (x ∷ [])

  -- There is room on the bus for these, one after the other.
  abbrev pub Takes : α.Bus → List (List ℕ) → Type 0
  Takes b [] = Unit
  Takes b (x ∷ xs) = ((α.bus_write b x).1 ≡ true) × Takes (α.bus_write b x).0 xs

  -- SendMessage of each, in order, and each gives kOk.
  abbrev pub Sends : ClientImpl → List Message → ClientImpl → Type 0
  Sends c [] d = c ≡ d
  Sends c (m ∷ ms) d = (e : ClientImpl) × (send_message c m ≡ ok (e, status_ok)) × Sends e ms d

  -- ReceiveMessage gives exactly these, in order, and then kBusEmpty.
  abbrev pub Receives : ClientImpl → List Message → Type 0
  Receives c [] = (d : ClientImpl) × (receive_message c ≡ ok (d, bus_empty, none))
  Receives c (m ∷ ms) =
      (d : ClientImpl) × (receive_message c ≡ ok (d, status_ok, some m)) × Receives d ms
