-- ===== src/Tests/Deliveries.antt =====
-- Messages on their whole way, over buses that give first what was written first.
use cpmd.Base.{
  ℕ, ◌≡◌, ◌≢◌, refl, true, false, none, some, List, [], ◌∷◌, ◌++◌, map, length, arith, inl, Bool,
}
use cpmd.Base.Map
use cpmd.Base.Map.{nat_key}
use cpmd.Base.Outcome.{ok}
use cpmd.Alpha.{Alpha}
use cpmd.Message.{Message, serialize}
use cpmd.Message.Codec.{consumed}
use cpmd.Message.Codec.Frames.{wire}
use cpmd.Node.{Node, resolved}
use cpmd.Node
use cpmd.Client.{ClientInfo}
use cpmd.Library.{ClientImpl, send_message}
use cpmd.Server.{Server, find_node}
use cpmd.Server.Route.{find_client}
use cpmd.Server.Bus.{drain}
use cpmd.Server.Incoming.{on_message_bytes}
use cpmd.Delivery.{sent_by, IsPassed, IsQueue, Sends, Receives}
use cpmd.Delivery.Rounds.{KeepsOthers}
use cpmd.Delivery.Local.{drain-Receives}
use cpmd.Delivery.Leaving.{Peer}
use cpmd.Delivery.Remote.{drain-on_message_bytes}
use cpmd.Tests.Messages.{hello-IsValid, begun, begun-IsBeginning}
use cpmd.Tests.Net.{first_of, hello}
use cpmd.Tests.Net

instance abbrev pub fifo : Alpha
fifo = record Net.net { bus_write = λ b bytes. (b ++ (bytes ∷ []), true) }

abbrev pub lies : fifo.Bus → List (List ℕ)
lies b = b

pub fifo-IsQueue : IsQueue lies
fifo-IsQueue = record { reads = first; reads_nothing = nothing; writes = λ b x e. refl }
  where
    first :
        (b : fifo.Bus) (x : List ℕ) (xs : List (List ℕ))
        → b ≡ x ∷ xs
        → ((first_of b).1 ≡ some x) × ((first_of b).0 ≡ xs)
    first [] x xs e = cc
    first (y ∷ b) x xs e = (cc e, cc e)

    nothing : (b : fifo.Bus) → b ≡ [] → ((first_of b).1 ≡ none) × ((first_of b).0 ≡ [])
    nothing [] e = (refl, refl)
    nothing (y ∷ b) e = cc

hello-IsPassed : IsPassed hello
hello-IsPassed = record { valid = hello-IsValid; short = omega arith }

abbrev twice : List Message
twice = hello ∷ hello ∷ []

-- Client 5, with nothing on its way, and behind two messages.
abbrev pub talker : ClientImpl
talker = record {
  name = b'c' ∷ [];
  options = record { port = 8123; buffer_size = 4096 };
  input = some [];
  output = some [];
}

abbrev talked : ClientImpl
talked = record talker { output = some (serialize hello ∷ serialize hello ∷ []) }

talker-Sends : Sends talker twice talked
unfolding send_message
talker-Sends = (record talker { output = some (serialize hello ∷ []) }, refl, (talked, refl, refl))

-- The clients in cpmd's table.
abbrev from : ClientInfo
from = record {
  name = b'c' ∷ [];
  addr = record { node_addr = 0; client_addr = 5 };
  input = some (serialize hello ∷ serialize hello ∷ []);
  output = some [];
}

abbrev to : ClientInfo
to = record {
  name = b'd' ∷ [];
  addr = record { node_addr = 0; client_addr = 6 };
  input = some [];
  output = some [];
}

-- Node 7, with both clients.
abbrev home : Server
home = record {
  message_server_port = 80;
  connected_nodes = 0;
  self_address = 7;
  bus_location = b'/' ∷ [];
  resolve_server_address = 2;
  resolve_server_conn = none;
  nodes = [];
  nodes_index = [];
  clients = (5, from) ∷ (6, to) ∷ [];
  net = [];
}

drain-Receives_example :
    (any : Bool) × (cs : List (ℕ × ClientInfo)) × (to' : ClientInfo) × (drain 3 5 false home
      ≡ ok (some (any, record home { clients = cs })))
    × KeepsOthers 5 6 home (record home { clients = cs })
    × (find_client (record home { clients = cs }) 6 ≡ some to')
    × ((c : ClientImpl) → c.input ≡ to'.output → Receives c (map (sent_by 7 5) twice))
unfolding find_client Map.find
drain-Receives_example =
    drain-Receives lies fifo-IsQueue twice [] 3 5 6 false home talker talked from to [] [] refl refl
      talker-Sends refl refl refl refl refl refl (omega arith) (omega arith) tt
      (hello-IsPassed, (hello-IsPassed, tt)) ((inl refl, refl), ((inl refl, refl), tt))
      (refl, (refl, tt)) (omega arith)

-- Node 1, with the sender, connected to node 7 by connection 3.
abbrev peer : Node
peer = record {
  is_connecting = false;
  resolve_state = resolved;
  node_address = 7;
  address = some 3;
  messages_to_deliver = none;
  weak_conn = some 3;
}

abbrev near : Server
near = record home {
  self_address = 1;
  nodes = (7, peer) ∷ [];
  nodes_index = (3, 7) ∷ [];
  clients = (5, from) ∷ [];
}

near-Peer : Peer near 7 3
unfolding find_node Map.find Node.is_not_resolved_node
near-Peer = record {
  node = peer;
  found = refl;
  known = refl;
  linked = refl;
  not_self = λ e. absurd (omega arith);
  not_local = λ e. absurd (omega arith);
}

abbrev as_sent : List ℕ
as_sent = serialize (sent_by 1 5 hello)

drain-on_message_bytes_example :
    (any : Bool) × (cs : List (ℕ × ClientInfo)) × (ns : List (ℕ × Node)) × (ds : List
      (ℕ × ClientInfo))
    × (to' : ClientInfo) × (drain 3 5 false near
        ≡ ok (some (any, record near { clients = cs; nodes = ns; net = as_sent ∷ as_sent ∷ [] })))
    × (on_message_bytes 3 home 8 (wire (map (sent_by 1 5) twice) ++ begun)
        ≡ consumed (length (wire (map (sent_by 1 5) twice))) (ok (record home { clients = ds })))
    × (find_client (record home { clients = ds }) 6 ≡ some to')
    × ((c : ClientImpl) → c.input ≡ to'.output → Receives c (map (sent_by 1 5) twice))
    × ((k : ℕ) → 6 ≢ k → find_client (record home { clients = ds }) k ≡ find_client home k)
unfolding find_client Map.find
drain-on_message_bytes_example =
    drain-on_message_bytes lies fifo-IsQueue twice [] 3 5 6 false near home talker talked from to []
      [] 3 8 (as_sent ∷ as_sent ∷ []) begun refl refl talker-Sends refl refl refl near-Peer refl
      refl refl (omega arith) (omega arith) tt (hello-IsPassed, (hello-IsPassed, tt))
      (refl, (refl, tt)) ((refl, refl), ((refl, refl), tt))
      (refl, refl, as_sent ∷ [], refl, (refl, refl, as_sent ∷ as_sent ∷ [], refl, refl))
      (refl, (refl, tt)) begun-IsBeginning (omega arith)
