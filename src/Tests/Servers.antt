-- ===== src/Tests/Servers.antt =====
-- The theorems on cpmd at a server with a node, that waits for its connection, and a client.
use cpmd.Base.{ℕ, ◌≡◌, refl, false, none, some, List, [], ◌∷◌, arith}
use cpmd.Base.Map
use cpmd.Base.Map.{nat_key}
use cpmd.Base.Outcome.{Safe}
use cpmd.Node.{Node, ResolveState, resolved, resolving}
use cpmd.Node
use cpmd.Client.{ClientInfo}
use cpmd.Server.{Server, find_node}
use cpmd.Server.Tables.{NodeIsValid, ClientIsValid, Inv}
use cpmd.Server.Route.{handle_to_remote_message}
use cpmd.Server.Route.Waiting.{handle_to_remote_message-opens}
use cpmd.Server.Events.{Event, connected, connection_closed, remote_message, handle_all}
use cpmd.Server.Safety.Handlers.{AfterInv, handle_all-Inv}
use cpmd.Tests.Net.{net, hello}
use cpmd.Tests.Nodes.{waiting, waiting-QueueIsValid}

abbrev pub client : ClientInfo
client = record {
  name = b'c' ∷ [];
  addr = record { node_addr = 0; client_addr = 5 };
  input = some [];
  output = some [];
}

-- A server with one node.
abbrev pub home : Node → Server
home n = record {
  message_server_port = 80;
  connected_nodes = 0;
  self_address = 1;
  bus_location = b'/' ∷ [];
  resolve_server_address = 2;
  resolve_server_conn = none;
  nodes = (7, n) ∷ [];
  nodes_index = (3, 7) ∷ [];
  clients = (5, client) ∷ [];
  net = [];
}

pub find_one :
    {V : Type 0} (k j : ℕ) (v x : V) → Map.find k ((j, v) ∷ []) ≡ some x → (j ≡ k) × (v ≡ x)
unfolding Map.find
find_one k j v x e = ground arith

waiting-NodeIsValid : NodeIsValid 7 waiting
waiting-NodeIsValid = record {
  named = refl;
  has_address = λ e. (3, refl);
  queue = waiting-QueueIsValid;
}

client-ClientIsValid : ClientIsValid 5 client
client-ClientIsValid = record { named = refl; has_input = ([], refl); has_output = ([], refl) }

home-Inv : Inv (λ a. a ≡ 5) (home waiting)
home-Inv = record {
  nodes_valid = λ k n e.
      let (k_eq, n_eq) = find_one k 7 waiting n e in rw (← k_eq, ← n_eq) waiting-NodeIsValid;
  index_valid = λ a k e.
      let (a_eq, k_eq) = find_one a 3 7 k e in rw (← k_eq) (waiting, unfold Map.find in refl);
  clients_valid = λ a c e.
      let (a_eq, c_eq) = find_one a 5 client c e in rw (← a_eq, ← c_eq) client-ClientIsValid;
  present = λ a e. rw e (client, unfold Map.find in refl);
}

-- The node's connection comes, a message from it, for nobody, and the connection is lost.
abbrev story : List Event
story = connected 3 ∷ remote_message 3 hello ∷ connection_closed 3 ∷ []

handle_all-Inv_example : Safe (AfterInv (λ a. a ≡ 5)) (handle_all story (home waiting))
handle_all-Inv_example = handle_all-Inv (λ a. a ≡ 5) story (home waiting) home-Inv

-- The node, resolved and not connected.
abbrev idle : Node
idle = record waiting { is_connecting = false }

handle_to_remote_message-opens_example :
    handle_to_remote_message (home idle) (record hello { len = 1 })
    ≡ handle_to_remote_message (home idle) hello
unfolding find_node Map.find Node.is_resolved_node Node.connecting Node.connected Node.lock
handle_to_remote_message-opens_example =
    handle_to_remote_message-opens (home idle) hello (record hello { len = 1 }) idle refl refl refl
      refl refl
