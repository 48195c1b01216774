-- ===== src/Server.antt =====
-- cpm/cpm_server.h and cpm/cpm_server.cc: the state of cpmd, and its tables of nodes and clients.
-- A `Node*` is the key of its node in `nodes`, since nodes are never taken out. What the handlers
-- do to connections, timers and buses goes to `net`. Logging is left out.
pub mod Resolver
pub mod Peers
pub mod Route
pub mod Bus
pub mod Init
pub mod Tables
pub mod Events
pub mod Safety
pub mod Start
pub mod Incoming
use cpmd.Base.{ℕ, ◌≡◌, Bool, true, false, not, ◌&&◌, Option, none, some, List, [], ◌∷◌, is_some}
use cpmd.Base.Map
use cpmd.Base.Map.{nat_key}
use cpmd.Base.Outcome.{Outcome, ok, assert, assert_some, ◌>>=◌, ◌>>◌}
use cpmd.Alpha.{Alpha}
use cpmd.Node.{Node}
use cpmd.Node
use cpmd.Client.{ClientInfo}

module _ ⦃α : Alpha⦄ where
  pub record Server : Type 0 where
    pub message_server_port : ℕ
    pub connected_nodes : ℕ
    pub self_address : ℕ
    pub bus_location : List ℕ
    pub resolve_server_address : α.NetAddress
    pub resolve_server_conn : Option α.Conn
    pub nodes : List (ℕ × Node)
    pub nodes_index : List (α.NetAddress × ℕ)
    pub clients : List (ℕ × ClientInfo)
    pub net : α.World

  unfoldable pub find_node : Server → ℕ → Option Node
  find_node s k = Map.find k s.nodes

  -- The key of the node that is registered under an address.
  unfoldable pub find_node_by_net_address : Server → α.NetAddress → Option ℕ
  find_node_by_net_address s a = Map.find ⦃o = α.net_key⦄ a s.nodes_index

  unfoldable pub add_new_node : Server → ℕ → Outcome Server
  add_new_node s k = do
    let (nodes, added) = Map.emplace k (Node.new k) s.nodes
    assert added
    ok (record s { nodes = nodes })

  -- A change of the node that a pointer points to.
  unfoldable pub put_node : ℕ → Node → Server → Server
  put_node k n s = record s { nodes = Map.set k n s.nodes }

  unfoldable pub register_node : ℕ → Node → Server → Outcome Server
  register_node k n s = do
    a ← Node.net_address n
    let (index, added) = Map.emplace ⦃o = α.net_key⦄ a k s.nodes_index
    assert added
    ok (record s { nodes_index = index })

  unfoldable pub unregister_node : Node → Server → Outcome Server
  unregister_node n s = do
    a ← Node.net_address n
    assert (is_some (Map.find ⦃o = α.net_key⦄ a s.nodes_index))
    ok (record s { nodes_index = Map.erase ⦃o = α.net_key⦄ a s.nodes_index })

  unfoldable pub is_resolve_server_address : Server → α.NetAddress → Bool
  is_resolve_server_address s a = α.net_key.beq a s.resolve_server_address
