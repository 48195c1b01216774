-- ===== src/Server/Peers.antt =====
-- cpmd's connections (cpm/cpm_server.cc): what happens when one opens, fails to open, or closes, to
-- the resolve server or to another node. A count of nodes is the pattern of an int.
use cpmd.Base.{ℕ, ◌+◌, ◌-◌, ◌%◌, ◌^◌, false, if◌then◌else◌}
use cpmd.Base.Outcome.{Outcome, ok, assert_some, ◌>>=◌}
use cpmd.Alpha.{Alpha}
use cpmd.Node.{Node}
use cpmd.Node
use cpmd.Server.{
  Server, find_node, find_node_by_net_address, put_node, unregister_node, is_resolve_server_address,
}
use cpmd.Server.Resolver.{
  on_connected_to_resolve_server, on_connected_to_resolve_server_error,
  on_resolve_server_disconnected,
}

module _ ⦃α : Alpha⦄ where
  -- FindNodeByNetAddress with the assert on its result: the node and its key.
  unfoldable pub registered_node : Server → α.NetAddress → Outcome (ℕ × Node)
  registered_node s a = do
    k ← assert_some (find_node_by_net_address s a)
    n ← assert_some (find_node s k)
    ok (k, n)

  unfoldable pub on_connected_to_remote_node : Server → α.Conn → Outcome Server
  on_connected_to_remote_node s c = do
    (k, n) ← registered_node s (α.peer_addr c)
    (w, n') ← Node.set_connection s.net n c
    ok (put_node k n' (record s { net = w }))

  unfoldable pub on_connect_to_remote_node_error : Server → α.NetAddress → Outcome Server
  on_connect_to_remote_node_error s a = do
    (k, n) ← registered_node s a
    unregister_node (Node.set_connecting n false) (put_node k (Node.set_connecting n false) s)

  -- Nothing calls it.
  unfoldable pub on_remote_node_connected : Server → α.Conn → Server
  on_remote_node_connected s c = record s { connected_nodes = (s.connected_nodes + 1) % 2 ^ 32 }

  unfoldable pub on_remote_node_disconnected : Server → α.Conn → Outcome Server
  on_remote_node_disconnected s c = do
    let s' : Server = record s { connected_nodes = (s.connected_nodes + (2 ^ 32 - 1)) % 2 ^ 32 }
    (k, n) ← registered_node s' (α.peer_addr c)
    unregister_node (Node.clear_connection n) (put_node k (Node.clear_connection n) s')

  unfoldable pub on_connected_to_remote : Server → α.Conn → Outcome Server
  on_connected_to_remote s c =
      if is_resolve_server_address s (α.peer_addr c)
      then ok (on_connected_to_resolve_server s c)
      else on_connected_to_remote_node s c

  unfoldable pub on_connect_to_remote_error : Server → α.NetAddress → Outcome Server
  on_connect_to_remote_error s a =
      if is_resolve_server_address s a
      then ok (on_connected_to_resolve_server_error s a)
      else on_connect_to_remote_node_error s a

  unfoldable pub on_connect_to_remote_close : Server → α.Conn → Outcome Server
  on_connect_to_remote_close s c =
      if is_resolve_server_address s (α.peer_addr c)
      then ok (on_resolve_server_disconnected s c)
      else on_remote_node_disconnected s c
