-- ===== src/Server/Route.antt =====
-- The ways of a message through cpmd (cpm/cpm_server.cc): to a local client, to another node, and
-- from another node.
pub mod Delivery
pub mod Waiting
pub mod Stranded
pub mod Forwarding
pub mod Answered
use cpmd.Base.{
  ℕ, Bool, true, false, not, ◌||◌, Option, none, some, List, [], ◌==◌, is_some, if◌then◌else◌,
}
use cpmd.Base.Map
use cpmd.Base.Map.{nat_key}
use cpmd.Base.Outcome.{Outcome, ok, assert, assert_some, deref, ◌>>=◌, ◌>>◌}
use cpmd.Alpha.{Alpha}
use cpmd.Address.{Address}
use cpmd.Message.{Message}
use cpmd.Message
use cpmd.Node.{Node, ResolveState, resolving}
use cpmd.Node
use cpmd.Client.{ClientInfo, write_message}
use cpmd.Server.{Server, find_node, add_new_node, put_node, register_node}
use cpmd.Server.Resolver.{request_node_net_address}

-- `auto droped = Message::Default ()`; none of its fields depends on what it is made over.
abbrev pub blank : Message
blank = record {
  from = record { node_addr = 0; client_addr = 0 };
  to = record { node_addr = 0; client_addr = 0 };
  magic = 0;
  len = 0;
  data_ = [];
}

unfoldable pub droped : Option Message
droped = some (Message.default blank)

module _ ⦃α : Alpha⦄ where
  unfoldable pub find_client : Server → ℕ → Option ClientInfo
  find_client s a = Map.find a s.clients

  unfoldable pub put_client : ℕ → ClientInfo → Server → Server
  put_client a c s = record s { clients = Map.set a c s.clients }

  -- WriteMessage through the iterator at a client; that the bus was full is only logged.
  unfoldable pub write_client : ℕ → Option ClientInfo → Message → Server → Outcome Server
  write_client a none m s = ok s
  write_client a (some c) m s = do (c', done) ← write_message c m; ok (put_client a c' s)

  -- A message that another node sent: the server, and whether its connection is kept.
  unfoldable pub handle_remote_message : Server → Message → Outcome (Server × Bool)
  handle_remote_message s m =
      if not (m.to.node_addr == s.self_address)
      then ok (s, false)
      else do s' ← write_client m.to.client_addr (find_client s m.to.client_addr) m s; ok (s', true)

  unfoldable pub handle_remote_node_message : Server → α.Conn → Message → Outcome Server
  handle_remote_node_message s c m = do
    (s', preserve) ← handle_remote_message s m
    ok (if preserve then s' else record s' { net = α.close s'.net c })

  unfoldable pub handle_to_local_message : Server → Message → Outcome Server
  handle_to_local_message s m = do
    assert (m.to.node_addr == s.self_address || m.to.node_addr == 0)
    source ← deref (find_client s m.from.client_addr)
    write_client m.to.client_addr (find_client s m.to.client_addr) m s

  -- node->CacheMessage (*m, &droped)
  unfoldable pub cache_at : ℕ → Node → Message → Server → Outcome Server
  cache_at k n m s = do (n', out) ← Node.cache_message n m droped; ok (put_node k n' s)

  -- node->SendMessage (*m, &droped)
  unfoldable pub send_at : ℕ → Node → Message → Server → Outcome Server
  send_at k n m s = do
    (w, n', out) ← Node.send_message s.net n m droped
    ok (put_node k n' (record s { net = w }))

  -- The branch that opens a connection.
  unfoldable pub open_at : ℕ → Node → Server → Outcome Server
  open_at k n s = do
    s' ← register_node k n s
    a ← Node.net_address n
    ok (put_node k (Node.set_connecting n true) (record s' { net = α.connect_to s'.net a }))

  -- The ladder over the states of a node whose resolution has begun.
  unfoldable pub to_known_node : ℕ → Node → Message → Server → Outcome Server
  to_known_node k n m s =
      if Node.connected s.net n
      then send_at k n m s
      else if Node.connecting n
      then cache_at k n m s
      else if Node.is_resolving_node n
      then cache_at k n m s
      else if Node.is_resolved_node n
      then open_at k n s
      else ok s

  -- The other branch, behind AddNewNode.
  unfoldable pub to_unresolved_node : ℕ → Node → Message → Server → Outcome Server
  to_unresolved_node k n m s = do
    assert (Node.is_not_resolved_node n)
    let s' = if is_some s.resolve_server_conn then request_node_net_address s k else s
    let n' = if is_some s.resolve_server_conn then Node.set_resolve_state n resolving else n
    cache_at k n' m s'

  unfoldable pub to_remote : Option Node → Message → Server → Outcome Server
  to_remote none m s = do
    s' ← add_new_node s m.to.node_addr
    to_unresolved_node m.to.node_addr (Node.new m.to.node_addr) m s'
  to_remote (some n) m s =
      if not (Node.is_not_resolved_node n)
      then to_known_node m.to.node_addr n m s
      else to_unresolved_node m.to.node_addr n m s

  unfoldable pub handle_to_remote_message : Server → Message → Outcome Server
  handle_to_remote_message s m = to_remote (find_node s m.to.node_addr) m s
