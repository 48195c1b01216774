-- ===== src/Server/Resolver.antt =====
-- cpmd and its resolve server (cpm/cpm_server.cc): requests, reconnection, and what the answers do.
pub mod Requests
use cpmd.Base.{
  leb, length, ℕ, Bool, true, false, not, ◌&&◌, Option, none, some, List, ◌==◌, if◌then◌else◌,
}
use cpmd.Base.Outcome.{Outcome, ok, within, assert, assert_some, ◌>>=◌, ◌>>◌}
use cpmd.Alpha.{Alpha}
use cpmd.Address.{create}
use cpmd.Node.{Node, ResolveState, not_resolved}
use cpmd.Node
use cpmd.Protocol.{ProtocolMessage, serialize, resolve_response, ok_code}
use cpmd.Protocol.Request
use cpmd.Protocol.Response.{ResolveResponse, update_self, update_cache}
use cpmd.Protocol.Response
use cpmd.Server.{Server, find_node, add_new_node, put_node, register_node}

-- kRetryInterval, in milliseconds.
abbrev pub retry_interval : ℕ
retry_interval = 2000

module _ ⦃α : Alpha⦄ where
  abbrev pub write_to : Server → α.Conn → List ℕ → Server
  write_to s c bytes = record s { net = (α.write s.net c bytes).0 }

  -- The message of OnConnectedToResolveServer.
  unfoldable pub init_request : Server → ProtocolMessage
  init_request s =
      Request.set_port s.message_server_port
        (Request.set_type Request.initialize_self Request.builder)

  unfoldable pub on_connected_to_resolve_server : Server → α.Conn → Server
  on_connected_to_resolve_server s c =
      let ready : Server = record s { net = α.set_on_read s.net c } in
      record (write_to ready c (serialize (init_request s))) { resolve_server_conn = some c }

  unfoldable pub reconnect_to_resolve_server : Server → α.NetAddress → Server
  reconnect_to_resolve_server s a = record s { net = α.connect_after s.net retry_interval a }

  unfoldable pub on_connected_to_resolve_server_error : Server → α.NetAddress → Server
  on_connected_to_resolve_server_error s a = reconnect_to_resolve_server s a

  unfoldable pub on_resolve_server_disconnected : Server → α.Conn → Server
  on_resolve_server_disconnected s c = record (reconnect_to_resolve_server s (α.peer_addr c)) {
    resolve_server_conn = none;
  }

  -- The message of ReqeustNodeNetAddress.
  unfoldable pub lookup_request : Server → ℕ → ProtocolMessage
  lookup_request s k = Request.set_peer_address k (
      Request.set_type Request.lookup_node
        (Request.set_self_address s.self_address Request.builder))

  unfoldable pub request_over : Option α.Conn → Server → ℕ → Server
  request_over none s k = s
  request_over (some c) s k =
      if not (α.closed s.net c) then write_to s c (serialize (lookup_request s k)) else s

  -- ReqeustNodeNetAddress
  unfoldable pub request_node_net_address : Server → ℕ → Server
  request_node_net_address s k = request_over s.resolve_server_conn s k

  unfoldable pub update_self_address : Server → ResolveResponse → Outcome (Server × Bool)
  update_self_address s resp = do
    addr ← create resp.node_path
    if not (addr.node_addr == resp.node_addr)
        then ok (s, false)
        else ok (record s { self_address = resp.node_addr }, true)

  -- The node after the answer, where it was resolved before.
  unfoldable pub refresh : ResolveResponse → Node → Node
  refresh resp n =
      if resp.code == ok_code
      then Node.set_net_address n (α.make_address resp.node_ip resp.node_port)
      else Node.set_resolve_state n not_resolved

  -- The node after the answer, where it was not.
  unfoldable pub resolve : ResolveResponse → Node → Node
  resolve resp n =
      if resp.code == ok_code
      then Node.set_net_address n (α.make_address resp.node_ip resp.node_port)
      else n

  -- The first if of UpdateNodeAddressCache.
  unfoldable pub update_node : Option Node → Server → ResolveResponse → Outcome Server
  update_node none s resp = do
    assert (resp.code == ok_code)
    s' ← add_new_node s resp.node_addr
    let n =
        Node.set_net_address (Node.new resp.node_addr) (α.make_address resp.node_ip resp.node_port)
    ok (put_node resp.node_addr n s')
  update_node (some n) s resp =
      if Node.is_resolved_node n
      then ok (put_node resp.node_addr (refresh resp n) s)
      else ok (put_node resp.node_addr (resolve resp n) s)

  -- Its last if.
  unfoldable pub connect_waiting : Server → ℕ → Node → Outcome Server
  connect_waiting s k n =
      if Node.has_cached_message n && not (Node.connected s.net n) && Node.is_resolved_node n
      then (do a ← Node.net_address n; register_node k n (record s { net = α.connect_to s.net a }))
      else ok s

  unfoldable pub update_node_address_cache : Server → ResolveResponse → Outcome (Server × Bool)
  update_node_address_cache s resp = do
    s' ← update_node (find_node s resp.node_addr) s resp
    n ← assert_some (find_node s' resp.node_addr)
    s'' ← connect_waiting s' resp.node_addr n
    ok (s'', true)

  -- UpdateSelfAddress reads the path, and UpdateNodeAddressCache the host; the type itself is the
  -- second number. Every case of the switch returns, so the close that stands behind it is not reached.
  unfoldable pub handle_resolve_server_message : Server → α.Conn → ProtocolMessage → Outcome Server
  handle_resolve_server_message s c m =
      if not (m.kind == resolve_response)
      then ok (record s { net = α.close s.net c })
      else let resp = Response.of_data m.data_ in
        if resp.type_ == update_self
        then (do
          within (Response.path_ends m.data_)
          (s', preserve) ← update_self_address s resp
          ok s')
        else if resp.type_ == update_cache
        then (do
          within (Response.ip_ends m.data_)
          (s', preserve) ← update_node_address_cache s resp
          ok s')
        else (do within (leb 4 (length m.data_)); ok s)
