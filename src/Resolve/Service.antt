-- ===== src/Resolve/Service.antt =====
-- cpm/cpm_resolve_server.h and cpm/cpm_resolve_server.cc: the resolve server. A connection's context
-- (boost::any in the connection) stands in a map from connections; a connection without a context
-- has no entry.
pub mod Steps
pub mod Agree
pub mod Valid
pub mod Reach
pub mod Lookup
pub mod Twice
pub mod Answer
pub mod Admits
pub mod Asked
use cpmd.Base.{
  ℕ, ◌+◌, Bool, true, false, not, Option, none, some, List, [], take, drop, ltb, ◌==◌, is_some,
  if◌then◌else◌,
}
use cpmd.Base.Map
use cpmd.Base.Map.{nat_key}
use cpmd.Base.Outcome.{within, Outcome, ok, invalid, assert, assert_some, ◌>>=◌, ◌>>◌}
use cpmd.Alpha.{Alpha}
use cpmd.Boost.{PropertyTree}
use cpmd.Protocol.{
  ProtocolMessage, serialize, half, ok_code, node_not_found, min_protocol_message_size,
  sizeof_protocol_message,
}
use cpmd.Protocol.Request.{ResolveRequest, initialize_self, lookup_node}
use cpmd.Protocol.Request
use cpmd.Protocol.Response.{
  builder, set_code, set_type, set_node_address, set_node_port, set_node_ip, set_node_path,
  update_self, update_cache,
}
use cpmd.Resolve.Conf.{
  ConfNode, Conf, get_node_info_by_net_address, get_node_info_by_node_address, create_from_file,
}

-- kMaxWaitTime, in milliseconds.
abbrev pub max_wait_time : ℕ
max_wait_time = 2000

-- TimerManager::TimerId or Address::NodeAddressType, which are two types.
pub data Context : Type 0 where
  timer : ℕ → Context
  node : ℕ → Context

-- GetContext<TimerId> and GetContext<NodeAddressType>
abbrev pub timer_of : Option Context → Option ℕ
timer_of none = none
timer_of (some (timer id)) = some id
timer_of (some (node a)) = none

abbrev pub node_of : Option Context → Option ℕ
node_of none = none
node_of (some (timer id)) = none
node_of (some (node a)) = some a

-- What is written for a reply. `none` is the object that no builder has touched: `memory` is what
-- lies there, and a length beyond the object reads past its end.
unfoldable pub reply_bytes : List ℕ → Option ProtocolMessage → Outcome (List ℕ)
reply_bytes memory (some m) = ok (serialize m)
reply_bytes memory none =
    if ltb sizeof_protocol_message (min_protocol_message_size + half (drop 8 memory))
    then invalid
    else ok (take (min_protocol_message_size + half (drop 8 memory)) memory)

module _ ⦃α : Alpha⦄ where
  pub record Service : Type 0 where
    pub conf : Conf
    pub connections : List (ℕ × α.Conn)
    pub contexts : List (α.Conn × Context)
    pub net : α.World

  unfoldable pub context : Service → α.Conn → Option Context
  context s c = Map.find ⦃o = α.conn_key⦄ c s.contexts

  -- ResolveServer::Run
  unfoldable pub run : Option Conf → α.World → Outcome (Option Service)
  run none w = ok none
  run (some conf) w = do
    a ← assert_some conf.service_address
    let (w', up) = α.listen w a
    ok (
        if up
        then some (record { conf = conf; connections = []; contexts = []; net = w' })
        else none)

  -- The constructor, and Run.
  unfoldable pub serve : (β : PropertyTree) → List ℕ → α.World → Outcome (Option Service)
  serve β file w = create_from_file β file >>= λ conf. run conf w

  unfoldable pub on_new_connection : Service → α.Conn → Service
  on_new_connection s c =
      let (w, id) = α.close_after s.net max_wait_time c in
      record s { net = w; contexts = Map.assign ⦃o = α.conn_key⦄ c (timer id) s.contexts }

  -- The if of OnClose.
  unfoldable pub leave : Option ℕ → Service → Outcome Service
  leave none s = ok s
  leave (some a) s = do
    assert (is_some (Map.find a s.connections))
    ok (record s { connections = Map.erase a s.connections })

  unfoldable pub on_close : Service → α.Conn → Outcome Service
  on_close s c = leave (node_of (context s c)) s

  unfoldable pub kick_off_node : Service → α.Conn → Service
  kick_off_node s c = if α.alive s.net c then record s { net = α.close s.net c } else s

  -- The reply of HandleNodeInit.
  unfoldable pub init_reply : ConfNode → ℕ → List ℕ → Outcome ProtocolMessage
  init_reply n port ip = do
    let m : ProtocolMessage = set_code ok_code builder
    let m' : ProtocolMessage =
        set_node_port port (set_node_address n.node_addr (set_type update_self m))
    m'' ← set_node_ip ip m'
    set_node_path n.readable_addr m''

  -- Its changes of the server.
  unfoldable pub admit : ConfNode → Service → α.Conn → Outcome Service
  admit n s c = do
    let (connections, added) = Map.emplace n.node_addr c s.connections
    assert added
    id ← assert_some (timer_of (context s c))
    ok (record s {
      connections = connections;
      contexts = Map.assign ⦃o = α.conn_key⦄ c (node n.node_addr) s.contexts;
      net = α.remove_timer s.net id;
    })

  abbrev pub init_node :
      Option ConfNode → Service → α.Conn → ℕ → Outcome (Service × Option ProtocolMessage × Bool)
  init_node none s c port = ok (s, some (set_code node_not_found builder), false)
  init_node (some n) s c port = do
    reply ← init_reply n port (α.ip (α.peer_addr c))
    s' ← admit n s c
    ok (s', some reply, true)

  unfoldable pub handle_node_init :
      Service → α.Conn → ResolveRequest → Outcome (Service × Option ProtocolMessage × Bool)
  handle_node_init s c req =
      init_node
        (get_node_info_by_net_address s.conf (α.make_address (α.ip (α.peer_addr c)) req.cpmd_port))
        s c req.cpmd_port

  -- The reply of HandleNodeLookup.
  unfoldable pub lookup_reply : Option ConfNode → ℕ → Outcome ProtocolMessage
  lookup_reply none k =
      ok (set_node_address k (set_code node_not_found (set_type update_cache builder)))
  lookup_reply (some n) k = do
    assert (n.node_addr == k)
    m ← set_node_ip (α.ip n.net_addr) (set_code ok_code (set_type update_cache builder))
    set_node_path n.readable_addr
        (set_node_address n.node_addr (set_node_port (α.port n.net_addr) m))

  -- HandleNodeLookup behind its search of the connections.
  abbrev pub lookup_for :
      Option α.Conn → Service → ResolveRequest → Outcome (Option ProtocolMessage × Bool)
  lookup_for none s req = ok (none, false)
  lookup_for (some d) s req = do
    a ← assert_some (node_of (context s d))
    if not (req.self_addr == a) then ok (none, false) else (do
      reply ← lookup_reply (get_node_info_by_node_address s.conf req.peer_addr) req.peer_addr
      ok (some reply, true))

  unfoldable pub handle_node_lookup :
      Service → α.Conn → ResolveRequest → Outcome (Option ProtocolMessage × Bool)
  handle_node_lookup s c req = do
    assert (is_some (context s c))
    lookup_for (Map.find req.self_addr s.connections) s req

  -- The branches of OnMessage.
  unfoldable pub dispatch :
      Service → α.Conn → ResolveRequest → Outcome (Service × Option ProtocolMessage × Bool)
  dispatch s c req =
      if req.type_ == initialize_self
      then handle_node_init s c req
      else if req.type_ == lookup_node
      then (do (reply, preserve) ← handle_node_lookup s c req; ok (s, reply, preserve))
      else ok (s, none, false)

  -- Its end: the write, and the close.
  unfoldable pub respond : Service → α.Conn → Bool → List ℕ → Service
  respond s c preserve bytes =
      let w : α.World = (α.write s.net c bytes).0 in
      record s { net = if not preserve then α.close w c else w }

  unfoldable pub on_message : List ℕ → Service → α.Conn → ProtocolMessage → Outcome Service
  on_message memory s c m = do
    within (Request.has_fields m.data_)
    (s', reply, preserve) ← dispatch s c (Request.of_data m.data_)
    bytes ← reply_bytes memory reply
    ok (respond s' c preserve bytes)
