-- ===== src/Resolve/Service/Admits.antt =====
-- The first request of a node (cpm/cpm_server.cc) at the resolve server (cpm/cpm_resolve_server.cc).
use cpmd.Base.{arith, ℕ, ◌≡◌, refl, true, none, some, List, ◌++◌}
use cpmd.Base.Map
use cpmd.Base.Map.{nat_key}
use cpmd.Base.Outcome.{ok}
use cpmd.Alpha.{Alpha}
use cpmd.Message.Layout.{IsWord}
use cpmd.Protocol.{ProtocolMessage, serialize, message_at}
use cpmd.Protocol.Request.{ResolveRequest, initialize_self}
use cpmd.Protocol.Request
use cpmd.Resolve.Conf.{ConfNode, get_node_info_by_net_address}
use cpmd.Resolve.Service.{
  Service, timer, node, context, init_reply, admit, handle_node_init, dispatch, reply_bytes,
  respond, on_message,
}
use cpmd.Resolve.Service.Answer.{Fits, init_reply-eq}
use cpmd.Resolve.Service.Valid.{registry}
use cpmd.Server.{Server}
use cpmd.Server.Resolver.{init_request}
use cpmd.Server.Resolver.Requests.{init_request-of_data, init_request-has_fields}

module _ ⦃α : Alpha⦄ (s : Service) (c : α.Conn) (n : ConfNode) (id : ℕ) where
  -- The server when the connection is registered under the node's address.
  admitted : Service
  admitted = record s {
    connections = Map.insert n.node_addr c s.connections;
    contexts = Map.assign ⦃o = α.conn_key⦄ c (node n.node_addr) s.contexts;
    net = α.remove_timer s.net id;
  }

  admit-eq :
      registry s n.node_addr ≡ none → context s c ≡ some (timer id) → admit n s c ≡ ok admitted
  unfolding admit admitted
  admit-eq free waits = rw (Map.emplace-eq_none n.node_addr c s.connections free, waits) refl

  module _ (memory : List ℕ) (m : ProtocolMessage) (port : ℕ) where
    answered :
        (reply : ProtocolMessage)
        → Request.has_fields m.data_ ≡ true
        → (Request.of_data m.data_).type_ ≡ initialize_self
        → (Request.of_data m.data_).cpmd_port ≡ port
        → get_node_info_by_net_address s.conf (α.make_address (α.ip (α.peer_addr c)) port) ≡ some n
        → init_reply n port (α.ip (α.peer_addr c)) ≡ ok reply
        → registry s n.node_addr ≡ none
        → context s c ≡ some (timer id)
        → on_message memory s c m ≡ ok (respond admitted c true (serialize reply))
    unfolding on_message dispatch handle_node_init reply_bytes
    answered reply whole k p listed built free waits =
        rw (whole, k, p, listed, built, admit-eq free waits) refl

  admitted-registry : registry s n.node_addr ≡ none → registry admitted n.node_addr ≡ some c
  unfolding admitted
  admitted-registry free = Map.find-insert_self n.node_addr c s.connections free

  admitted-context : context admitted c ≡ some (node n.node_addr)
  unfolding admitted context
  admitted-context = ground (
    arith,
    Map.find-assign ⦃o = α.conn_key⦄ c c (node n.node_addr) s.contexts,
    α.conn_key.beq_iff c c,
  )

  -- The bytes of cpmd's first request, whatever follows them, over a connection that still waits,
  -- from a host and with a port under which the configuration has a node that nobody is registered
  -- for, whose strings fit their fields: OnMessage returns; the connection is registered under the
  -- node's address and its context holds this address; its timer is taken away, and the answer is
  -- written to it.
  pub init_request-on_message :
      (cpmd : Server) (memory rest : List ℕ)
      → IsWord cpmd.message_server_port
      → get_node_info_by_net_address s.conf
          (α.make_address (α.ip (α.peer_addr c)) cpmd.message_server_port)
        ≡ some n
      → registry s n.node_addr ≡ none
      → context s c ≡ some (timer id)
      → Fits n.node_addr cpmd.message_server_port (α.ip (α.peer_addr c)) n.readable_addr
      → (t : Service) × (reply : ProtocolMessage) × (on_message memory s c
            (message_at (serialize (init_request cpmd) ++ rest))
          ≡ ok t)
        × (init_reply n cpmd.message_server_port (α.ip (α.peer_addr c)) ≡ ok reply)
        × (t.net ≡ (α.write (α.remove_timer s.net id) c (serialize reply)).0)
        × (registry t n.node_addr ≡ some c)
        × (context t c ≡ some (node n.node_addr))
  unfolding respond admitted context
  init_request-on_message cpmd memory rest word listed free waits fits =
      let (k, p) = init_request-of_data cpmd rest word in
      let (tail, built) = init_reply-eq n cpmd.message_server_port (α.ip (α.peer_addr c)) fits in
      (
        _,
        _,
        answered memory (message_at (serialize (init_request cpmd) ++ rest))
            cpmd.message_server_port _ (init_request-has_fields cpmd rest) k p listed built free
            waits,
        built,
        refl,
        admitted-registry free,
        admitted-context,
      )
