-- ===== src/Server/Route/Answered.antt =====
-- An answer of the resolve server that opens a connection for what waited (UpdateNodeAddressCache in
-- cpm/cpm_server.cc), and the message behind it.
use cpmd.Base.{ℕ, ◌≡◌, refl, ◌∙◌, true, false, none, some}
use cpmd.Base.Map
use cpmd.Base.Map.{nat_key}
use cpmd.Base.Outcome.{ok, aborted}
use cpmd.Alpha.{Alpha}
use cpmd.Message.{Message}
use cpmd.Node.{Node, ResolveState, resolved}
use cpmd.Node
use cpmd.Protocol.{ok_code}
use cpmd.Protocol.Response.{ResolveResponse}
use cpmd.Server.{Server, find_node, find_node_by_net_address, put_node, register_node}
use cpmd.Server.Resolver.{resolve, update_node, connect_waiting, update_node_address_cache}
use cpmd.Server.Route.{open_at, handle_to_remote_message}
use cpmd.Server.Route.Waiting.{
  connected-none, put_node-found, to_known_node-opens, handle_to_remote_message-known,
  resolved-settled,
}

module _ ⦃α : Alpha⦄ where
  open_at-registered :
      (s : Server) (k j : ℕ) (n : Node) (a : α.NetAddress)
      → n.address ≡ some a
      → find_node_by_net_address s a ≡ some j
      → open_at k n s ≡ aborted
  unfolding open_at register_node Node.net_address find_node_by_net_address
  open_at-registered s k j n a h g =
      rw (h, Map.emplace-eq_some ⦃o = α.net_key⦄ a k j s.nodes_index g)

  -- A node that is resolved but neither connected nor marked as connecting, whose address is
  -- registered already: the next message for it fails the assert of RegisterNode.
  pub handle_to_remote_message-registered :
      (s : Server) (k j : ℕ) (n : Node) (a : α.NetAddress) (m : Message)
      → find_node s k ≡ some n
      → m.to.node_addr ≡ k
      → n.address ≡ some a
      → find_node_by_net_address s a ≡ some j
      → Node.is_resolved_node n ≡ true
      → Node.connecting n ≡ false
      → Node.connected s.net n ≡ false
      → handle_to_remote_message s m ≡ aborted
  handle_to_remote_message-registered s k j n a m f e h g r c d =
      let (known, settled) = resolved-settled n r in
      handle_to_remote_message-known k s m n e f known
      ∙ to_known_node-opens k n m s r settled c d
      ∙ open_at-registered s k j n a h g

  -- The node, and what the answer makes of it.
  module _ (s : Server) (resp : ResolveResponse) (n : Node) where
    abbrev pub answered : Node
    answered = Node.set_net_address n (α.make_address resp.node_ip resp.node_port)

    abbrev pub opened : Server
    opened = record (put_node resp.node_addr answered s) {
      nodes_index =
          Map.insert ⦃o = α.net_key⦄ (α.make_address resp.node_ip resp.node_port) resp.node_addr
            s.nodes_index;
      net = α.connect_to s.net (α.make_address resp.node_ip resp.node_port);
    }

    update_node-answered :
        Node.is_resolved_node n ≡ false
        → resp.code ≡ ok_code
        → update_node (some n) s resp ≡ ok (put_node resp.node_addr answered s)
    unfolding update_node resolve
    update_node-answered r c = rw (r, c)

    answered-connected : (w : α.World) → n.weak_conn ≡ none → Node.connected w answered ≡ false
    unfolding Node.set_net_address
    answered-connected w h = connected-none w answered h

    answered-connecting : Node.connecting n ≡ false → Node.connecting answered ≡ false
    unfolding Node.connecting Node.set_net_address
    answered-connecting b = b

    answered-address : answered.address ≡ some (α.make_address resp.node_ip resp.node_port)
    unfolding Node.set_net_address
    answered-address = refl

    pub registered_opened :
        find_node_by_net_address s (α.make_address resp.node_ip resp.node_port) ≡ none
        → find_node_by_net_address opened (α.make_address resp.node_ip resp.node_port)
          ≡ some resp.node_addr
    unfolding find_node_by_net_address
    registered_opened free =
        Map.find-insert_self ⦃o = α.net_key⦄ (α.make_address resp.node_ip resp.node_port)
          resp.node_addr s.nodes_index free

    pub answered-cached : Node.has_cached_message n ≡ true → Node.has_cached_message answered ≡ true
    unfolding Node.has_cached_message Node.set_net_address
    answered-cached w = w

    answered-is_resolved : Node.is_resolved_node answered ≡ true
    unfolding Node.is_resolved_node Node.set_net_address
    answered-is_resolved = refl

    answered-net_address :
        Node.net_address answered ≡ ok (α.make_address resp.node_ip resp.node_port)
    unfolding Node.net_address Node.set_net_address
    answered-net_address = refl

    pub connect_waiting-opens :
        Node.has_cached_message n ≡ true
        → n.weak_conn ≡ none
        → find_node_by_net_address s (α.make_address resp.node_ip resp.node_port) ≡ none
        → connect_waiting (put_node resp.node_addr answered s) resp.node_addr answered ≡ ok opened
    unfolding connect_waiting register_node put_node find_node_by_net_address
    connect_waiting-opens w h free = rw (
      answered-cached w,
      answered-connected s.net h,
      answered-is_resolved,
      answered-net_address,
      Map.emplace-eq_none ⦃o = α.net_key⦄ (α.make_address resp.node_ip resp.node_port)
          resp.node_addr s.nodes_index free,
    )

    pub found_opened :
        find_node s resp.node_addr ≡ some n → find_node opened resp.node_addr ≡ some answered
    unfolding find_node put_node
    found_opened e = Map.find-set_self resp.node_addr answered n s.nodes e

    -- The answer to a resolution, for a node with messages that wait and no connection, at an
    -- address that is not registered, opens a connection and registers the node but does not mark
    -- it as connecting: the next message for the node before the connection comes fails an assert
    -- and stops cpmd.
    pub update_node_address_cache-aborts :
        (m : Message)
        → find_node s resp.node_addr ≡ some n
        → resp.code ≡ ok_code
        → Node.is_resolved_node n ≡ false
        → Node.connecting n ≡ false
        → Node.has_cached_message n ≡ true
        → n.weak_conn ≡ none
        → find_node_by_net_address s (α.make_address resp.node_ip resp.node_port) ≡ none
        → m.to.node_addr ≡ resp.node_addr
        → (update_node_address_cache s resp ≡ ok (opened, true))
          × (handle_to_remote_message opened m ≡ aborted)
    unfolding update_node_address_cache
    update_node_address_cache-aborts m e c r b w h free to_node = (
      rw (
        e,
        update_node-answered r c,
        put_node-found s resp.node_addr answered n e,
        connect_waiting-opens w h free,
      ),
      handle_to_remote_message-registered opened resp.node_addr resp.node_addr answered
          (α.make_address resp.node_ip resp.node_port) m (found_opened e) to_node answered-address
          (registered_opened free) answered-is_resolved (answered-connecting b)
          (answered-connected opened.net h),
    )
