-- ===== src/Delivery/Leaving.antt =====
-- From a client to a connection: the rounds of Server::HandleBusMessage (cpm/cpm_server.cc) over the
-- bus of a client that sends to another node, to which this node is connected.
use cpmd.Base.{
  ℕ, zero, suc, ◌<◌, ◌≡◌, ◌≢◌, refl, ap, ◌∙◌, Bool, true, false, ◌||◌, Option, some, List, [], ◌∷◌,
  map, length, All, ◌==◌, arith,
}
use cpmd.Base.Map
use cpmd.Base.Map.{nat_key}
use cpmd.Base.Outcome.{ok}
use cpmd.Alpha.{Alpha}
use cpmd.Message.{Message, serialize, set_source_address}
use cpmd.Node.{Node, send_message_directly}
use cpmd.Node
use cpmd.Client.{ClientInfo}
use cpmd.Library.Limits.{serialize-limits}
use cpmd.Server.{Server, find_node, put_node}
use cpmd.Server.Route.{
  droped, find_client, put_client, send_at, to_known_node, to_remote, handle_to_remote_message,
}
use cpmd.Server.Bus.{dispatch, drain}
use cpmd.Delivery.{trimmed, sent_by, IsPassed, IsQueue}
use cpmd.Delivery.Rounds.{find-put_self, drain-suc, drain-nothing}

module _ ⦃α : Alpha⦄ where
  -- The connection is open whenever a message is written on it, and every write succeeds.
  abbrev pub Carries : α.Conn → α.World → List Message → α.World → Type 0
  Carries conn w [] u = w ≡ u
  Carries conn w (m ∷ ms) u =
      (α.alive w conn ≡ true)
      × (α.closed w conn ≡ false)
      × (v : α.World) × (α.write w conn (serialize m) ≡ (v, true))
      × Carries conn v ms u

  -- The node at the key is known, and has this connection.
  pub record Peer (s : Server) (k : ℕ) (conn : α.Conn) : Type 0 where
    pub node : Node
    pub found : find_node s k ≡ some node
    pub known : Node.is_not_resolved_node node ≡ false
    pub linked : node.weak_conn ≡ some conn
    pub not_self : k ≢ s.self_address
    pub not_local : k ≢ 0

  module _ (w v : α.World) (n : Node) (conn : α.Conn) (m : Message)
      (linked : n.weak_conn ≡ some conn) (alive : α.alive w conn ≡ true)
      (up : α.closed w conn ≡ false) where
    lock-linked : Node.lock w n.weak_conn ≡ some conn
    unfolding Node.lock
    lock-linked = ap (Node.lock w) linked ∙ rw alive

    connected-linked : Node.connected w n ≡ true
    unfolding Node.connected
    connected-linked = rw (Node.connected, lock-linked, up)

    send_message-linked :
        α.write w conn (serialize m) ≡ (v, true)
        → Node.send_message w n m droped ≡ ok (v, n, droped)
    unfolding Node.send_message Node.send_on Node.send_message_directly
    send_message-linked e = rw (Node.send_message, lock-linked, Node.send_on, up, e)

  to_remote-linked :
      (s : Server) (n : Node) (conn : α.Conn) (m : Message) (v : α.World)
      → Node.is_not_resolved_node n ≡ false
      → n.weak_conn ≡ some conn
      → α.alive s.net conn ≡ true
      → α.closed s.net conn ≡ false
      → α.write s.net conn (serialize m) ≡ (v, true)
      → to_remote (some n) m s ≡ ok (put_node m.to.node_addr n (record s { net = v }))
  unfolding to_remote to_known_node send_at
  to_remote-linked s n conn m v known linked alive up e = rw (
    known,
    connected-linked s.net v n conn m linked alive up,
    send_message-linked s.net v n conn m linked alive up e,
  )

  -- A message in dispatch.
  dispatch-away :
      (s : Server) (c : ClientInfo) (a k : ℕ) (conn : α.Conn) (m : Message) (v : α.World)
      (p : Peer s k conn)
      → c.addr.client_addr ≡ a
      → m.to.node_addr ≡ k
      → α.alive s.net conn ≡ true
      → α.closed s.net conn ≡ false
      → α.write s.net conn (serialize (sent_by s.self_address a m)) ≡ (v, true)
      → dispatch s c (trimmed m) ≡ ok (put_node k p.node (record s { net = v }))
  unfolding dispatch handle_to_remote_message set_source_address
  dispatch-away s c a k conn m v p named to alive up written =
      let sent : Message = sent_by s.self_address a m in
      rw (named, away p.not_self p.not_local)
        (ap (λ (o : Option Node). to_remote o sent s) (ap (find_node s) to ∙ p.found)
          ∙ to_remote-linked s p.node conn sent v p.known p.linked alive up written
          ∙ ap (λ (j : ℕ). ok (put_node j p.node (record s { net = v }))) to)
    where
      away :
          k ≢ s.self_address
          → k ≢ 0
          → m.to.node_addr == s.self_address || m.to.node_addr == 0 ≡ false
      away h g = ground (arith, to)

  -- One round over the sender's bus.
  round-away :
      (fuel a k : ℕ) (busy : Bool) (s : Server) (c : ClientInfo) (q : α.Bus) (m : Message)
      (conn : α.Conn) (v : α.World) (p : Peer s k conn)
      → find_client s a ≡ some c
      → c.addr.client_addr ≡ a
      → c.input ≡ some q
      → (α.bus_read q).1 ≡ some (serialize m)
      → IsPassed m
      → m.to.node_addr ≡ k
      → α.alive s.net conn ≡ true
      → α.closed s.net conn ≡ false
      → α.write s.net conn (serialize (sent_by s.self_address a m)) ≡ (v, true)
      → drain (suc fuel) a busy s
        ≡ drain fuel a true (
            put_node k p.node
              (record (put_client a (record c { input = some (α.bus_read q).0 }) s) { net = v }))
  unfolding put_client find_node
  round-away fuel a k busy s c q m conn v p found named input read passed to alive up written =
      let c' : ClientInfo = record c { input = some (α.bus_read q).0 } in
      let s1 : Server = put_client a c' s in
      let p1 : Peer s1 k conn = record {
        node = p.node;
        found = p.found;
        known = p.known;
        linked = p.linked;
        not_self = p.not_self;
        not_local = p.not_local;
      } in
      drain-suc fuel a busy s (put_node k p.node (record s1 { net = v })) c q (serialize m)
        (trimmed m) found input read ((serialize-limits m passed.valid).0 passed.short)
        (dispatch-away s1 c' a k conn m v p1 named to alive up written)

module _ ⦃α : Alpha⦄ (contents : α.Bus → List (List ℕ)) (queue : IsQueue contents) where
  -- The rounds over the sender's bus, up to the one that finds nothing.
  pub drain-Carries :
      (ms : List Message) (fuel a k : ℕ) (busy : Bool) (s : Server) (c : ClientInfo) (q : α.Bus)
      (conn : α.Conn) (u : α.World)
      → Peer s k conn
      → find_client s a ≡ some c
      → c.addr.client_addr ≡ a
      → c.input ≡ some q
      → contents q ≡ map serialize ms
      → All IsPassed ms
      → All (λ m. m.to.node_addr ≡ k) ms
      → Carries conn s.net (map (sent_by s.self_address a) ms) u
      → length ms < fuel
      → (any : Bool) × (cs : List (ℕ × ClientInfo)) × (ns : List (ℕ × Node)) × (drain fuel a busy s
          ≡ ok (some (any, record s { clients = cs; nodes = ns; net = u })))
  unfolding put_client put_node find_node find_client
  drain-Carries ms zero a k busy s c q conn u p found named input holds passed to carried h =
      absurd (omega arith)
  drain-Carries [] (suc fuel) a k busy s c q conn u p found named input holds passed to carried h =
      let c' : ClientInfo = record c { input = some (α.bus_read q).0 } in
      (
        busy,
        (put_client a c' s).clients,
        s.nodes,
        drain-nothing fuel a busy s c q found input (queue.reads_nothing q holds).0
            ∙ ap (λ (w : α.World). ok (some (busy, record (put_client a c' s) { net = w })))
                carried,
      )
  drain-Carries (m ∷ ms) (suc fuel) a k busy s c q conn u p found named input holds passed to
        carried h =
      let (read, rest) = queue.reads q (serialize m) (map serialize ms) holds in
      let (alive, up, v, written, later) = carried in
      let c' : ClientInfo = record c { input = some (α.bus_read q).0 } in
      let t : Server = put_node k p.node (record (put_client a c' s) { net = v }) in
      let p' : Peer t k conn = record {
        node = p.node;
        found = Map.find-set_self k p.node p.node s.nodes p.found;
        known = p.known;
        linked = p.linked;
        not_self = p.not_self;
        not_local = p.not_local;
      } in
      let found' : find_client t a ≡ some c' = find-put_self s a c' c found in
      let (any, cs, ns, run) =
        drain-Carries ms fuel a k true t c' (α.bus_read q).0 conn u p' found' named refl rest
          passed.1 to.1 later (omega arith) in
      (
        any,
        cs,
        ns,
        round-away fuel a k busy s c q m conn v p found named input read passed.0 to.0 alive up
              written
            ∙ run,
      )
