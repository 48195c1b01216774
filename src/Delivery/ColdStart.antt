-- ===== src/Delivery/ColdStart.antt =====
-- From the first message for a node that cpmd does not know to its delivery on a connection
-- (cpm/cpm_server.cc): the request to the resolve server, its answer (cpm/cpm_resolve_server.cc), and
-- the connection that the answer makes cpmd open.
use cpmd.Base.{
  ℕ, suc, ◌-◌, ◌≡◌, ◌≢◌, refl, sym, ap, subst, ◌∙◌, Bool-cases, inl, inr, ◌⊎◌, Option-cases, true,
  false, Option, none, some, List, [], ◌∷◌, ◌++◌, length, length-drop, All, arith,
}
use cpmd.Base.Map
use cpmd.Base.Map.{nat_key}
use cpmd.Base.Outcome.{ok}
use cpmd.Alpha.{Alpha}
use cpmd.Message.{Message}
use cpmd.Node.{Node}
use cpmd.Node
use cpmd.Queue
use cpmd.Queue.Bound.{last_n}
use cpmd.Message.Layout.{IsWord}
use cpmd.Protocol.{ProtocolMessage, ok_code, serialize, message_at}
use cpmd.Protocol.Response.{ResolveResponse, update_cache}
use cpmd.Resolve.Conf.{ConfNode}
use cpmd.Resolve.Service.{Service, on_message}
use cpmd.Resolve.Service.Asked.{Tells, lookup_request-on_message}
use cpmd.Resolve.Service.Answer.{Fits, answer}
use cpmd.Resolve.Service.Answer.Received.{cpmd_reads, lookup_reply-handle_resolve_server_message}
use cpmd.Server.{Server, find_node, find_node_by_net_address, put_node}
use cpmd.Server.Resolver.{
  lookup_request, request_over, request_node_net_address, refresh, resolve, update_node,
  update_node_address_cache,
}
use cpmd.Server.Route.Waiting.{IsWaiting, route_all, put_node-found}
use cpmd.Server.Route.Answered.{
  answered, opened, registered_opened, connect_waiting-opens, found_opened,
}
use cpmd.Server.Route.Forwarding.{Forwarded, registered_node-eq, connected-Forwarded}
use cpmd.Delivery.FirstMessage.{asked, route_all-unknown}

List-cases :
    (xs : List Message) → (xs ≡ []) ⊎ ((m : Message) × (rest : List Message) × (xs ≡ m ∷ rest))
List-cases [] = inl refl
List-cases (m ∷ rest) = inr (m, rest, refl)

last_n-cons : (n : ℕ) (m : Message) (ms : List Message) → last_n (suc n) (m ∷ ms) ≢ []
last_n-cons n m ms e =
    let l : length (last_n (suc n) (m ∷ ms)) ≡ 0 = ap length e in
    let cut : ℕ = length (m ∷ ms) - suc n in absurd (omega (arith, length-drop cut (m ∷ ms)))

module _ ⦃α : Alpha⦄ where
  has_cached_message-true : (n : Node) → Node.cached n ≢ [] → Node.has_cached_message n ≡ true
  unfolding Node.has_cached_message Node.cached Node.queue_or_new Queue.empty Queue.new
  has_cached_message-true n h = elim (Option-cases n.messages_to_deliver) [
    | inl e ↦ absurd (h (rw e refl))
    | inr (q, e) ↦ elim (List-cases q.messages) [
      | inl nothing ↦ absurd (h (rw e nothing))
      | inr (m, rest, there) ↦ rw (e, there)
    ]
  ]

  -- A positive answer about a known node gives it its address, whatever its state.
  update_node-ok :
      (s : Server) (resp : ResolveResponse) (n : Node)
      → resp.code ≡ ok_code
      → update_node (some n) s resp ≡ ok (put_node resp.node_addr (answered s resp n) s)
  unfolding update_node resolve refresh
  update_node-ok s resp n c = elim (Bool-cases (Node.is_resolved_node n)) [
    | inl known ↦ rw (known, c)
    | inr new_ ↦ rw (new_, c)
  ]

  update_node_address_cache-opens :
      (s : Server) (resp : ResolveResponse) (n : Node)
      → find_node s resp.node_addr ≡ some n
      → resp.code ≡ ok_code
      → Node.cached n ≢ []
      → n.weak_conn ≡ none
      → find_node_by_net_address s (α.make_address resp.node_ip resp.node_port) ≡ none
      → update_node_address_cache s resp ≡ ok (opened s resp n, true)
  unfolding update_node_address_cache
  update_node_address_cache-opens s resp n e c waits h free = rw (
    e,
    update_node-ok s resp n c,
    put_node-found s resp.node_addr (answered s resp n) n e,
    connect_waiting-opens s resp n (has_cached_message-true n waits) h free,
  )

  -- The connection comes, while the network is `w`.
  opened-Forwarded :
      (s : Server) (resp : ResolveResponse) (n : Node) (c : α.Conn) (w : α.World)
      → find_node s resp.node_addr ≡ some n
      → find_node_by_net_address s (α.make_address resp.node_ip resp.node_port) ≡ none
      → α.peer_addr c ≡ α.make_address resp.node_ip resp.node_port
      → Forwarded w (record (opened s resp n) { net = w }) c (Node.cached n)
  unfolding find_node find_node_by_net_address Node.cached Node.set_net_address
  opened-Forwarded s resp n c w e free peer =
      connected-Forwarded (record (opened s resp n) { net = w }) c resp.node_addr
        (answered s resp n)
        (registered_node-eq (record (opened s resp n) { net = w }) (α.peer_addr c) resp.node_addr
          (answered s resp n)
          (ap (find_node_by_net_address (opened s resp n)) peer ∙ registered_opened s resp n free)
          (found_opened s resp n e))

  -- A server whose network has changed.
  in_world :
      (k : ℕ) (s : Server) (w : α.World)
      → (v : IsWaiting k s) → (x : IsWaiting k (record s { net = w })) × (x.node ≡ v.node)
  unfolding find_node
  in_world k s w v = (
    record {
      node = v.node;
      found = v.found;
      unconnected = v.unconnected;
      known = v.known;
      expected = v.expected;
      queue = v.queue;
    },
    refl,
  )

  -- What is asked of the network is a write of the request.
  asked-writes :
      (s : Server) (k : ℕ) (rc : α.Conn)
      → s.resolve_server_conn ≡ some rc
      → α.closed s.net rc ≡ false
      → asked s k ≡ (α.write s.net rc (serialize (lookup_request s k))).0
  unfolding request_node_net_address request_over
  asked-writes s k rc up alive =
      ap (λ (o : Option α.Conn). (request_over o s k).net) up ∙ rw alive refl

  -- Messages, one or more, for a node that cpmd, with a 32-bit address, does not know, while its
  -- connection to the resolve server is open; a resolve server with consistent tables that lists
  -- the node, with numbers and strings that fit their fields, that has a context for the
  -- connection over which cpmd asks, and some connection registered under cpmd's address; and a
  -- connection from the node's network address, under which cpmd has no node in its index. All
  -- messages are accepted, and what cpmd does to the network is one write of a lookup request to
  -- the resolve server. On the bytes of this request, whatever follows them, the resolve server
  -- writes a reply to the connection that asks, and changes nothing else. On the bytes of this
  -- reply, whatever follows them and whatever the network is by then, cpmd starts a connection to
  -- the node's network address, and does nothing else to the network. And when the connection
  -- comes, whatever the network is by then, either it is accepted and exactly the newest of these
  -- messages, in order, as many as kMaxCachedMessageNum, are written to it; or an assert stops
  -- cpmd, and then the connection is closed or the loop over the messages left some.
  pub lookup_request-on_connected_to_remote_node :
      (s : Server) (n : ConfNode) (m : Message) (ms : List Message) (rc c : α.Conn) (w w' : α.World)
      (rest : List ℕ) (host : Service) (d : α.Conn) (memory more : List ℕ)
      → find_node s n.node_addr ≡ none
      → s.resolve_server_conn ≡ some rc
      → α.closed s.net rc ≡ false
      → IsWord s.self_address
      → Tells host d s.self_address n
      → All (λ x. x.to.node_addr ≡ n.node_addr) (m ∷ ms)
      → Fits n.node_addr (α.port n.net_addr) (α.ip n.net_addr) n.readable_addr
      → α.peer_addr c ≡ α.make_address (α.ip n.net_addr) (α.port n.net_addr)
      → find_node_by_net_address s (α.peer_addr c) ≡ none
      → (t : Server) × (reply : ProtocolMessage) × (u : Server) × (route_all (m ∷ ms) s ≡ ok t)
        × (t.net ≡ (α.write s.net rc (serialize (lookup_request s n.node_addr))).0)
        × (on_message memory host d (message_at (serialize (lookup_request s n.node_addr) ++ more))
            ≡ ok (record host { net = (α.write host.net d (serialize reply)).0 }))
        × (cpmd_reads (record t { net = w }) rc (serialize reply ++ rest) ≡ ok u)
        × (u.net ≡ α.connect_to w (α.peer_addr c))
        × Forwarded w' (record u { net = w' }) c (last_n Node.max_cached_message_num (m ∷ ms))
  unfolding find_node_by_net_address
  lookup_request-on_connected_to_remote_node s n m ms rc c w w' rest host d memory more e up alive
        self tells to fits peer free =
      let (t, run, v, kept, net, index) = route_all-unknown n.node_addr s m ms rc e up to in
      let a : α.NetAddress = α.make_address (α.ip n.net_addr) (α.port n.net_addr) in
      let resp : ResolveResponse =
        answer update_cache n.node_addr (α.port n.net_addr) (α.ip n.net_addr) n.readable_addr
          rest in
      let t' : Server = record t { net = w } in
      let (x, same) = in_world n.node_addr t w v in
      let kept' : Node.cached x.node ≡ last_n Node.max_cached_message_num (m ∷ ms) =
        ap Node.cached same ∙ kept in
      let free' : find_node_by_net_address t' a ≡ none =
        ap (λ (l : List (α.NetAddress × ℕ)). Map.find ⦃o = α.net_key⦄ a l) index
        ∙ ap (λ (b : α.NetAddress). Map.find ⦃o = α.net_key⦄ b s.nodes_index) (sym peer)
        ∙ free in
      let (reply, built, read) = lookup_reply-handle_resolve_server_message t' rc n rest fits in
      let opens =
        update_node_address_cache-opens t' resp x.node x.found refl
          (λ z. last_n-cons 127 m ms (sym kept' ∙ z)) x.unconnected free' in
      (
        t,
        reply,
        opened t' resp x.node,
        run,
        net ∙ asked-writes s n.node_addr rc up alive,
        lookup_request-on_message host d n s reply memory more self fits.addr_word tells built,
        read ∙ rw opens refl,
        ap (α.connect_to w) (sym peer),
        subst (Forwarded w' (record (opened t' resp x.node) { net = w' }) c) kept'
            (opened-Forwarded t' resp x.node c w' x.found free' peer),
      )
