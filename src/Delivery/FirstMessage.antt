-- ===== src/Delivery/FirstMessage.antt =====
-- The first message for a node that cpmd does not know (HandleToRemoteMessage in cpm/cpm_server.cc),
-- while the resolve server is connected.
use cpmd.Base.{
  ℕ, ◌≡◌, refl, ap, subst, ◌∙◌, Bool-cases, inl, inr, true, Option, none, some, List, [], ◌∷◌, ◌++◌,
  All, is_some,
}
use cpmd.Base.Map
use cpmd.Base.Map.{nat_key}
use cpmd.Base.Outcome.{ok}
use cpmd.Alpha.{Alpha}
use cpmd.Message.{Message}
use cpmd.Message
use cpmd.Node.{Node, ResolveState, resolving}
use cpmd.Node
use cpmd.Queue
use cpmd.Queue.{Queue}
use cpmd.Queue.Bound.{last_n, last_n-append}
use cpmd.Node.Deliver.{QueueIsValid, cache_message_lem}
use cpmd.Server.{Server, find_node, put_node, add_new_node}
use cpmd.Server.Resolver.{request_over, request_node_net_address, lookup_request}
use cpmd.Server.Route.{
  blank, droped, cache_at, to_remote, to_unresolved_node, handle_to_remote_message,
}
use cpmd.Server.Route.Waiting.{IsWaiting, route_all, route_all-IsWaiting}

module _ ⦃α : Alpha⦄ where
  -- A request changes nothing but the network.
  request_over-net :
      (o : Option α.Conn) (s : Server) (k : ℕ)
      → request_over o s k ≡ record s { net = (request_over o s k).net }
  unfolding request_over
  request_over-net none s k = refl
  request_over-net (some c) s k = elim (Bool-cases (α.closed s.net c)) [
    | inl shut ↦ rw shut refl
    | inr up ↦ rw up refl
  ]

  -- The server with the new node.
  abbrev pub with_new : Server → ℕ → Server
  with_new s k = record s { nodes = Map.insert k (Node.new k) s.nodes }

  request_over-with_new :
      (o : Option α.Conn) (s : Server) (k : ℕ)
      → (request_over o (with_new s k) k).net ≡ (request_over o s k).net
  unfolding request_over lookup_request
  request_over-with_new none s k = refl
  request_over-with_new (some c) s k = elim (Bool-cases (α.closed s.net c)) [
    | inl shut ↦ rw shut refl
    | inr up ↦ rw up refl
  ]

  -- What is asked of the network.
  abbrev pub asked : Server → ℕ → α.World
  asked s k = (request_node_net_address s k).net

  add_new_node-with_new :
      (s : Server) (k : ℕ) → find_node s k ≡ none → add_new_node s k ≡ ok (with_new s k)
  unfolding add_new_node find_node
  add_new_node-with_new s k e = rw (Map.emplace-eq_none k (Node.new k) s.nodes e)

  -- The node behind its first message.
  abbrev first_of : ℕ → Queue → Node
  first_of k q = record (Node.set_resolve_state (Node.new k) resolving) {
    messages_to_deliver = some q;
  }

  first-IsWaiting :
      (k : ℕ) (q : Queue) (s : Server) (w : α.World)
      → find_node s k ≡ none
      → QueueIsValid (some q)
      → (v : IsWaiting k (put_node k (first_of k q) (record (with_new s k) { net = w })))
        × (Node.cached v.node ≡ q.messages)
  unfolding find_node put_node Node.new Node.set_resolve_state Node.is_not_resolved_node
      Node.is_resolving_node Node.connecting Node.cached Node.queue_or_new
  first-IsWaiting k q s w e v = (
    record {
      node = first_of k q;
      found =
          Map.find-set_self k (first_of k q) (Node.new k) (Map.insert k (Node.new k) s.nodes)
            (Map.find-insert_self k (Node.new k) s.nodes e);
      unconnected = refl;
      known = refl;
      expected = refl;
      queue = v;
    },
    refl,
  )

  request-with_new :
      (s : Server) (k : ℕ)
      → request_node_net_address (with_new s k) k ≡ record (with_new s k) { net = asked s k }
  unfolding request_node_net_address
  request-with_new s k =
      request_over-net s.resolve_server_conn (with_new s k) k
      ∙ ap (λ (w : α.World). record (with_new s k) { net = w })
          (request_over-with_new s.resolve_server_conn s k)

  cache_at-first :
      (k : ℕ) (m : Message) (s : Server)
      → (q : Queue) × (cache_at k (Node.set_resolve_state (Node.new k) resolving) m s
          ≡ ok (put_node k (first_of k q) s))
        × (q.messages ≡ last_n Node.max_cached_message_num (m ∷ []))
        × QueueIsValid (some q)
  unfolding cache_at droped Node.new Node.set_resolve_state Node.cached Node.queue_or_new Queue.new
  cache_at-first k m s =
      let n : Node = Node.set_resolve_state (Node.new k) resolving in
      let (q, _, run, newest, valid) = cache_message_lem n m (Message.default blank) tt in
      (q, rw run, newest, valid)

  to_remote-none :
      (s : Server) (m : Message) (rc : α.Conn)
      → find_node s m.to.node_addr ≡ none
      → s.resolve_server_conn ≡ some rc
      → to_remote none m s
        ≡ cache_at m.to.node_addr
            (Node.set_resolve_state (Node.new m.to.node_addr) resolving)
            m
            (record (with_new s m.to.node_addr) { net = asked s m.to.node_addr })
  unfolding to_remote to_unresolved_node Node.is_not_resolved_node Node.new
  to_remote-none s m rc e up =
      let asks : is_some s.resolve_server_conn ≡ true = ap is_some up in
      rw (add_new_node-with_new s m.to.node_addr e, asks, request-with_new s m.to.node_addr)

  -- The message is kept, and the resolve server is asked.
  abbrev Begins : ℕ → Message → Server → Type 0
  Begins k m s =
      (t : Server) × (handle_to_remote_message s m ≡ ok t)
      × (v : IsWaiting k t) × (Node.cached v.node ≡ last_n Node.max_cached_message_num (m ∷ []))
      × (t.net ≡ asked s k)
      × (t.nodes_index ≡ s.nodes_index)

  first_message :
      (s : Server) (m : Message) (rc : α.Conn)
      → find_node s m.to.node_addr ≡ none
      → s.resolve_server_conn ≡ some rc
      → Begins m.to.node_addr m s
  unfolding handle_to_remote_message put_node
  first_message s m rc e up =
      let k : ℕ = m.to.node_addr in
      let s' : Server = record (with_new s k) { net = asked s k } in
      let (q, run, newest, valid) = cache_at-first k m s' in
      let (v, kept) = first-IsWaiting k q s (asked s k) e valid in
      (
        put_node k (first_of k q) s',
        ap (λ (o : Option Node). to_remote o m s) e ∙ to_remote-none s m rc e up ∙ run,
        v,
        kept ∙ newest,
        refl,
        refl,
      )

  -- All of the first messages.
  pub route_all-unknown :
      (k : ℕ) (s : Server) (m : Message) (ms : List Message) (rc : α.Conn)
      → find_node s k ≡ none
      → s.resolve_server_conn ≡ some rc
      → All (λ x. x.to.node_addr ≡ k) (m ∷ ms)
      → (t : Server) × (route_all (m ∷ ms) s ≡ ok t)
        × (v : IsWaiting k t) × (Node.cached v.node ≡ last_n Node.max_cached_message_num (m ∷ ms))
        × (t.net ≡ asked s k)
        × (t.nodes_index ≡ s.nodes_index)
  route_all-unknown k s m ms rc e up to =
      let (t, run, v, kept, net, index) =
        subst (λ (j : ℕ). Begins j m s) to.0
          (first_message s m rc (ap (find_node s) to.0 ∙ e) up) in
      let (u, run', w, kept', net', index') = route_all-IsWaiting k ms t v to.1 in
      (
        u,
        rw run run',
        w,
        kept'
            ∙ ap (λ (l : List Message). last_n Node.max_cached_message_num (l ++ ms)) kept
            ∙ last_n-append Node.max_cached_message_num (m ∷ []) ms,
        net' ∙ net,
        index' ∙ index,
      )
