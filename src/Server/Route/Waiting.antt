-- ===== src/Server/Route/Waiting.antt =====
-- Messages for another node (Server::HandleToRemoteMessage in cpm/cpm_server.cc) while it is being
-- resolved or connected to.
use cpmd.Base.{
  ℕ, ◌≡◌, refl, ap, sym, ◌∙◌, true, false, ◌||◌, Option, none, some, List, [], ◌∷◌, ◌++◌, ◌≤◌,
  append-nil, append_assoc, length, All, arith,
}
use cpmd.Base.Map
use cpmd.Base.Map.{nat_key}
use cpmd.Base.Outcome.{Outcome, ok, ◌>>=◌}
use cpmd.Alpha.{Alpha}
use cpmd.Message.{Message}
use cpmd.Message
use cpmd.Node.{Node, ResolveState, lock}
use cpmd.Node
use cpmd.Queue.{Queue}
use cpmd.Queue
use cpmd.Queue.Bound.{last_n, last_n-short, last_n-append}
use cpmd.Node.Deliver.{QueueIsValid, cache_message_lem}
use cpmd.Server.{Server, find_node, put_node}
use cpmd.Server.Route.{
  droped, blank, cache_at, open_at, to_known_node, to_remote, handle_to_remote_message,
}

module _ ⦃α : Alpha⦄ where
  -- The node has no connection, and cpmd believes that one, or an address, is on its way.
  pub record IsWaiting (k : ℕ) (s : Server) : Type 0 where
    pub node : Node
    pub found : find_node s k ≡ some node
    pub unconnected : node.weak_conn ≡ none
    pub known : Node.is_not_resolved_node node ≡ false
    pub expected : Node.connecting node || Node.is_resolving_node node ≡ true
    pub queue : QueueIsValid node.messages_to_deliver

  pub connected-none : (w : α.World) (n : Node) → n.weak_conn ≡ none → Node.connected w n ≡ false
  unfolding Node.connected lock
  connected-none w n e = rw e

  pub put_node-found :
      (s : Server) (k : ℕ) (n x : Node)
      → find_node s k ≡ some x
      → find_node (put_node k n s) k ≡ some n
  unfolding find_node put_node
  put_node-found s k n x e = Map.find-set_self k n x s.nodes e

  to_known_node-waiting :
      (k : ℕ) (n : Node) (m : Message) (s : Server)
      → n.weak_conn ≡ none
      → Node.connecting n || Node.is_resolving_node n ≡ true
      → to_known_node k n m s ≡ cache_at k n m s
  unfolding to_known_node
  to_known_node-waiting k n m s e h = ground (arith, connected-none s.net n e)

  pub handle_to_remote_message-known :
      (k : ℕ) (s : Server) (m : Message) (n : Node)
      → m.to.node_addr ≡ k
      → find_node s k ≡ some n
      → Node.is_not_resolved_node n ≡ false
      → handle_to_remote_message s m ≡ to_known_node k n m s
  unfolding handle_to_remote_message to_remote
  handle_to_remote_message-known k s m n e f u =
      let found : find_node s m.to.node_addr ≡ some n = ap (find_node s) e ∙ f in
      let here : handle_to_remote_message s m ≡ to_known_node m.to.node_addr n m s =
        rw (found, u) in
      here ∙ ap (λ j. to_known_node j n m s) e

  -- A message for such a node is kept, and nothing is asked of the network.
  handle_to_remote_message-IsWaiting :
      (k : ℕ) (s : Server) (m : Message)
      → (v : IsWaiting k s) → m.to.node_addr ≡ k
      → (t : Server) × (handle_to_remote_message s m ≡ ok t)
        × (w : IsWaiting k t) × (Node.cached w.node
            ≡ last_n Node.max_cached_message_num (Node.cached v.node ++ (m ∷ [])))
        × (t.net ≡ s.net)
        × (t.nodes_index ≡ s.nodes_index)
  unfolding cache_at droped put_node Node.cached Node.connecting Node.is_resolving_node
      Node.is_not_resolved_node
  handle_to_remote_message-IsWaiting k s m v e =
      let (q, _, run, newest, valid) = cache_message_lem v.node m (Message.default blank) v.queue in
      let n : Node = record v.node { messages_to_deliver = some q } in
      let kept : cache_at k v.node m s ≡ ok (put_node k n s) = rw run in
      (
        put_node k n s,
        handle_to_remote_message-known k s m v.node e v.found v.known
            ∙ to_known_node-waiting k v.node m s v.unconnected v.expected
            ∙ kept,
        record {
          node = n;
          found = put_node-found s k n v.node v.found;
          unconnected = v.unconnected;
          known = v.known;
          expected = v.expected;
          queue = valid;
        },
        newest,
        refl,
        refl,
      )

  -- The messages of a list, one after the other.
  abbrev pub route_all : List Message → Server → Outcome Server
  route_all [] s = ok s
  route_all (m ∷ ms) s = handle_to_remote_message s m >>= λ t. route_all ms t

  cached-last_n :
      (n : Node)
      → QueueIsValid n.messages_to_deliver
      → last_n Node.max_cached_message_num (Node.cached n ++ []) ≡ Node.cached n
  unfolding Node.cached Node.queue_or_new Queue.new
  cached-last_n n v =
      rw append-nil (
        last_n-short Node.max_cached_message_num (Node.cached n) (of_queue n.messages_to_deliver v))
    where
      of_queue :
          (o : Option Queue)
          → QueueIsValid o
          → length (Node.queue_or_new o).messages ≤ Node.max_cached_message_num
      of_queue none v = omega arith
      of_queue (some q) v = omega arith

  -- Messages for a node that has no connection while cpmd expects one or expects its address are
  -- all accepted, nothing is asked of the network, the index is unchanged, the node goes on
  -- waiting, and its cache holds the newest of what it held and these, in order, as many as
  -- kMaxCachedMessageNum.
  pub route_all-IsWaiting :
      (k : ℕ) (ms : List Message) (s : Server)
      → (v : IsWaiting k s) → All (λ m. m.to.node_addr ≡ k) ms
      → (t : Server) × (route_all ms s ≡ ok t)
        × (w : IsWaiting k t) × (Node.cached w.node
            ≡ last_n Node.max_cached_message_num (Node.cached v.node ++ ms))
        × (t.net ≡ s.net)
        × (t.nodes_index ≡ s.nodes_index)
  route_all-IsWaiting k [] s v h = (s, refl, v, sym (cached-last_n v.node v.queue), refl, refl)
  route_all-IsWaiting k (m ∷ ms) s v h =
      let (t, run, w, kept, net, index) = handle_to_remote_message-IsWaiting k s m v h.0 in
      let (u, run', w', kept', net', index') = route_all-IsWaiting k ms t w h.1 in
      (
        u,
        rw run run',
        w',
        kept'
            ∙ ap (λ (xs : List Message). last_n Node.max_cached_message_num (xs ++ ms)) kept
            ∙ last_n-append Node.max_cached_message_num (Node.cached v.node ++ (m ∷ [])) ms
            ∙ ap (last_n Node.max_cached_message_num)
                (append_assoc (Node.cached v.node) (m ∷ []) ms),
        net' ∙ net,
        index' ∙ index,
      )

  pub resolved-settled :
      (n : Node)
      → Node.is_resolved_node n ≡ true
      → (Node.is_not_resolved_node n ≡ false) × (Node.is_resolving_node n ≡ false)
  unfolding Node.is_resolved_node Node.is_not_resolved_node Node.is_resolving_node
  resolved-settled n r = of_state n.resolve_state r
    where
      of_state :
          (t : ResolveState)
          → Node.is_resolved t ≡ true
          → (Node.is_not_resolved t ≡ false) × (Node.is_resolving t ≡ false)
      of_state Node.resolved r = (refl, refl)
      of_state Node.resolving r = cc
      of_state Node.not_resolved r = cc

  pub to_known_node-opens :
      (k : ℕ) (n : Node) (m : Message) (s : Server)
      → Node.is_resolved_node n ≡ true
      → Node.is_resolving_node n ≡ false
      → Node.connecting n ≡ false
      → Node.connected s.net n ≡ false
      → to_known_node k n m s ≡ open_at k n s
  unfolding to_known_node
  to_known_node-opens k n m s r u c d = rw (d, c, u, r)

  -- Two messages for the same node, which is resolved but neither connected nor connecting, have
  -- the same effect on the server, its caches and writes included: the message that makes cpmd
  -- open a connection is neither kept nor sent.
  pub handle_to_remote_message-opens :
      (s : Server) (m m' : Message) (n : Node)
      → find_node s m.to.node_addr ≡ some n
      → m'.to.node_addr ≡ m.to.node_addr
      → Node.is_resolved_node n ≡ true
      → Node.connecting n ≡ false
      → Node.connected s.net n ≡ false
      → handle_to_remote_message s m' ≡ handle_to_remote_message s m
  handle_to_remote_message-opens s m m' n e same r c d =
      let (known, settled) = resolved-settled n r in
      handle_to_remote_message-known m.to.node_addr s m' n same e known
      ∙ to_known_node-opens m.to.node_addr n m' s r settled c d
      ∙ sym (to_known_node-opens m.to.node_addr n m s r settled c d)
      ∙ sym (handle_to_remote_message-known m.to.node_addr s m n refl e known)
