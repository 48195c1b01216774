-- ===== src/Node/Deliver.antt =====
-- What becomes of the messages that are handed to a node (Node::SendMessage, Node::CacheMessage in
-- cpm/cpm_node.cc): written, or kept.
use cpmd.Base.{
  ℕ, ◌-◌, ◌≤◌, ◌≡◌, refl, ap, ◌∙◌, ◌⊎◌, inl, inr, true, false, Bool-cases, Option, none, some, List,
  [], ◌∷◌, ◌++◌, arith, length, length-drop,
}
use cpmd.Base.Outcome.{Outcome, ok}
use cpmd.Alpha.{Alpha}
use cpmd.Message.{Message, serialize}
use cpmd.Queue.{Queue, push}
use cpmd.Queue
use cpmd.Queue.Bound.{IsValid, last_n, push-last_n}
use cpmd.Node.{
  Node, max_cached_message_num, lock, queue_or_new, cache_message, send_on, send_message, cached,
  send_message_directly,
}

module _ ⦃α : Alpha⦄ where
  -- Writes of these messages, in this order, that all succeed.
  pub data Writes (c : α.Conn) : α.World → List Message → α.World → Type 0 where
    stop : {w : α.World} → Writes c w [] w
    write :
        {w v u : α.World} {ms : List Message} (m : Message)
        → α.write w c (serialize m) ≡ (v, true)
        → Writes c v ms u
        → Writes c w (m ∷ ms) u

  -- The queue is as the node makes it.
  abbrev pub QueueIsValid : Option Queue → Type 0
  QueueIsValid none = Unit {0}
  QueueIsValid (some q) =
      (q.max_size ≡ max_cached_message_num) × (length q.messages ≤ max_cached_message_num)

  queue_or_new-IsValid :
      (o : Option Queue)
      → QueueIsValid o
      → IsValid (queue_or_new o) × ((queue_or_new o).max_size ≡ max_cached_message_num)
  unfolding queue_or_new Queue.new
  queue_or_new-IsValid none v = omega arith
  queue_or_new-IsValid (some q) v = omega arith

  -- CacheMessage never fails on a queue that the node made, and keeps the newest messages.
  pub cache_message_lem :
      (n : Node) (m d : Message)
      → QueueIsValid n.messages_to_deliver
      → (q : Queue) × (out : Message) × (cache_message n m (some d)
          ≡ ok (record n { messages_to_deliver = some q }, some out))
        × (q.messages ≡ last_n max_cached_message_num (cached n ++ (m ∷ [])))
        × QueueIsValid (some q)
  unfolding cache_message cached
  cache_message_lem n m d v =
      let q0 = queue_or_new n.messages_to_deliver in
      let (valid, size) = queue_or_new-IsValid n.messages_to_deliver v in
      let (out, e) = push-last_n q0 m d valid in
      let all : List Message = q0.messages ++ (m ∷ []) in
      let same : last_n q0.max_size all ≡ last_n max_cached_message_num all =
        ap (λ (k : ℕ). last_n k all) size in
      (
        record q0 { messages = last_n q0.max_size all },
        out,
        rw e,
        same,
        (size, omega (arith, length-drop (length all - q0.max_size) all)),
      )

  -- What a flush does to a node: only its queue changes.
  abbrev pub KeepsAllButQueue : Node → Node → Type 0
  KeepsAllButQueue n n' =
      (n'.is_connecting ≡ n.is_connecting)
      × (n'.resolve_state ≡ n.resolve_state)
      × (n'.node_address ≡ n.node_address)
      × (n'.address ≡ n.address)

  lock-some : (w : α.World) (o : Option α.Conn) (c : α.Conn) → lock w o ≡ some c → o ≡ some c
  unfolding lock
  lock-some w none c e = cc
  lock-some w (some b) c e = ground arith

  cached-queue :
      (n : Node) (q : Queue) → cached (record n { messages_to_deliver = some q }) ≡ q.messages
  unfolding cached queue_or_new
  cached-queue n q = refl

  -- What SendMessage promises of its result.
  abbrev pub Sent :
      α.World → Node → Message → Message → Outcome (α.World × Node × Option Message) → Type 0
  Sent w n m d r =
      (u : α.World) × (n' : Node) × (out : Message) × (r ≡ ok (u, n', some out))
      × (((n' ≡ n)
            × (out ≡ d)
            × ((c : α.Conn) × (n.weak_conn ≡ some c)
                × (α.closed w c ≡ false)
                × (α.write w c (serialize m) ≡ (u, true))))
          ⊎ ((cached n' ≡ last_n max_cached_message_num (cached n ++ (m ∷ [])))
              × KeepsAllButQueue n n'
              × QueueIsValid n'.messages_to_deliver))

  send_on_lem :
      (o : Option α.Conn) (w : α.World) (n : Node) (m d : Message)
      → lock w n.weak_conn ≡ o
      → QueueIsValid n.messages_to_deliver
      → Sent w n m d (send_on o w n m (some d))
  unfolding send_on send_message_directly
  send_on_lem none w n m d e v =
      let (q, out, run, newest, valid) = cache_message_lem n m d v in
      (
        w,
        record n { messages_to_deliver = some q },
        out,
        rw run,
        inr (cached-queue n q ∙ newest, (refl, refl, refl, refl), valid),
      )
  send_on_lem (some c) w n m d e v =
      let (q, out, run, newest, valid) = cache_message_lem n m d v in
      elim (Bool-cases (α.closed w c)) [
        | inl shut ↦ (
          w,
          record n { messages_to_deliver = some q },
          out,
          rw (shut, run),
          inr (cached-queue n q ∙ newest, (refl, refl, refl, refl), valid),
        )
        | inr open_ ↦ elim (Bool-cases (α.write w c (serialize m)).1) [
          | inl done ↦ (
            (α.write w c (serialize m)).0,
            n,
            d,
            rw (open_, done),
            inl (
              refl,
              refl,
              (c, lock-some w n.weak_conn c e, open_, λ i. ((α.write w c (serialize m)).0, done i)),
            ),
          )
          | inr failed ↦ (
            (α.write w c (serialize m)).0,
            record n { messages_to_deliver = some q },
            out,
            rw (open_, failed, run),
            inr (cached-queue n q ∙ newest, (refl, refl, refl, refl), valid),
          )
        ]
      ]

  -- SendMessage with a place for what is dropped, on a queue that the node made, always returns:
  -- either the connection is open and the message was written on it and the node is unchanged, or
  -- the message is the newest of the cache, which holds the newest kMaxCachedMessageNum, and the
  -- node's states and addresses are unchanged.
  pub send_message_lem :
      (w : α.World) (n : Node) (m d : Message)
      → QueueIsValid n.messages_to_deliver
      → Sent w n m d (send_message w n m (some d))
  unfolding send_message
  send_message_lem w n m d v = send_on_lem (lock w n.weak_conn) w n m d refl v
