-- ===== src/Node.antt =====
-- cpm/cpm_node.h and cpm/cpm_node.cc: what cpmd knows of another node, and the messages that wait
-- for it.
pub mod Deliver
pub mod Connect
use cpmd.Base.{
  ℕ, ◌^◌, Bool, true, false, not, ◌&&◌, Option, none, some, List, [], ◌∷◌, length, is_some,
  if◌then◌else◌,
}
use cpmd.Base.Outcome.{Outcome, ok, assert, assert_some, ◌>>=◌, ◌>>◌}
use cpmd.Alpha.{Alpha}
use cpmd.Message.{Message, serialize}
use cpmd.Queue.{Queue}
use cpmd.Queue

pub data ResolveState : Type 0 where
  resolving resolved not_resolved : ResolveState

-- kMaxCachedMessageNum
abbrev pub max_cached_message_num : ℕ
max_cached_message_num = 2 ^ 7

module _ ⦃α : Alpha⦄ where
  pub record Node : Type 0 where
    pub is_connecting : Bool
    pub resolve_state : ResolveState
    pub node_address : ℕ
    pub address : Option α.NetAddress
    pub messages_to_deliver : Option Queue
    pub weak_conn : Option α.Conn

  unfoldable pub new : ℕ → Node
  new a = record {
    is_connecting = false;
    resolve_state = not_resolved;
    node_address = a;
    address = none;
    messages_to_deliver = none;
    weak_conn = none;
  }

  -- weak_ptr::lock
  unfoldable pub lock : α.World → Option α.Conn → Option α.Conn
  lock w none = none
  lock w (some c) = if α.alive w c then some c else none

  -- The queue, made on the first use.
  unfoldable pub queue_or_new : Option Queue → Queue
  queue_or_new none = Queue.new max_cached_message_num
  queue_or_new (some q) = q

  unfoldable pub cache_message : Node → Message → Option Message → Outcome (Node × Option Message)
  cache_message n m droped = do
    (q, out) ← Queue.push (queue_or_new n.messages_to_deliver) m droped
    ok (record n { messages_to_deliver = some q }, out)

  unfoldable pub send_message_directly : α.World → Message → α.Conn → α.World × Bool
  send_message_directly w m c = α.write w c (serialize m)

  -- SendMessage: on an open connection the message goes out at once, whatever waits; otherwise, and
  -- where the write fails, it waits.
  unfoldable pub send_on :
      Option α.Conn
      → α.World
      → Node
      → Message
      → Option Message
      → Outcome (α.World × Node × Option Message)
  unfolding send_message_directly cache_message
  send_on none w n m droped = do (n', out) ← cache_message n m droped; ok (w, n', out)
  send_on (some c) w n m droped =
      let (w', done) = send_message_directly w m c in
      if α.closed w c
      then (do (n', out) ← cache_message n m droped; ok (w, n', out))
      else if done
      then ok (w', n, droped)
      else do (n', out) ← cache_message n m droped; ok (w', n', out)

  unfoldable pub send_message :
      α.World → Node → Message → Option Message → Outcome (α.World × Node × Option Message)
  unfolding send_on
  send_message w n m droped = send_on (lock w n.weak_conn) w n m droped

  unfoldable pub connected : α.World → Node → Bool
  unfolding lock
  connected w n = elim (lock w n.weak_conn) [ none ↦ false | some c ↦ not (α.closed w c) ]

  unfoldable pub connecting : Node → Bool
  connecting n = n.is_connecting

  abbrev pub is_resolving : ResolveState → Bool
  is_resolving resolving = true
  is_resolving s = false

  abbrev pub is_resolved : ResolveState → Bool
  is_resolved resolved = true
  is_resolved s = false

  abbrev pub is_not_resolved : ResolveState → Bool
  is_not_resolved not_resolved = true
  is_not_resolved s = false

  unfoldable pub is_resolving_node : Node → Bool
  is_resolving_node n = is_resolving n.resolve_state

  unfoldable pub is_resolved_node : Node → Bool
  is_resolved_node n = is_resolved n.resolve_state

  unfoldable pub is_not_resolved_node : Node → Bool
  is_not_resolved_node n = is_not_resolved n.resolve_state

  -- The messages that wait.
  unfoldable pub cached : Node → List Message
  unfolding queue_or_new
  cached n = (queue_or_new n.messages_to_deliver).messages

  unfoldable pub has_cached_message : Node → Bool
  has_cached_message n = elim n.messages_to_deliver [ none ↦ false | some q ↦ not (Queue.empty q) ]

  unfoldable pub net_address : Node → Outcome α.NetAddress
  net_address n = assert_some n.address

  unfoldable pub set_resolve_state : Node → ResolveState → Node
  set_resolve_state n s = record n { resolve_state = s }

  unfoldable pub set_net_address : Node → α.NetAddress → Node
  unfolding set_resolve_state
  set_net_address n a = set_resolve_state (record n { address = some a }) resolved

  unfoldable pub set_connecting : Node → Bool → Node
  set_connecting n b = record n { is_connecting = b }

  unfoldable pub clear_connection : Node → Node
  clear_connection n = record n { weak_conn = none }

  -- The loop of FlushMessage over the queue; what a failed write leaves stays in the queue.
  unfoldable pub flush_list : α.World → α.Conn → List Message → α.World × List Message
  unfolding send_message_directly
  flush_list w c [] = (w, [])
  flush_list w c (m ∷ ms) =
      let (w', done) = send_message_directly w m c in
      let rest = flush_list w' c ms in if done then rest else (w', m ∷ ms)

  unfoldable pub flush_message : α.World → Node → α.Conn → Outcome (α.World × Node × Bool)
  unfolding flush_list
  flush_message w n c = do
    q ← assert_some n.messages_to_deliver
    let (w', rest) = flush_list w c q.messages
    let n' = record n { messages_to_deliver = some (record q { messages = rest }) }
    ok (w', n', not (has_cached_message n'))

  -- The if of SetConnection.
  unfoldable pub flush_waiting : α.World → Node → α.Conn → Outcome (α.World × Node)
  unfolding flush_message has_cached_message
  flush_waiting w n c =
      if has_cached_message n
      then (do (w', n', done) ← flush_message w n c; assert done; ok (w', n'))
      else ok (w, n)

  unfoldable pub set_connection : α.World → Node → α.Conn → Outcome (α.World × Node)
  set_connection w n c = do
    assert (not (α.closed w c))
    (w', n') ← flush_waiting w n c
    ok (w', record n' { weak_conn = some c })
