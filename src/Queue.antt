-- ===== src/Queue.antt =====
-- cpm/cpm_message_cache_queue.h and cpm/cpm_message_cache_queue.cc: the bounded queue of messages
-- that wait for a node. A pointer to a message that a call fills is the message that it points to,
-- and `none` is a null pointer.
pub mod Bound
use cpmd.Base.{
  ℕ, Bool, true, false, not, ◌&&◌, Option, none, some, List, [], ◌∷◌, ◌++◌, length, ltb, ◌==◌,
  is_some, if◌then◌else◌,
}
use cpmd.Base.Outcome.{Outcome, ok, aborted, assert, ◌>>=◌, ◌>>◌}
use cpmd.Message.{Message}

-- Oldest first.
pub record Queue : Type 0 where
  pub max_size : ℕ
  pub messages : List Message

unfoldable pub new : ℕ → Queue
new n = record { max_size = n; messages = [] }

abbrev pub is_nil : List Message → Bool
is_nil [] = true
is_nil (m ∷ ms) = false

unfoldable pub empty : Queue → Bool
empty q = is_nil q.messages

unfoldable pub size : Queue → ℕ
size q = length q.messages

abbrev pub first : List Message → Option Message
first [] = none
first (m ∷ ms) = some m

unfoldable pub front : Queue → Option Message
front q = first q.messages

abbrev pub split_first : Queue → List Message → Outcome (Message × Queue)
split_first q [] = aborted
split_first q (m ∷ ms) = ok (m, record q { messages = ms })

-- PopFront, whose assert refuses the empty queue.
unfoldable pub pop_front : Queue → Outcome (Message × Queue)
pop_front q = split_first q q.messages

-- The first statement of Push: a full queue gives up its oldest message to `*droped`.
unfoldable pub make_room : Queue → Option Message → Outcome (Queue × Option Message)
unfolding size pop_front
make_room q droped =
    if size q == q.max_size && is_some droped
    then (do (m, rest) ← pop_front q; ok (rest, some m))
    else ok (q, droped)

unfoldable pub push : Queue → Message → Option Message → Outcome (Queue × Option Message)
unfolding make_room size
push q m droped = do
  (roomy, out) ← make_room q droped
  assert (ltb (size roomy) roomy.max_size)
  ok (record roomy { messages = roomy.messages ++ (m ∷ []) }, out)
