-- ===== src/Tests/Queues.antt =====
-- The theorems on MessageCacheQueue at a queue of two.
use cpmd.Base.{◌≡◌, [], ◌∷◌, ◌++◌, arith}
use cpmd.Base.Outcome.{ok}
use cpmd.Message.{Message}
use cpmd.Queue.{Queue}
use cpmd.Queue.Bound.{IsValid, last_n, push_all, push_all-last_n}
use cpmd.Tests.Net.{hello}

abbrev other : Message
other = record hello { len = 1 }

-- A full queue.
abbrev two : Queue
two = record { max_size = 2; messages = hello ∷ other ∷ [] }

two-IsValid : IsValid two
two-IsValid = omega arith

push_all-last_n_example :
    push_all two (other ∷ hello ∷ other ∷ []) hello
    ≡ ok (record two {
      messages = last_n two.max_size (two.messages ++ (other ∷ hello ∷ other ∷ []));
    })
push_all-last_n_example = push_all-last_n two (other ∷ hello ∷ other ∷ []) hello two-IsValid
