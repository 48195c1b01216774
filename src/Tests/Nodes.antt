-- ===== src/Tests/Nodes.antt =====
-- The theorems on Node at a node with a message that waits.
use cpmd.Base.{◌≡◌, ◌≢◌, ◌⊎◌, true, none, some, [], ◌∷◌, arith}
use cpmd.Base.Outcome.{ok, aborted}
use cpmd.Node.{
  Node, resolved, max_cached_message_num, cached, flush_list, send_message, set_connection,
}
use cpmd.Node.Deliver.{Writes, QueueIsValid, KeepsAllButQueue, Sent, send_message_lem}
use cpmd.Node.Connect.{set_connection-Writes}
use cpmd.Tests.Net.{net, hello}

abbrev pub waiting : Node
waiting = record {
  is_connecting = true;
  resolve_state = resolved;
  node_address = 7;
  address = some 3;
  messages_to_deliver = some (record { max_size = max_cached_message_num; messages = hello ∷ [] });
  weak_conn = none;
}

pub waiting-QueueIsValid : QueueIsValid waiting.messages_to_deliver
waiting-QueueIsValid = omega arith

set_connection-Writes_example :
    ((u : net.World) × (n' : Node) × (set_connection [] waiting 3 ≡ ok (u, n'))
      × Writes 3 [] (cached waiting) u
      × (cached n' ≡ [])
      × (n'.weak_conn ≡ some 3)
      × KeepsAllButQueue waiting n'
      × (QueueIsValid waiting.messages_to_deliver → QueueIsValid n'.messages_to_deliver))
    ⊎ ((set_connection [] waiting 3 ≡ aborted)
        × ((net.closed [] 3 ≡ true) ⊎ ((flush_list [] 3 (cached waiting)).1 ≢ [])))
set_connection-Writes_example = set_connection-Writes [] waiting 3

send_message_lem_example : Sent [] waiting hello hello (send_message [] waiting hello (some hello))
send_message_lem_example = send_message_lem [] waiting hello hello waiting-QueueIsValid
