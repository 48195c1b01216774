-- ===== src/Tests/Stranded.antt =====
-- The theorems on refused resolutions, lost connections and answers, at a server with one node.
use cpmd.Base.{◌≡◌, refl, true, false, none, some, [], arith}
use cpmd.Base.Map
use cpmd.Base.Map.{nat_key}
use cpmd.Base.Outcome.{ok, aborted}
use cpmd.Queue.{Queue}
use cpmd.Node.{Node, ResolveState, resolved, resolving}
use cpmd.Node
use cpmd.Protocol.{ok_code}
use cpmd.Protocol.Response.{ResolveResponse, update_cache}
use cpmd.Server.{Server, find_node, find_node_by_net_address}
use cpmd.Server.Resolver.{update_node_address_cache}
use cpmd.Server.Route.{handle_to_remote_message}
use cpmd.Server.Route.Waiting.{IsWaiting}
use cpmd.Server.Route.Stranded.{Strands, update_node_address_cache-refused}
use cpmd.Server.Route.Answered.{update_node_address_cache-aborts, opened}
use cpmd.Tests.Net.{net, hello}
use cpmd.Tests.Nodes.{waiting, waiting-QueueIsValid}
use cpmd.Tests.Servers.{home}

-- The node while it is being resolved.
abbrev asked : Node
asked = record waiting { is_connecting = false; resolve_state = resolving; address = none }

asked-IsWaiting : IsWaiting 7 (home asked)
unfolding find_node Map.find Node.is_not_resolved_node Node.is_resolving_node Node.connecting
asked-IsWaiting = record {
  node = asked;
  found = refl;
  unconnected = refl;
  known = refl;
  expected = refl;
  queue = waiting-QueueIsValid;
}

abbrev refusal : ResolveResponse
refusal = record {
  code = 1;
  type_ = update_cache;
  node_addr = 7;
  node_port = 0;
  node_ip = [];
  node_path = [];
}

update_node_address_cache-refused_example :
    (t : Server) × (update_node_address_cache (home asked) refusal ≡ ok (t, true))
    × Strands 7 (Node.cached asked) (home asked) t
unfolding find_node Map.find Node.is_resolved_node
update_node_address_cache-refused_example =
    update_node_address_cache-refused (home asked) refusal asked asked-IsWaiting refl refl
      (λ e. omega (arith, e))

-- The node with a connection.
abbrev linked : Node
linked = record waiting { weak_conn = some 3 }

-- The address of the node, at a port that is not registered yet.
abbrev answer : ResolveResponse
answer = record refusal { code = ok_code; node_port = 4 }

update_node_address_cache-aborts_example :
    (update_node_address_cache (home asked) answer ≡ ok (opened (home asked) answer asked, true))
    × (handle_to_remote_message (opened (home asked) answer asked) hello ≡ aborted)
unfolding find_node_by_net_address find_node Map.find Node.is_resolved_node Node.connecting
    Node.has_cached_message cpmd.Queue.empty
update_node_address_cache-aborts_example =
    update_node_address_cache-aborts (home asked) answer asked hello refl refl refl refl refl refl
      refl refl
