-- ===== src/Tests/Starts.antt =====
-- The node "a/" with its first messages for the node "b/", on Tests/Hosts.
use cpmd.Base.{◌≡◌, refl, [], ◌∷◌, ◌++◌, arith}
use cpmd.Base.Map
use cpmd.Base.Map.{nat_key}
use cpmd.Base.Outcome.{ok}
use cpmd.Message.{Message}
use cpmd.Node
use cpmd.Queue.Bound.{last_n}
use cpmd.Protocol.{ProtocolMessage, serialize, message_at}
use cpmd.Resolve.Conf.{get_node_info_by_node_address}
use cpmd.Resolve.Service.{node, on_message}
use cpmd.Resolve.Service.Asked.{Tells}
use cpmd.Resolve.Service.Answer.{Fits}
use cpmd.Resolve.Service.Answer.Received.{cpmd_reads}
use cpmd.Server.{Server, find_node, find_node_by_net_address}
use cpmd.Server.Resolver.{lookup_request}
use cpmd.Server.Route.Waiting.{route_all}
use cpmd.Server.Route.Forwarding.{Forwarded}
use cpmd.Delivery.ColdStart.{lookup_request-on_connected_to_remote_node}
use cpmd.Tests.Hosts.{hosts, host, b_path}
use cpmd.Tests.Net
use cpmd.Tests.Resolve.{a_hash, node_b, known, known-IsConsistent, known-context, registered}
use cpmd.Tests.Protocols.{home}

abbrev node_a_home : Server
node_a_home = record home { self_address = a_hash }

-- A message of a local client for client 6 of the node "b/".
abbrev far : Message
far = record Net.hello { to = record { node_addr = 2385765011; client_addr = 6 } }

known-Tells : Tells known 1 a_hash node_b
unfolding get_node_info_by_node_address Map.find
known-Tells = record {
  consistent = known-IsConsistent;
  behind = node a_hash;
  here = known-context;
  partner = 1;
  registered = registered;
  listed = refl;
}

node_b-Fits : Fits 2385765011 8005 host b_path
node_b-Fits = record {
  addr_word = omega arith;
  port_word = omega arith;
  ip_text = omega arith;
  ip_short = omega arith;
  path_text = omega arith;
  path_short = omega arith;
}

lookup_request-on_connected_to_remote_node_example :
    (t : Server) × (reply : ProtocolMessage) × (u : Server) × (route_all
        (far ∷ far ∷ [])
        node_a_home
      ≡ ok t)
    × (t.net ≡ 1)
    × (on_message [] known 1 (message_at (serialize (lookup_request node_a_home 2385765011) ++ []))
        ≡ ok (record known { net = 5 }))
    × (cpmd_reads (record t { net = 1 }) 1 (serialize reply ++ []) ≡ ok u)
    × (u.net ≡ 2)
    × Forwarded 2 (record u { net = 2 }) 3005 (last_n Node.max_cached_message_num (far ∷ far ∷ []))
unfolding find_node find_node_by_net_address Map.find
lookup_request-on_connected_to_remote_node_example =
    lookup_request-on_connected_to_remote_node node_a_home node_b far (far ∷ []) 1 3005 1 2 [] known
      1 [] [] refl refl refl (omega arith) known-Tells (refl, (refl, tt)) node_b-Fits refl refl
