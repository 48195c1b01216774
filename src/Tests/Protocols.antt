-- ===== src/Tests/Protocols.antt =====
-- Protocol messages and the resolve server's answers, at concrete ones.
use cpmd.Base.{List, ◌++◌, ℕ, suc, ◌<◌, ◌^◌, ◌≡◌, refl, some, [], ◌∷◌, ◌++◌, length, arith}
use cpmd.Base.Outcome.{beyond, ok, ◌>>=◌}
use cpmd.Address
use cpmd.Address.Hash.{hash}
use cpmd.Message.Codec.{consumed}
use cpmd.Message.{word_bytes}
use cpmd.Protocol.{ProtocolMessage, size, half_bytes, serialize, message_at}
use cpmd.Protocol.Codec.{on_read}
use cpmd.Protocol.Codec.Frames.{IsFrame, stream, received, on_read-stream}
use cpmd.Protocol.Codec.Progress.{Halts, on_read-Halts}
use cpmd.Protocol.Response.{update_cache}
use cpmd.Resolve.Conf.Valid.{NodeIsValid}
use cpmd.Base.Map
use cpmd.Base.Map.{nat_key}
use cpmd.Resolve.Conf.{get_node_info_by_net_address}
use cpmd.Resolve.Service.{Service, node, context, on_message, init_reply, lookup_reply}
use cpmd.Resolve.Service.Valid.{registry}
use cpmd.Resolve.Service.Admits.{init_request-on_message}
use cpmd.Server.Resolver.{init_request}
use cpmd.Resolve.Service.Answer.{Fits, answer}
use cpmd.Resolve.Service.Answer.Received.{
  cpmd_reads, lookup_reply-handle_resolve_server_message, init_reply-handle_resolve_server_message,
}
use cpmd.Server.{Server}
use cpmd.Server.Resolver.{update_node_address_cache}
use cpmd.Tests.Hosts.{hosts, host, a_path}
use cpmd.Tests.Resolve.{waiting, node_a, a_hash, hello}
use mathlib.Core.List.{foldl}

hello-IsFrame : IsFrame hello
hello-IsFrame = record {
  valid = record {
    kind_half = omega arith;
    magic_word = omega arith;
    len_half = omega arith;
    has_data = omega arith;
  };
  magic = refl;
  short = omega arith;
}

abbrev count : ℕ → ProtocolMessage → ℕ
count n m = suc n

on_read-stream_example :
    on_read (some count) 3 (stream (hello ∷ hello ∷ [])) 0
    ≡ consumed
        (length (stream (hello ∷ hello ∷ [])))
        (foldl count 0 (received (hello ∷ hello ∷ [])))
on_read-stream_example =
    on_read-stream count (hello ∷ hello ∷ []) 3 0 (hello-IsFrame, (hello-IsFrame, tt)) (omega arith)

-- Two messages, and three bytes of a header.
abbrev two_and_more : List ℕ
two_and_more = stream (hello ∷ hello ∷ []) ++ (1 ∷ 2 ∷ 3 ∷ [])

on_read-Halts_example : Halts (some count) two_and_more 0 (on_read (some count) 60 two_and_more 0)
on_read-Halts_example =
    on_read-Halts (some count) two_and_more 60 0
      (unfold serialize size half_bytes word_bytes in omega arith)

abbrev pub home : Server
home = record {
  message_server_port = 8004;
  connected_nodes = 0;
  self_address = 0;
  bus_location = b'/' ∷ b't' ∷ [];
  resolve_server_address = (host, 8003);
  resolve_server_conn = some 1;
  nodes = [];
  nodes_index = [];
  clients = [];
  net = 0;
}

node_a-Fits : (port : ℕ) → port < 2 ^ 32 → Fits a_hash port host a_path
node_a-Fits port h = record {
  addr_word = omega arith;
  port_word = h;
  ip_text = omega arith;
  ip_short = omega arith;
  path_text = omega arith;
  path_short = omega arith;
}

node_a-NodeIsValid : NodeIsValid a_hash node_a
unfolding Address.create Address.has_slash Address.ends_with_slash Address.back hash
node_a-NodeIsValid = record {
  filed = refl;
  address = record { node_addr = a_hash; client_addr = 0 };
  named = refl;
  hashed = refl;
}

lookup_reply-handle_resolve_server_message_example :
    (reply : ProtocolMessage) × (lookup_reply (some node_a) a_hash ≡ ok reply)
    × (cpmd_reads home 1 (serialize reply ++ (3 ∷ [])) ≡ (
        update_node_address_cache home (answer update_cache a_hash 8004 host a_path (3 ∷ []))
        >>= λ (t, p). ok t))
lookup_reply-handle_resolve_server_message_example =
    lookup_reply-handle_resolve_server_message home 1 node_a (3 ∷ [])
      (node_a-Fits 8004 (omega arith))

init_reply-handle_resolve_server_message_example :
    (reply : ProtocolMessage) × (init_reply node_a 8004 host ≡ ok reply)
    × (cpmd_reads home 1 (serialize reply ++ (0 ∷ [])) ≡ ok (record home { self_address = a_hash }))
    × (cpmd_reads home 1 (serialize reply ++ []) ≡ beyond)
init_reply-handle_resolve_server_message_example =
    init_reply-handle_resolve_server_message home 1 node_a 8004 host [] [] node_a-NodeIsValid
      (node_a-Fits 8004 (omega arith)) tt

-- The node "a/" asks over connection 1, which waits.
init_request-on_message_example :
    (t : Service) × (reply : ProtocolMessage) × (on_message [] waiting 1
        (message_at (serialize (init_request home) ++ []))
      ≡ ok t)
    × (init_reply node_a 8004 host ≡ ok reply)
    × (t.net ≡ 4)
    × (registry t a_hash ≡ some 1)
    × (context t 1 ≡ some (node a_hash))
init_request-on_message_example =
    init_request-on_message waiting 1 node_a 1 home [] [] (omega arith)
      (unfold get_node_info_by_net_address Map.find in refl) (unfold Map.find in refl)
      (unfold context Map.find in refl) (node_a-Fits 8004 (omega arith))
