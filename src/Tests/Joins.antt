-- ===== src/Tests/Joins.antt =====
-- The client library at work on Tests/Hosts, and messages that come in pieces.
use cpmd.Base.{
  ℕ, suc, ◌<◌, ◌≤◌, ◌+◌, ◌≡◌, refl, ◌⊎◌, true, none, some, List, [], ◌∷◌, ◌++◌, map, length,
  length-replicate, replicate, arith, take, drop,
}
use cpmd.Base.Map
use cpmd.Base.Map.{nat_key}
use cpmd.Base.Outcome.{ok, ReturnsUnless}
use cpmd.Address.{Address, create}
use cpmd.Message.{max_data_size, min_size, serialize, size, header, word_bytes}
use cpmd.Message.Codec.Frames.{wire}
use cpmd.Message.Codec.Chunks.{joined, feed, feed-joined}
use cpmd.Protocol.{failed_to_create_bus}
use cpmd.Server.Init.{
  HandShakeRequest, get_input_bus_path, get_output_bus_path, reply_code, handle_init_command,
}
use cpmd.Server.Init.Accept
use cpmd.Client
use cpmd.Library.{
  Options, default_options, hand_shake_request, input_tunnel_path, output_tunnel_path, accept,
}
use cpmd.Library
use cpmd.Library.Udp.{System, status_ok, invalid_message, ready}
use cpmd.Library.Join.{GivesUnended, SelectsOurs, Creates, create-Creates}
use cpmd.Library.Limits.{alone, serialize-limits}
use cpmd.Library.HandShake.Crossed.{hand_shake_request-handle_init_command}
use cpmd.Tests.Hosts.{hosts}
use cpmd.Tests.Messages.{hello-IsFrame, hello-IsValid, begun, begun-IsBeginning, keep}
use cpmd.Tests.Net.{hello}
use cpmd.Tests.Protocols.{home}
use mathlib.Core.List.{foldl}

-- The message "hi" in three pieces, the second of which is empty, and a piece of the next one.
abbrev pieces : List (List ℕ)
pieces =
    take 5 (serialize hello) ∷ [] ∷ (drop 5 (serialize hello) ++ take 3 begun) ∷ drop 3 begun ∷ []

pieces-joined : joined pieces ≡ wire (hello ∷ []) ++ begun
unfolding serialize size header word_bytes
pieces-joined = refl

feed-joined_example :
    (feed keep 2 pieces [] [] ≡ some (begun, foldl keep [] (map serialize (hello ∷ []))))
    × (feed keep 2 pieces [] [] ≡ feed keep 2 (joined pieces ∷ []) [] [])
feed-joined_example =
    feed-joined keep 2 pieces (hello ∷ []) begun [] pieces-joined (hello-IsFrame, tt)
      begun-IsBeginning (omega arith)

serialize-limits_example :
    (min_size + 2 < max_data_size
      → Client.accept (some (serialize hello)) ≡ some (alone hello hello-IsValid))
    × (max_data_size ≤ min_size + 2 → Client.accept (some (serialize hello)) ≡ none)
    × (2 < max_data_size
        → accept (some (serialize hello)) ≡ (status_ok, some (alone hello hello-IsValid)))
    × (◌≡◌ {A = ℕ} 2 max_data_size → accept (some (serialize hello)) ≡ (invalid_message, none))
serialize-limits_example = serialize-limits hello hello-IsValid

-- A system on which every call works, and cpmd's reply is made of zeros.
instance abbrev system : System
system = record {
  open_socket = λ w. (suc w, 3);
  connect = λ w sock a. (suc w, true);
  send_bytes = λ w sock bytes. (suc w, some (length bytes));
  select = λ w sock s us. (w, ready true);
  recv_bytes = λ w sock n. (suc w, some (replicate 1036 0));
  close_socket = λ w sock. suc w;
}

abbrev zeros : List ℕ
zeros = replicate 1036 0

abbrev name : List ℕ
name = b'm' ∷ b'e' ∷ []

system-SelectsOurs : SelectsOurs
system-SelectsOurs w sock s us e = cc

create-Creates_example :
    ReturnsUnless GivesUnended (Creates name) (Library.create 0 zeros name default_options)
create-Creates_example =
    create-Creates system-SelectsOurs 0 zeros name default_options (omega arith)
      (unfold default_options in refl)

abbrev requested : HandShakeRequest
requested = record { buffer_size = 4096; name = name }

hand_shake_request-handle_init_command_example :
    ((w : ℕ) × Accept.LacksBus home requested zeros w
      × (handle_init_command home (hand_shake_request name 4096 zeros) zeros
          ≡ ok (record home { net = w }, some (reply_code failed_to_create_bus zeros))))
    ⊎ ((w : ℕ) × (addr : Address) × (i : List (List ℕ)) × (o : List (List ℕ)) × (reply : List ℕ)
        × (create name ≡ ok addr)
        × Accept.BothBuses home requested zeros w i o
        × (handle_init_command home (hand_shake_request name 4096 zeros) zeros
            ≡ ok (
              record home {
                net = w;
                clients =
                    (Map.emplace addr.client_addr
                      (Accept.joined home requested zeros addr i o)
                      []).0;
              },
              some reply,
            ))
        × (input_tunnel_path reply ≡ get_output_bus_path home.bus_location name)
        × (output_tunnel_path reply ≡ get_input_bus_path home.bus_location name))
hand_shake_request-handle_init_command_example =
    hand_shake_request-handle_init_command home name zeros zeros 4096 (omega arith) (omega arith)
      (omega arith) (length-replicate 1036 0) (length-replicate 1036 0)
