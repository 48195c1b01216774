-- ===== src/Tests/Buses.antt =====
-- A turn over the bus of one client, which holds two messages, and the paths of the buses.
use cpmd.Base.{subst, ℕ, ◌+◌, ◌<◌, ◌≤◌, ◌≡◌, ◌≢◌, some, List, [], ◌∷◌, length, arith}
use cpmd.Base.Map.{nat_key}
use cpmd.Base.Outcome.{Ensures}
use cpmd.Message.{serialize}
use cpmd.Protocol.{c_string}
use cpmd.Client.{ClientInfo}
use cpmd.Server.{Server}
use cpmd.Server.Route.{find_client}
use cpmd.Server.Bus.{handle_bus_message}
use cpmd.Server.Bus.Turn.{Drains, Holds, Finishes, handle_bus_message-Finishes}
use cpmd.Server.Init.{get_input_bus_path, get_output_bus_path}
use cpmd.Server.Init.Paths.{get_input_bus_path-get_output_bus_path}
use cpmd.Tests.Net.{net, hello, first_of}
use cpmd.Tests.Nodes.{waiting}
use cpmd.Tests.Servers.{home, find_one, client}

abbrev held : net.Bus → ℕ
held b = length b

first_of-Drains : Drains held
first_of-Drains = record { never_more = never_more; less = less }
  where
    never_more : (b : net.Bus) → held (first_of b).0 ≤ held b
    never_more [] = omega arith
    never_more (x ∷ xs) = omega arith

    less :
        (b : net.Bus) (bytes : List ℕ) → (first_of b).1 ≡ some bytes → held (first_of b).0 < held b
    less [] bytes e = cc
    less (x ∷ xs) bytes e = omega arith

-- The client sent two messages.
abbrev talker : ClientInfo
talker = record client { input = some (serialize hello ∷ serialize hello ∷ []) }

abbrev busy_home : Server
busy_home = record (home waiting) { clients = (5, talker) ∷ [] }

busy_home-Holds : Holds held first_of-Drains 3 busy_home
unfolding find_client
busy_home-Holds a c b f i = let (k, same) = find_one a 5 talker c f in few (sent same)
  where
    sent : talker ≡ c → some (serialize hello ∷ serialize hello ∷ []) ≡ some b
    sent e = cc (e, i)

    few : some (serialize hello ∷ serialize hello ∷ []) ≡ some b → held b < 3
    few e =
        let whole : (serialize hello ∷ serialize hello ∷ []) ≡ b = cc e in
        subst (λ (xs : List (List ℕ)). length xs < 3) whole (omega arith)

handle_bus_message-Finishes_example :
    Ensures (Finishes held first_of-Drains 3) (handle_bus_message 3 busy_home)
handle_bus_message-Finishes_example =
    handle_bus_message-Finishes held first_of-Drains 3 busy_home (omega arith) busy_home-Holds

get_input_bus_path-get_output_bus_path_example :
    ((125 ≤ length (c_string (b'/' ∷ [])) + length (c_string (b'c' ∷ [])))
      → get_input_bus_path (b'/' ∷ []) (b'c' ∷ []) ≡ get_output_bus_path (b'/' ∷ []) (b'c' ∷ []))
    × ((length (c_string (b'/' ∷ [])) + length (c_string (b'c' ∷ [])) < 125)
        → get_input_bus_path (b'/' ∷ []) (b'c' ∷ []) ≢ get_output_bus_path (b'/' ∷ []) (b'c' ∷ []))
get_input_bus_path-get_output_bus_path_example =
    get_input_bus_path-get_output_bus_path (b'/' ∷ []) (b'c' ∷ [])
