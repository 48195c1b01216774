-- ===== src/Tests/Resolve.antt =====
-- The resolve server at work on Tests/Hosts.
use cpmd.Base.{false, ℕ, ◌≡◌, ◌⊎◌, refl, inl, none, some, [], ◌∷◌}
use cpmd.Base.Map
use cpmd.Base.Map.{nat_key}
use cpmd.Base.Outcome.{ok, aborted}
use cpmd.Address
use cpmd.Address.Hash.{hash}
use cpmd.Message.{word}
use cpmd.Protocol.{ProtocolMessage, half}
use cpmd.Protocol.Request.{ResolveRequest, initialize_self, lookup_node}
use cpmd.Protocol.Request
use cpmd.Protocol.Response.{
  builder, set_code, set_type, set_node_address, set_node_port, set_node_ip, set_node_path,
}
use cpmd.Resolve.Conf.{
  Conf, ConfNode, create_from_file, get_node_info_by_net_address, conf_node, emplace_node,
  address_of, set_service, set_monitor, add_server, add_servers, add_node, add_nodes, empty_conf,
}
use cpmd.Resolve.Load.Reads.{Reads}
use cpmd.Resolve.Conf.Valid.{IsValid, create_from_file-IsValid}
use cpmd.Resolve.Service.{
  timer, node, Service, context, run, serve, on_new_connection, on_close, on_message, dispatch,
  handle_node_init, init_reply, admit, respond, reply_bytes, handle_node_lookup,
}
use cpmd.Resolve.Service.Steps.{Step, accepted, received, Reached, started, stepped}
use cpmd.Resolve.Service.Valid.{Move, IsConsistent, registry}
use cpmd.Resolve.Service.Reach.{Reached-IsConsistent, Reached-Move, Reached-on_close}
use cpmd.Resolve.Service.Lookup.{told, handle_node_lookup_lem}
use cpmd.Resolve.Service.Twice.{handle_node_init-aborts}
use cpmd.Tests.Hosts.{hosts, file, host, a_path, b_path}

abbrev pub a_hash : ℕ
a_hash = 3602372301

abbrev pub node_a : ConfNode
node_a = record { node_addr = a_hash; readable_addr = a_path; net_addr = (host, 8004) }

abbrev pub node_b : ConfNode
node_b = record { node_addr = 2385765011; readable_addr = b_path; net_addr = (host, 8005) }

abbrev conf : Conf
conf = record {
  service_address = some (host, 8003);
  monitor_address = none;
  nodes = (2385765011, node_b) ∷ (a_hash, node_a) ∷ [];
  cache_nodes = ((host, 8004), a_hash) ∷ ((host, 8005), 2385765011) ∷ [];
}

-- The server at its start, with one connection, and when the node "a/" has given its port over it.
abbrev fresh : Service
fresh = record { conf = conf; connections = []; contexts = []; net = 1 }

abbrev pub waiting : Service
waiting = record { conf = conf; connections = []; contexts = (1, timer 1) ∷ []; net = 2 }

abbrev pub known : Service
known = record {
  conf = conf;
  connections = (a_hash, 1) ∷ [];
  contexts = (1, node a_hash) ∷ [];
  net = 4;
}

abbrev pub hello : ProtocolMessage
hello = record {
  kind = 2;
  magic = 0x12345678;
  len = 16;
  data_ = 1 ∷ 0 ∷ 0 ∷ 0 ∷ 0 ∷ 0 ∷ 0 ∷ 0 ∷ 0x44 ∷ 0x1F ∷ 0 ∷ 0 ∷ 0 ∷ 0 ∷ 0 ∷ 0 ∷ [];
}

serve-fresh : serve file [] 0 ≡ ok (some fresh)
unfolding serve run create_from_file empty_conf add_servers add_server set_service set_monitor
    address_of add_nodes add_node conf_node emplace_node Map.find Map.insert Map.emplace
    Address.create Address.has_slash Address.ends_with_slash Address.back hash
serve-fresh = refl

accept-waiting : waiting ≡ on_new_connection fresh 1
unfolding on_new_connection Map.assign Map.find Map.insert
accept-waiting = refl

message-known : on_message [] waiting 1 hello ≡ ok known
unfolding Request.has_fields on_message dispatch handle_node_init init_reply admit respond
    reply_bytes context get_node_info_by_net_address Map.find Map.insert Map.emplace Map.set
    Map.assign Request.of_data half word set_code set_type set_node_address set_node_port
    set_node_ip set_node_path builder
message-known = refl

waiting-Reached : Reached file [] waiting
unfolding context Map.find
waiting-Reached =
    stepped fresh waiting (started 0 fresh serve-fresh) (accepted 1 refl accept-waiting)

known-step : Step waiting known
known-step = received [] 1 hello message-known

known-Reached : Reached file [] known
known-Reached = stepped waiting known waiting-Reached known-step

create_from_file-IsValid_example : Reads IsValid (create_from_file file [])
create_from_file-IsValid_example = create_from_file-IsValid file []

Reached-IsConsistent_example : IsConsistent known
Reached-IsConsistent_example = Reached-IsConsistent file [] known known-Reached

Reached-Move_example : ◌≡◌ {A = Conf} conf conf × Move conf (registry waiting) (registry known)
Reached-Move_example = Reached-Move file [] waiting known waiting-Reached known-step

Reached-on_close_example :
    (t : Service) × (on_close known 1 ≡ ok t)
    × ((a : ℕ) → registry t a ≡ some 1 → ⊥)
    × Move conf (registry known) (registry t)
Reached-on_close_example = Reached-on_close file [] known 1 known-Reached

pub known-IsConsistent : IsConsistent known
known-IsConsistent = Reached-IsConsistent file [] known known-Reached

pub known-context : context known 1 ≡ some (node a_hash)
unfolding context Map.find
known-context = refl

-- Connection 1 asks for the node "b/", as the node "a/".
abbrev asks : ResolveRequest
asks = record { type_ = lookup_node; self_addr = a_hash; cpmd_port = 0; peer_addr = 2385765011 }

handle_node_lookup_lem_example :
    ((registry known a_hash ≡ none) × (handle_node_lookup known 1 asks ≡ ok (none, false)))
    ⊎ ((d : ℕ) × (registry known a_hash ≡ some d)
        × (handle_node_lookup known 1 asks ≡ told known 2385765011))
handle_node_lookup_lem_example =
    handle_node_lookup_lem known 1 asks (node a_hash) known-IsConsistent known-context

-- Connection 2 gives the port of the node "a/" once more.
abbrev again : ResolveRequest
again = record { type_ = initialize_self; self_addr = 0; cpmd_port = 8004; peer_addr = 0 }

listed : get_node_info_by_net_address conf (host, 8004) ≡ some node_a
unfolding get_node_info_by_net_address Map.find
listed = refl

pub registered : registry known a_hash ≡ some 1
unfolding Map.find
registered = refl

handle_node_init-aborts_example : handle_node_init known 2 again ≡ aborted
handle_node_init-aborts_example =
    handle_node_init-aborts known 2 again node_a listed (inl (1, registered))
