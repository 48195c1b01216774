-- ===== src/Tests/Hosts.antt =====
-- A network of hosts for the resolve server: a world counts what is done to it, connection n comes
-- from a port of the host "1", and the file of the configuration has the nodes "a/" and "b/" there.
use cpmd.Base.{ℕ, zero, suc, ◌+◌, true, Option, none, some, List, [], ◌∷◌, ◌==◌, if◌then◌else◌}
use cpmd.Base.Map.{nat_key}
use cpmd.Base.Bytes.{same, pair_key}
use cpmd.Alpha.{Alpha}
use cpmd.Boost.{PropertyTree}
use cpmd.Address.{slash}
use cpmd.Resolve.Conf.{
  interface_path, nodes_path, server_name, node_name, tcp, type_attribute, ip_attribute,
  addr_attribute,
}

abbrev pub host : List ℕ
host = b'1' ∷ []

instance abbrev pub hosts : Alpha
hosts = record {
  NetAddress = List ℕ × ℕ;
  net_key = pair_key;
  make_address = λ ip port. (ip, port);
  ip = λ a. a.0;
  port = λ a. a.1;
  World = ℕ;
  Conn = ℕ;
  alive = λ w c. true;
  closed = λ w c. c == 0;
  write = λ w c bytes. (suc w, true);
  close = λ w c. suc w;
  conn_key = nat_key;
  peer_addr = λ c. (host, 5000 + c);
  connect_to = λ w a. suc w;
  connect_after = λ w delay a. suc w;
  listen = λ w a. (suc w, true);
  start_udp = λ w a. (suc w, true);
  log_every = λ w delay. suc w;
  set_on_read = λ w c. suc w;
  close_after = λ w delay c. (suc w, w);
  remove_timer = λ w id. suc w;
  Bus = List (List ℕ);
  bus_write = λ b bytes. (bytes ∷ b, true);
  bus_read = λ b. (b, none);
  restore_or_create = λ w path n. (suc w, some []);
  restore_from = λ w path n. (suc w, some []);
}

abbrev pub a_path : List ℕ
a_path = b'a' ∷ slash ∷ []

abbrev pub b_path : List ℕ
b_path = b'b' ∷ slash ∷ []

-- The elements of the file: 0 is the whole, 1 and 2 are interface and nodes, 3 is the server, and
-- 4 and 5 are the nodes.
abbrev child : List ℕ → ℕ → Option ℕ
child path zero =
    if same path interface_path then some 1 else if same path nodes_path then some 2 else none
child path (suc t) = none

abbrev children : ℕ → List (List ℕ × ℕ)
children t =
    if t == 1
    then (server_name, 3) ∷ []
    else if t == 2
    then (node_name, 4) ∷ (node_name, 5) ∷ []
    else []

abbrev text : List ℕ → ℕ → Option (List ℕ)
text path t =
    if same path type_attribute
    then some tcp
    else if same path ip_attribute
    then some host
    else if same path addr_attribute
    then some (if t == 4 then a_path else b_path)
    else none

abbrev pub file : PropertyTree
file = record {
  Tree = ℕ;
  read_xml = λ name. some 0;
  get_child = child;
  children = children;
  get_string = text;
  get_int = λ path t. some (8000 + t);
}
