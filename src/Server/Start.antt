-- ===== src/Server/Start.antt =====
-- The constructor of Server and Server::Run (cpm/cpm_server.cc). The callbacks that Run installs are
-- the events of Server/Events.
pub mod Safe
use cpmd.Base.{ℕ, Bool, not, Option, none, some, List, [], if◌then◌else◌}
use cpmd.Alpha.{Alpha}
use cpmd.Address.{local_node_address}
use cpmd.Library.Udp.{localhost}
use cpmd.Server.{Server}

-- The flags of the command line.
pub record Flags : Type 0 where
  pub register_server_port : ℕ
  pub message_server_ip : List ℕ
  pub message_server_port : ℕ
  pub resolve_server_ip : List ℕ
  pub resolve_server_port : ℕ

-- Server behind its constructor: what is not set up yet is left out.
pub record Constructed : Type 0 where
  pub register_server_port : ℕ
  pub message_server_port : ℕ
  pub self_address : ℕ
  pub message_server_ip : List ℕ
  pub bus_location : List ℕ

unfoldable pub new : Flags → List ℕ → Constructed
new flags location = record {
  register_server_port = flags.register_server_port;
  message_server_port = flags.message_server_port;
  self_address = local_node_address;
  message_server_ip = flags.message_server_ip;
  bus_location = location;
}

-- The log of the connected nodes, in milliseconds.
abbrev pub log_interval : ℕ
log_interval = 1000

module _ ⦃α : Alpha⦄ where
  -- The end of Run: the resolve server's address, and the connection to it.
  unfoldable pub connected_to : Flags → Constructed → α.World → α.World × Option Server
  connected_to flags s w =
      let a = α.make_address flags.resolve_server_ip flags.resolve_server_port in
      let w' = α.log_every (α.connect_to w a) log_interval in
      (
        w',
        some (record {
          message_server_port = s.message_server_port;
          connected_nodes = 0;
          self_address = s.self_address;
          bus_location = s.bus_location;
          resolve_server_address = a;
          resolve_server_conn = none;
          nodes = [];
          nodes_index = [];
          clients = [];
          net = w';
        }),
      )

  -- Server::Run; `none` is its false.
  unfoldable pub run : Flags → Constructed → α.World → α.World × Option Server
  run flags s w =
      let (w', started) = α.start_udp w (α.make_address localhost s.register_server_port) in
      let (w'', up) = α.listen w' (α.make_address s.message_server_ip s.message_server_port) in
      if not started then (w', none) else if not up then (w'', none) else connected_to flags s w''
