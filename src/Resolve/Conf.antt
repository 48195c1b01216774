-- ===== src/Resolve/Conf.antt =====
-- cpm/cpm_resolve_server_conf.h and cpm/cpm_resolve_server_conf.cc: the configuration of the resolve
-- server. A pointer into the map of nodes is the key of the node, since nodes are never taken out.
pub mod Valid
use cpmd.Base.{ℕ, Bool, true, false, not, Option, none, some, List, [], ◌∷◌, is_some, if◌then◌else◌}
use cpmd.Base.Map
use cpmd.Base.Map.{nat_key}
use cpmd.Base.Bytes.{same, pair_key}
use cpmd.Alpha.{Alpha}
use cpmd.Boost.{PropertyTree}
use cpmd.Address.{create}
use cpmd.Resolve.Load.{Load, loaded, refused, thrown, lift, asserted, ◌>>=◌, ◌>>◌}

-- The names and paths in the file.
abbrev pub interface_path : List ℕ
interface_path = b'i' ∷ b'n' ∷ b't' ∷ b'e' ∷ b'r' ∷ b'f' ∷ b'a' ∷ b'c' ∷ b'e' ∷ []

abbrev pub server_name : List ℕ
server_name = b's' ∷ b'e' ∷ b'r' ∷ b'v' ∷ b'e' ∷ b'r' ∷ []

abbrev pub nodes_path : List ℕ
nodes_path = b'n' ∷ b'o' ∷ b'd' ∷ b'e' ∷ b's' ∷ []

abbrev pub node_name : List ℕ
node_name = b'n' ∷ b'o' ∷ b'd' ∷ b'e' ∷ []

abbrev pub tcp : List ℕ
tcp = b't' ∷ b'c' ∷ b'p' ∷ []

abbrev pub http : List ℕ
http = b'h' ∷ b't' ∷ b't' ∷ b'p' ∷ []

-- "<xmlattr>." in front of a name.
abbrev pub attribute : List ℕ → List ℕ
attribute name = b'<' ∷ b'x' ∷ b'm' ∷ b'l' ∷ b'a' ∷ b't' ∷ b't' ∷ b'r' ∷ b'>' ∷ b'.' ∷ name

abbrev pub type_attribute : List ℕ
type_attribute = attribute (b't' ∷ b'y' ∷ b'p' ∷ b'e' ∷ [])

abbrev pub ip_attribute : List ℕ
ip_attribute = attribute (b'i' ∷ b'p' ∷ [])

abbrev pub port_attribute : List ℕ
port_attribute = attribute (b'p' ∷ b'o' ∷ b'r' ∷ b't' ∷ [])

abbrev pub addr_attribute : List ℕ
addr_attribute = attribute (b'a' ∷ b'd' ∷ b'd' ∷ b'r' ∷ [])

module _ ⦃α : Alpha⦄ where
  -- ResolveServerConf::Node
  pub record ConfNode : Type 0 where
    pub node_addr : ℕ
    pub readable_addr : List ℕ
    pub net_addr : α.NetAddress

  pub record Conf : Type 0 where
    pub service_address : Option α.NetAddress
    pub monitor_address : Option α.NetAddress
    pub nodes : List (ℕ × ConfNode)
    pub cache_nodes : List ((List ℕ × ℕ) × ℕ)

  unfoldable pub empty_conf : Conf
  empty_conf = record {
    service_address = none;
    monitor_address = none;
    nodes = [];
    cache_nodes = [];
  }

  unfoldable pub get_node_info_by_node_address : Conf → ℕ → Option ConfNode
  get_node_info_by_node_address conf k = Map.find k conf.nodes

  unfoldable pub get_node_info_by_net_address : Conf → α.NetAddress → Option ConfNode
  get_node_info_by_net_address conf a = elim (Map.find (α.ip a, α.port a) conf.cache_nodes) [
    | none ↦ none
    | some k ↦ Map.find k conf.nodes
  ]

  -- The constructor of Node.
  unfoldable pub conf_node : List ℕ → List ℕ → ℕ → Load ConfNode
  conf_node readable ip port = do
    addr ← lift (create readable)
    loaded (record {
      node_addr = addr.node_addr;
      readable_addr = readable;
      net_addr = α.make_address ip port;
    })

  -- The end of the second loop's body: a node that is not there yet.
  unfoldable pub emplace_node : ConfNode → List ℕ → ℕ → Conf → Load Conf
  emplace_node n ip port conf = do
    let (nodes, added) = Map.emplace n.node_addr n conf.nodes
    asserted added
    loaded (record conf {
      nodes = nodes;
      cache_nodes = (Map.emplace (ip, port) n.node_addr conf.cache_nodes).0;
    })

  module _ (β : PropertyTree) where
    unfoldable pub address_of : β.Tree → Load α.NetAddress
    address_of t = do
      ip ← thrown (β.get_string ip_attribute t)
      port ← thrown (β.get_int port_attribute t)
      loaded (α.make_address ip port)

    unfoldable pub set_service : Conf → β.Tree → Load Conf
    set_service conf t =
        if is_some conf.service_address
        then refused
        else (do a ← address_of t; loaded (record conf { service_address = some a }))

    unfoldable pub set_monitor : Conf → β.Tree → Load Conf
    set_monitor conf t =
        if is_some conf.monitor_address
        then refused
        else (do a ← address_of t; loaded (record conf { monitor_address = some a }))

    -- The body of the loop over the interface.
    unfoldable pub add_server : Conf → List ℕ × β.Tree → Load Conf
    add_server conf (name, t) = if not (same name server_name) then loaded conf else (do
      kind ← thrown (β.get_string type_attribute t)
      if same kind tcp
          then set_service conf t
          else if same kind http
          then set_monitor conf t
          else loaded conf)

    unfoldable pub add_servers : List (List ℕ × β.Tree) → Conf → Load Conf
    add_servers [] conf = loaded conf
    add_servers (p ∷ ps) conf = add_server conf p >>= λ c. add_servers ps c

    -- The body of the loop over the nodes.
    unfoldable pub add_node : Conf → List ℕ × β.Tree → Load Conf
    add_node conf (name, t) = if not (same name node_name) then loaded conf else (do
      readable ← thrown (β.get_string addr_attribute t)
      ip ← thrown (β.get_string ip_attribute t)
      port ← thrown (β.get_int port_attribute t)
      n ← conf_node readable ip port
      if is_some (Map.find n.node_addr conf.nodes) then refused else emplace_node n ip port conf)

    unfoldable pub add_nodes : List (List ℕ × β.Tree) → Conf → Load Conf
    add_nodes [] conf = loaded conf
    add_nodes (p ∷ ps) conf = add_node conf p >>= λ c. add_nodes ps c

    unfoldable pub create_from_file : List ℕ → Load Conf
    create_from_file file = do
      pt ← thrown (β.read_xml file)
      interface ← thrown (β.get_child interface_path pt)
      conf ← add_servers (β.children interface) empty_conf
      if not (is_some conf.service_address)
          then refused
          else (do nodes ← thrown (β.get_child nodes_path pt); add_nodes (β.children nodes) conf)
