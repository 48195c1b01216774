-- ===== src/Resolve/Conf/Valid.antt =====
-- The configuration that is read from a file (cpm/cpm_resolve_server_conf.cc): what its two maps
-- promise, and the asserts on the way.
use cpmd.Base.{
  ℕ, ◌≡◌, refl, ◌∙◌, inl, inr, Bool, true, false, not, Option, none, some, List, [], ◌∷◌, is_some,
}
use cpmd.Base.Map
use cpmd.Base.Map.{nat_key}
use cpmd.Base.Bytes.{same, pair_key}
use cpmd.Base.Outcome.{ok}
use cpmd.Alpha.{Alpha}
use cpmd.Boost.{PropertyTree}
use cpmd.Address.{Address, create}
use cpmd.Address.Create.{create-total}
use cpmd.Resolve.Load.Reads.{Reads, Reads->>=, Reads-thrown, Reads-if, Reads-mono}
use cpmd.Resolve.Conf.{
  server_name, tcp, http, node_name, type_attribute, ip_attribute, port_attribute, addr_attribute,
  interface_path, nodes_path, ConfNode, Conf, empty_conf, conf_node, emplace_node, address_of,
  set_service, set_monitor, add_server, add_servers, add_node, add_nodes, create_from_file,
}

is_some-false {ℓ} : {A : Type ℓ} (o : Option A) → is_some o ≡ false → o ≡ none
is_some-false none e = refl
is_some-false (some a) e = cc

is_some-true {ℓ} : {A : Type ℓ} (o : Option A) → is_some o ≡ true → (a : A) × (o ≡ some a)
is_some-true none e = cc
is_some-true (some a) e = (a, refl)

not-false : (b : Bool) → not b ≡ false → b ≡ true
not-false true e = refl
not-false false e = cc

module _ ⦃α : Alpha⦄ where
  -- A node is filed under the address of its name, and has the network address of its line.
  pub record NodeIsValid (k : ℕ) (n : ConfNode) : Type 0 where
    pub filed : n.node_addr ≡ k
    pub address : Address
    pub named : create n.readable_addr ≡ ok address
    pub hashed : address.node_addr ≡ k

  pub record Maps (nodes : List (ℕ × ConfNode)) (cache : List ((List ℕ × ℕ) × ℕ)) : Type 0 where
    pub nodes_valid : (k : ℕ) (n : ConfNode) → Map.find k nodes ≡ some n → NodeIsValid k n
    -- What the cache points to is there, and has the address that it is cached under.
    pub cache_valid :
        (a : List ℕ × ℕ) (k : ℕ)
        → Map.find a cache ≡ some k
        → (n : ConfNode) × (Map.find k nodes ≡ some n) × (n.net_addr ≡ α.make_address a.0 a.1)

  abbrev pub MapsOf : Conf → Type 0
  MapsOf c = Maps c.nodes c.cache_nodes

  empty-Maps : Maps [] []
  unfolding Map.find
  empty-Maps = record { nodes_valid = λ k n e. cc; cache_valid = λ a k e. cc }

  conf_node-Reads :
      (readable ip : List ℕ) (port : ℕ)
      → Reads
          (λ n. NodeIsValid n.node_addr n × (n.net_addr ≡ α.make_address ip port))
          (conf_node readable ip port)
  unfolding conf_node
  conf_node-Reads readable ip port =
      let (a, e) = create-total readable in
      rw e (record { filed = refl; address = a; named = e; hashed = refl }, refl)

  emplace_node-After :
      (n : ConfNode) (ip : List ℕ) (port : ℕ) (c : Conf)
      → MapsOf c
      → NodeIsValid n.node_addr n
      → n.net_addr ≡ α.make_address ip port
      → Map.find n.node_addr c.nodes ≡ none
      → Reads (λ d. MapsOf d × (d.service_address ≡ c.service_address)) (emplace_node n ip port c)
  unfolding emplace_node
  emplace_node-After n ip port c v h a free = rw (Map.emplace-eq_none n.node_addr n c.nodes free) (
    record {
      nodes_valid = λ k x e. elim (Map.find-insert_cases n.node_addr k n x c.nodes free e) [
        | inl (same, new) ↦ rw (← same, new) h
        | inr old ↦ v.nodes_valid k x old
      ];
      cache_valid = λ b k e.
          elim (Map.find-emplace_cases ⦃o = pair_key⦄ (ip, port) b n.node_addr k c.cache_nodes e) [
            | inl (same, new) ↦
                (n, rw new (Map.find-insert_self n.node_addr n c.nodes free), rw (← same) a)
            | inr old ↦
                let (x, found, q) = v.cache_valid b k old in
                (x, Map.find-insert-some n.node_addr k n x c.nodes free found, q)
          ];
    },
    refl,
  )

  -- A configuration whose maps are those of another one.
  abbrev SameMaps : Conf → Conf → Type 0
  SameMaps c d = (d.nodes ≡ c.nodes) × (d.cache_nodes ≡ c.cache_nodes)

  -- What the resolve server relies on.
  pub record IsValid (c : Conf) : Type 0 where
    pub service : α.NetAddress
    pub serves : c.service_address ≡ some service
    pub maps : MapsOf c

  module _ (β : PropertyTree) where
    address_of-Reads : (t : β.Tree) → Reads (λ a. Unit {0}) (address_of β t)
    unfolding address_of
    address_of-Reads t =
        Reads-thrown (λ a. Unit {0}) (β.get_string ip_attribute t) _
          λ ip. Reads-thrown (λ a. Unit {0}) (β.get_int port_attribute t) _ λ port. tt

    set_service-SameMaps : (c : Conf) (t : β.Tree) → Reads (SameMaps c) (set_service β c t)
    unfolding set_service
    set_service-SameMaps c t =
        Reads-if (SameMaps c) (is_some c.service_address) _ _ (λ e. tt)
          λ e.
            Reads->>= (λ a. Unit) (SameMaps c) (address_of β t) _ (address_of-Reads t)
              λ a u. (refl, refl)

    set_monitor-SameMaps : (c : Conf) (t : β.Tree) → Reads (SameMaps c) (set_monitor β c t)
    unfolding set_monitor
    set_monitor-SameMaps c t =
        Reads-if (SameMaps c) (is_some c.monitor_address) _ _ (λ e. tt)
          λ e.
            Reads->>= (λ a. Unit) (SameMaps c) (address_of β t) _ (address_of-Reads t)
              λ a u. (refl, refl)

    add_server-SameMaps :
        (c : Conf) (name : List ℕ) (t : β.Tree) → Reads (SameMaps c) (add_server β c (name, t))
    unfolding add_server
    add_server-SameMaps c name t =
        Reads-if (SameMaps c) (not (same name server_name)) _ _ (λ e. (refl, refl))
          λ e. Reads-thrown (SameMaps c) (β.get_string type_attribute t) _ λ kind.
            Reads-if (SameMaps c) (same kind tcp) _ _ (λ u. set_service-SameMaps c t)
              λ u.
                Reads-if (SameMaps c) (same kind http) _ _ (λ w. set_monitor-SameMaps c t)
                  λ w. (refl, refl)

    add_servers-SameMaps :
        (ps : List (List ℕ × β.Tree)) (c : Conf) → Reads (SameMaps c) (add_servers β ps c)
    unfolding add_servers
    add_servers-SameMaps [] c = (refl, refl)
    add_servers-SameMaps ((name, t) ∷ ps) c =
        Reads->>= (SameMaps c) (SameMaps c) (add_server β c (name, t)) _
          (add_server-SameMaps c name t)
          λ d (en, ec).
            Reads-mono (SameMaps d) (SameMaps c) (add_servers β ps d)
              (λ f (fn, fc). (fn ∙ en, fc ∙ ec)) (add_servers-SameMaps ps d)

    -- The service address stays, and the maps keep their promises.
    abbrev After : Conf → Conf → Type 0
    After c d = MapsOf d × (d.service_address ≡ c.service_address)

    add_node-After :
        (c : Conf) (name : List ℕ) (t : β.Tree)
        → MapsOf c
        → Reads (After c) (add_node β c (name, t))
    unfolding add_node
    add_node-After c name t v =
        Reads-if (After c) (not (same name node_name)) _ _ (λ e. (v, refl))
          λ e. Reads-thrown (After c) (β.get_string addr_attribute t) _ λ readable.
            Reads-thrown (After c) (β.get_string ip_attribute t) _ λ ip.
              Reads-thrown (After c) (β.get_int port_attribute t) _ λ port.
                Reads->>= _ (After c) (conf_node readable ip port) _
                  (conf_node-Reads readable ip port)
                  λ n (h, a).
                    Reads-if (After c) (is_some (Map.find n.node_addr c.nodes)) _ _ (λ f. tt)
                      λ f. emplace_node-After n ip port c v h a (is_some-false _ f)

    add_nodes-After :
        (ps : List (List ℕ × β.Tree)) (c : Conf) → MapsOf c → Reads (After c) (add_nodes β ps c)
    unfolding add_nodes
    add_nodes-After [] c v = (v, refl)
    add_nodes-After ((name, t) ∷ ps) c v =
        Reads->>= (After c) (After c) (add_node β c (name, t)) _ (add_node-After c name t v)
          λ d (w, e).
            Reads-mono (After d) (After c) (add_nodes β ps d) (λ f (u, g). (u, g ∙ e))
              (add_nodes-After ps d w)

    SameMaps-MapsOf : (c : Conf) → SameMaps empty_conf c → MapsOf c
    unfolding empty_conf
    SameMaps-MapsOf c (en, ec) = rw (en, ec) empty-Maps

    add_nodes-IsValid :
        (ps : List (List ℕ × β.Tree)) (c : Conf)
        → MapsOf c
        → is_some c.service_address ≡ true
        → Reads IsValid (add_nodes β ps c)
    add_nodes-IsValid ps c v there =
        let (a, e) = is_some-true c.service_address there in
        Reads-mono (After c) IsValid (add_nodes β ps c)
          (λ d (w, same). record { service = a; serves = same ∙ e; maps = w })
          (add_nodes-After ps c v)

    -- Reading the configuration stops at no assert, whatever the file holds: it gives nothing, or
    -- a configuration with a service address, where every node is filed under the address that
    -- Create makes of its name, and every entry of the cache names a node that is there and has
    -- the network address of the entry.
    pub create_from_file-IsValid : (file : List ℕ) → Reads IsValid (create_from_file β file)
    unfolding create_from_file
    create_from_file-IsValid file = Reads-thrown IsValid (β.read_xml file) _ λ pt.
        Reads-thrown IsValid (β.get_child interface_path pt) _ λ interface.
          Reads->>= (SameMaps empty_conf) IsValid (add_servers β (β.children interface) empty_conf)
            _ (add_servers-SameMaps (β.children interface) empty_conf)
            λ c m.
              Reads-if IsValid (not (is_some c.service_address)) _ _ (λ e. tt)
                λ e. Reads-thrown IsValid (β.get_child nodes_path pt) _ λ nodes.
                  add_nodes-IsValid (β.children nodes) c (SameMaps-MapsOf c m) (not-false _ e)
