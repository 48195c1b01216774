-- ===== src/Server/Tables.antt =====
-- What cpmd's three tables promise one another (cpm/cpm_server.h): every entry is filed under its own
-- address, a registered address belongs to a node, a resolved node has an address, and every client
-- has both of its buses. Here are the changes that the handlers
-- make.
use cpmd.Base.{ℕ, ◌≡◌, refl, inl, inr, true, Option-cases, some, List, is_some}
use cpmd.Base.Map
use cpmd.Base.Map.{Key, nat_key}
use cpmd.Base.Outcome.{ok, Safe, Safe-assert, Safe-assert_some}
use cpmd.Alpha.{Alpha}
use cpmd.Node.{Node, is_resolved_node}
use cpmd.Node
use cpmd.Node.Deliver.{QueueIsValid}
use cpmd.Client.{ClientInfo}
use cpmd.Server.{Server, find_node, put_node, add_new_node, register_node, unregister_node}
use cpmd.Server.Route.{put_client}

module _ ⦃α : Alpha⦄ where
  pub record NodeIsValid (k : ℕ) (n : Node) : Type 0 where
    pub named : n.node_address ≡ k
    pub has_address : is_resolved_node n ≡ true → (a : α.NetAddress) × (n.address ≡ some a)
    pub queue : QueueIsValid n.messages_to_deliver

  pub record ClientIsValid (a : ℕ) (c : ClientInfo) : Type 0 where
    pub named : c.addr.client_addr ≡ a
    pub has_input : (b : α.Bus) × (c.input ≡ some b)
    pub has_output : (b : α.Bus) × (c.output ≡ some b)

  abbrev pub NodesAreValid : List (ℕ × Node) → Type 0
  NodesAreValid nodes = (k : ℕ) (n : Node) → Map.find k nodes ≡ some n → NodeIsValid k n

  abbrev pub IndexIsValid : List (ℕ × Node) → List (α.NetAddress × ℕ) → Type 0
  IndexIsValid nodes index =
      (a : α.NetAddress) (k : ℕ)
      → Map.find ⦃o = α.net_key⦄ a index ≡ some k
      → (n : Node) × (Map.find k nodes ≡ some n)

  abbrev pub ClientsAreValid : List (ℕ × ClientInfo) → Type 0
  ClientsAreValid clients =
      (a : ℕ) (c : ClientInfo) → Map.find a clients ≡ some c → ClientIsValid a c

  NodesAreValid-set :
      (nodes : List (ℕ × Node)) (k : ℕ) (n : Node)
      → NodesAreValid nodes
      → NodeIsValid k n
      → NodesAreValid (Map.set k n nodes)
  NodesAreValid-set nodes k n h v j x e = elim (Map.find-set_cases k j n x nodes e) [
    | inl (same, new) ↦ rw (← same, new) v
    | inr old ↦ h j x old
  ]

  IndexIsValid-set :
      (nodes : List (ℕ × Node)) (index : List (α.NetAddress × ℕ)) (k : ℕ) (n : Node)
      → IndexIsValid nodes index
      → IndexIsValid (Map.set k n nodes) index
  IndexIsValid-set nodes index k n h a j e =
      let (x, found) = h a j e in Map.find-set-some k j n x nodes found

  pub new-NodeIsValid : (k : ℕ) → NodeIsValid k (Node.new k)
  unfolding Node.new is_resolved_node
  new-NodeIsValid k = record { named = refl; has_address = λ e. cc; queue = tt }

-- `Wanted` are clients that the tables are to hold.
module _ ⦃α : Alpha⦄ (Wanted : ℕ → Type 0) where
  pub record Tables (nodes : List (ℕ × Node)) (index : List (α.NetAddress × ℕ))
      (clients : List (ℕ × ClientInfo)) : Type 0 where
    pub nodes_valid : NodesAreValid nodes
    pub index_valid : IndexIsValid nodes index
    pub clients_valid : ClientsAreValid clients
    pub present : (a : ℕ) → Wanted a → (c : ClientInfo) × (Map.find a clients ≡ some c)

  -- The tables of a server.
  abbrev pub Inv : Server → Type 0
  Inv s = Tables s.nodes s.nodes_index s.clients

  -- A node changes in place.
  pub put_node-Inv :
      (s : Server) (k : ℕ) (n : Node) → Inv s → NodeIsValid k n → Inv (put_node k n s)
  unfolding put_node
  put_node-Inv s k n v h = record {
    nodes_valid = NodesAreValid-set s.nodes k n v.nodes_valid h;
    index_valid = IndexIsValid-set s.nodes s.nodes_index k n v.index_valid;
    clients_valid = v.clients_valid;
    present = v.present;
  }

  pub put_client-Inv :
      (s : Server) (a : ℕ) (c : ClientInfo) → Inv s → ClientIsValid a c → Inv (put_client a c s)
  unfolding put_client
  put_client-Inv s a c v h = record {
    nodes_valid = v.nodes_valid;
    index_valid = v.index_valid;
    clients_valid = λ b x e. elim (Map.find-set_cases a b c x s.clients e) [
      | inl (same, new) ↦ rw (← same, new) h
      | inr old ↦ v.clients_valid b x old
    ];
    present = λ b w. let (x, e) = v.present b w in Map.find-set-some a b c x s.clients e;
  }

  pub add_new_node-Inv :
      (s : Server) (k : ℕ)
      → Inv s
      → Safe (λ t. Inv t × (find_node t k ≡ some (Node.new k))) (add_new_node s k)
  unfolding add_new_node find_node
  add_new_node-Inv s k v = elim (Option-cases (Map.find k s.nodes)) [
    | inl e ↦ rw (Map.emplace-eq_none k (Node.new k) s.nodes e) (
      record {
        nodes_valid = λ j x f. elim (Map.find-insert_cases k j (Node.new k) x s.nodes e f) [
          | inl (same, made) ↦ rw (← same, made) (new-NodeIsValid k)
          | inr old ↦ v.nodes_valid j x old
        ];
        index_valid = λ a j f.
            let (x, found) = v.index_valid a j f in
            (x, Map.find-insert-some k j (Node.new k) x s.nodes e found);
        clients_valid = v.clients_valid;
        present = v.present;
      },
      Map.find-insert_self k (Node.new k) s.nodes e,
    )
    | inr (x, e) ↦ rw (Map.emplace-eq_some k (Node.new k) x s.nodes e) tt
  ]

  pub register_node-Inv :
      (s : Server) (k : ℕ) (n x : Node)
      → Inv s
      → find_node s k ≡ some x
      → Safe (λ t. Inv t × (t.nodes ≡ s.nodes)) (register_node k n s)
  unfolding register_node Node.net_address find_node
  register_node-Inv s k n x v e = Safe-assert_some _ n.address _ λ a _.
      elim (Option-cases (Map.find ⦃o = α.net_key⦄ a s.nodes_index)) [
        | inl free ↦ rw (Map.emplace-eq_none ⦃o = α.net_key⦄ a k s.nodes_index free) (
          record {
            nodes_valid = v.nodes_valid;
            index_valid = λ b j f.
                elim (Map.find-insert_cases ⦃o = α.net_key⦄ a b k j s.nodes_index free f) [
                  | inl (same, new) ↦ rw new (x, e)
                  | inr old ↦ v.index_valid b j old
                ];
            clients_valid = v.clients_valid;
            present = v.present;
          },
          refl,
        )
        | inr (j, taken) ↦ rw (Map.emplace-eq_some ⦃o = α.net_key⦄ a k j s.nodes_index taken) tt
      ]

  pub unregister_node-Inv : (s : Server) (n : Node) → Inv s → Safe Inv (unregister_node n s)
  unfolding unregister_node Node.net_address
  unregister_node-Inv s n v = Safe-assert_some Inv n.address _ λ a _.
      let t : Server = record s { nodes_index = Map.erase ⦃o = α.net_key⦄ a s.nodes_index } in
      Safe-assert Inv (is_some (Map.find ⦃o = α.net_key⦄ a s.nodes_index)) (ok t) λ _. record {
        nodes_valid = v.nodes_valid;
        index_valid =
            λ b j f. v.index_valid b j (Map.find-erase_cases ⦃o = α.net_key⦄ a b j s.nodes_index f);
        clients_valid = v.clients_valid;
        present = v.present;
      }

  -- A client that is there already stays; a new one joins.
  pub emplace_client-Inv :
      (s : Server) (a : ℕ) (c : ClientInfo)
      → Inv s
      → ClientIsValid a c
      → Inv (record s { clients = (Map.emplace a c s.clients).0 })
  emplace_client-Inv s a c v h = elim (Option-cases (Map.find a s.clients)) [
    | inl e ↦ rw (Map.emplace-eq_none a c s.clients e) (record {
      nodes_valid = v.nodes_valid;
      index_valid = v.index_valid;
      clients_valid = λ b x f. elim (Map.find-insert_cases a b c x s.clients e f) [
        | inl (same, new) ↦ rw (← same, new) h
        | inr old ↦ v.clients_valid b x old
      ];
      present =
          λ b w. let (x, f) = v.present b w in (x, Map.find-insert-some a b c x s.clients e f);
    })
    | inr (x, e) ↦ rw (Map.emplace-eq_some a c x s.clients e) v
  ]
