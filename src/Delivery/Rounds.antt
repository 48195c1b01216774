-- ===== src/Delivery/Rounds.antt =====
-- The rounds of Server::HandleBusMessage (cpm/cpm_server.cc) over the bus of a client that sends to
-- a client of the same node.
use cpmd.Base.{
  ℕ, zero, suc, ◌<◌, ◌≡◌, ◌≢◌, refl, sym, ap, ◌∙◌, ◌⊎◌, inl, inr, Bool, true, ◌||◌, Option, none,
  some, List, [], ◌∷◌, ◌++◌, map, append_assoc, append-nil, length, All, Bool-cases, ◌==◌, ==_iff,
  arith,
}
use cpmd.Base.Map
use cpmd.Base.Map.{nat_key}
use cpmd.Base.Outcome.{ok}
use cpmd.Alpha.{Alpha}
use cpmd.Address.{Address, create_directly}
use cpmd.Message.{Message, serialize, set_source_address}
use cpmd.Client.{ClientInfo, accept, read_message}
use cpmd.Library.Limits.{serialize-limits}
use cpmd.Server.{Server}
use cpmd.Server.Route.{find_client, put_client, handle_to_local_message}
use cpmd.Server.Route.Delivery.{offered, write_client-some, put_client-others}
use cpmd.Server.Bus.{dispatch, drain}
use cpmd.Delivery.{trimmed, sent_by, IsPassed, IsQueue, Takes}

module _ ⦃α : Alpha⦄ where
  pub find-put_self :
      (s : Server) (a : ℕ) (c x : ClientInfo)
      → find_client s a ≡ some x
      → find_client (put_client a c s) a ≡ some c
  unfolding find_client put_client
  find-put_self s a c x e = Map.find-set_self a c x s.clients e

  -- What a change of one client leaves of another, which may be the same.
  find-put_kept :
      {C : Type 0} (F : ClientInfo → C) (s : Server) (a b : ℕ) (c x y : ClientInfo)
      → find_client s a ≡ some x
      → find_client s b ≡ some y
      → F c ≡ F x
      → (z : ClientInfo) × (find_client (put_client a c s) b ≡ some z) × (F z ≡ F y)
  find-put_kept F s a b c x y e f same = elim (Bool-cases (a == b)) [
    | inl eq ↦
        let ab : a ≡ b = (==_iff a b).0 eq in
        let xy : x ≡ y = cc (ab, e, f) in
        (
          c,
          ap (λ (k : ℕ). find_client (put_client a c s) k) (sym ab) ∙ find-put_self s a c x e,
          same ∙ ap F xy,
        )
    | inr ne ↦ (y, put_client-others s a b c (ground (arith, ne)) ∙ f, refl)
  ]

  -- A client's bus to cpmd, the receiver's bus from cpmd.
  pub record Link (s : Server) (a b : ℕ) (q r : α.Bus) : Type 0 where
    pub from : ClientInfo
    pub to : ClientInfo
    pub from_found : find_client s a ≡ some from
    pub to_found : find_client s b ≡ some to
    pub named : from.addr.client_addr ≡ a
    pub input : from.input ≡ some q
    pub output : to.output ≡ some r

  -- For a client of this node.
  abbrev pub IsFor : ℕ → ℕ → Message → Type 0
  IsFor node b m = ((m.to.node_addr ≡ node) ⊎ (m.to.node_addr ≡ 0)) × (m.to.client_addr ≡ b)

  is_local :
      (node b : ℕ) (m : Message)
      → IsFor node b m
      → m.to.node_addr == node || m.to.node_addr == 0 ≡ true
  is_local node b m h = ground arith

  -- A message in dispatch.
  dispatch-local :
      (s : Server) (c x y : ClientInfo) (r : α.Bus) (m : Message) (a b : ℕ)
      → c.addr.client_addr ≡ a
      → IsFor s.self_address b m
      → find_client s a ≡ some x
      → find_client s b ≡ some y
      → y.output ≡ some r
      → dispatch s c (trimmed m) ≡ ok (put_client b (offered y r (sent_by s.self_address a m)) s)
  unfolding dispatch handle_to_local_message set_source_address create_directly
  dispatch-local s c x y r m a b named for source target out =
      rw (is_local s.self_address b m for, named, source, for.1, target)
        (write_client-some s b y r _ out)

  abbrev Clients : Type 0
  Clients = List (ℕ × ClientInfo)

  -- Only what is kept for these two clients changed.
  abbrev pub KeepsOthers : ℕ → ℕ → Server → Server → Type 0
  KeepsOthers a b s t = (k : ℕ) → a ≢ k → b ≢ k → find_client t k ≡ find_client s k

  pub drain-suc :
      (fuel a : ℕ) (busy : Bool) (s t : Server) (c : ClientInfo) (q : α.Bus) (bytes : List ℕ)
      (m : Message)
      → find_client s a ≡ some c
      → c.input ≡ some q
      → (α.bus_read q).1 ≡ some bytes
      → accept (some bytes) ≡ some m
      → dispatch
          (put_client a (record c { input = some (α.bus_read q).0 }) s)
          (record c { input = some (α.bus_read q).0 })
          m
        ≡ ok t
      → drain (suc fuel) a busy s ≡ drain fuel a true t
  unfolding drain read_message
  drain-suc fuel a busy s t c q bytes m e i r k d = rw (e, i, r, k, d)

  -- The round that finds nothing.
  pub drain-nothing :
      (fuel a : ℕ) (busy : Bool) (s : Server) (c : ClientInfo) (q : α.Bus)
      → find_client s a ≡ some c
      → c.input ≡ some q
      → (α.bus_read q).1 ≡ none
      → drain (suc fuel) a busy s
        ≡ ok (some (busy, put_client a (record c { input = some (α.bus_read q).0 }) s))
  unfolding drain read_message
  drain-nothing fuel a busy s c q e i r = rw (e, i, r, accept)

  -- One round over the sender's bus.
  round :
      (fuel a b : ℕ) (busy : Bool) (s : Server) (q r : α.Bus) (m : Message)
      → Link s a b q r
      → (α.bus_read q).1 ≡ some (serialize m)
      → IsPassed m
      → IsFor s.self_address b m
      → (cs : Clients) × (drain (suc fuel) a busy s ≡ drain fuel a true (record s { clients = cs }))
        × Link
            (record s { clients = cs })
            a
            b
            (α.bus_read q).0
            (α.bus_write r (serialize (sent_by s.self_address a m))).0
        × KeepsOthers a b s (record s { clients = cs })
  unfolding put_client
  round fuel a b busy s q r m l read p for =
      let c : ClientInfo = record l.from { input = some (α.bus_read q).0 } in
      let s1 : Server = put_client a c s in
      let from_found : find_client s1 a ≡ some c = find-put_self s a c l.from l.from_found in
      let (y, y_found, y_out) =
        find-put_kept {C = Option α.Bus} (λ x. x.output) s a b c l.from l.to l.from_found l.to_found
          refl in
      let out : y.output ≡ some r = y_out ∙ l.output in
      let y' : ClientInfo = offered y r (sent_by s.self_address a m) in
      let t : Server = put_client b y' s1 in
      let (z, z_found, z_same) =
        find-put_kept {C = Address × Option α.Bus} (λ x. (x.addr, x.input)) s1 b a y' y c y_found
          from_found refl in
      let accepted : accept (some (serialize m)) ≡ some (trimmed m) =
        (serialize-limits m p.valid).0 p.short in
      let put : dispatch s1 c (trimmed m) ≡ ok t =
        dispatch-local s1 c c y r m a b l.named for from_found y_found out in
      (
        t.clients,
        drain-suc fuel a busy s t l.from q (serialize m) (trimmed m) l.from_found l.input read
            accepted put,
        record {
          from = z;
          to = y';
          from_found = z_found;
          to_found = find-put_self s1 b y' y y_found;
          named = ap (λ p. p.0.client_addr) z_same ∙ l.named;
          input = ap (λ p. p.1) z_same;
          output = refl;
        },
        λ k d e. put_client-others s1 b k y' e ∙ put_client-others s a k c d,
      )

module _ ⦃α : Alpha⦄ (contents : α.Bus → List (List ℕ)) (queue : IsQueue contents) where
  -- The rounds over the sender's bus, up to the one that finds nothing.
  pub drain-Link :
      (ms : List Message) (fuel a b : ℕ) (busy : Bool) (s : Server) (q r : α.Bus)
      → Link s a b q r
      → contents q ≡ map serialize ms
      → All IsPassed ms
      → All (IsFor s.self_address b) ms
      → Takes r (map serialize (map (sent_by s.self_address a) ms))
      → length ms < fuel
      → (any : Bool) × (cs : List (ℕ × ClientInfo)) × (u : α.Bus) × (v : α.Bus) × (drain fuel a busy
            s
          ≡ ok (some (any, record s { clients = cs })))
        × Link (record s { clients = cs }) a b u v
        × KeepsOthers a b s (record s { clients = cs })
        × (contents v ≡ contents r ++ map serialize (map (sent_by s.self_address a) ms))
  unfolding put_client
  drain-Link ms zero a b busy s q r l e p f k h = absurd (omega arith)
  drain-Link [] (suc fuel) a b busy s q r l e p f k h =
      let c : ClientInfo = record l.from { input = some (α.bus_read q).0 } in
      let (y, y_found, y_out) =
        find-put_kept {C = Option α.Bus} (λ x. x.output) s a b c l.from l.to l.from_found l.to_found
          refl in
      (
        busy,
        (put_client a c s).clients,
        (α.bus_read q).0,
        r,
        drain-nothing fuel a busy s l.from q l.from_found l.input (queue.reads_nothing q e).0,
        record {
          from = c;
          to = y;
          from_found = find-put_self s a c l.from l.from_found;
          to_found = y_found;
          named = l.named;
          input = refl;
          output = y_out ∙ l.output;
        },
        λ x d n. put_client-others s a x c d,
        sym (append-nil (contents r)),
      )
  drain-Link (m ∷ ms) (suc fuel) a b busy s q r l e p f k h =
      let (read, rest) = queue.reads q (serialize m) (map serialize ms) e in
      let (cs, run, l', others) = round fuel a b busy s q r m l read p.0 f.0 in
      let sent : List ℕ = serialize (sent_by s.self_address a m) in
      let (any, ds, u, v, more, l'', others', all) =
        drain-Link ms fuel a b true (record s { clients = cs }) (α.bus_read q).0
          (α.bus_write r sent).0 l' rest p.1 f.1 k.1 (omega arith) in
      (
        any,
        ds,
        u,
        v,
        run ∙ more,
        l'',
        λ x d n. others' x d n ∙ others x d n,
        all
            ∙ ap (λ (xs : List (List ℕ)). xs ++ map serialize (map (sent_by s.self_address a) ms))
                (queue.writes r sent k.0)
            ∙ append_assoc (contents r) (sent ∷ [])
                (map serialize (map (sent_by s.self_address a) ms)),
      )
