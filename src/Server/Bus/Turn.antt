-- ===== src/Server/Bus/Turn.antt =====
-- How many rounds Server::HandleBusMessage (cpm/cpm_server.cc) needs.
use cpmd.Base.{
  ℕ, zero, suc, ◌≤◌, ◌<◌, ◌≡◌, refl, sym, ap, ◌∙◌, inl, inr, Bool, true, false, Option,
  Option-cases, none, some, List, [], ◌∷◌, map, arith,
}
use cpmd.Base.Map
use cpmd.Base.Map.{nat_key}
use cpmd.Base.Outcome.{Ensures, Ensures->>=}
use cpmd.Alpha.{Alpha}
use cpmd.Message.{Message}
use cpmd.Client.{ClientInfo, accept, read_message}
use cpmd.Server.{Server}
use cpmd.Server.Route.{find_client, put_client}
use cpmd.Server.Bus.{dispatch, drain, drain_all, handle_bus_message}
use cpmd.Server.Bus.Inputs.{SameInputs, dispatch-SameInputs}

-- `pending` counts what a bus holds: reading never adds to it, and takes from it what it gives.
pub record Drains ⦃α : Alpha⦄ (pending : α.Bus → ℕ) : Type 0 where
  pub never_more : (b : α.Bus) → pending (α.bus_read b).0 ≤ pending b
  pub less :
      (b : α.Bus) (bytes : List ℕ)
      → (α.bus_read b).1 ≡ some bytes
      → pending (α.bus_read b).0 < pending b

module _ ⦃α : Alpha⦄ (pending : α.Bus → ℕ) (d : Drains pending) where
  -- The buses that cpmd reads hold less than `n`.
  abbrev pub Holds : ℕ → Server → Type 0
  Holds n s =
      (a : ℕ) (c : ClientInfo) (b : α.Bus)
      → find_client s a ≡ some c
      → c.input ≡ some b
      → pending b < n

  -- A turn that was not stopped by want of rounds.
  abbrev pub Finishes : ℕ → Option (Bool × Server) → Type 0
  Finishes n r = (busy : Bool) × (t : Server) × (r ≡ some (busy, t)) × Holds n t

  accept-none :
      (o : Option (List ℕ)) (m : Message) → accept o ≡ some m → (bytes : List ℕ) × (o ≡ some bytes)
  unfolding accept
  accept-none none m e = cc
  accept-none (some bytes) m e = (bytes, refl)

  SameInputs-Holds : (n : ℕ) (s t : Server) → SameInputs s t → Holds n s → Holds n t
  SameInputs-Holds n s t same h a c' b f i =
      let (c, found, e) = same a c' f in h a c b found (sym e ∙ i)

  put_client-Holds :
      (n : ℕ) (s : Server) (a : ℕ) (c : ClientInfo) (b : α.Bus)
      → pending b < n
      → Holds n s
      → Holds n (put_client a (record c { input = some b }) s)
  unfolding find_client put_client
  put_client-Holds n s a c b l h k x y f i =
      elim (Map.find-set_cases a k (record c { input = some b }) x s.clients f) [
        | inl (same, new) ↦ let e : some b ≡ some y = sym (ap_input new) ∙ i in ground (arith, e, l)
        | inr old ↦ h k x y old i
      ]
    where
      ap_input : x ≡ record c { input = some b } → x.input ≡ some b
      ap_input e = rw e

  found_put :
      (s : Server) (a : ℕ) (c c' x : ClientInfo)
      → find_client s a ≡ some c
      → find_client (put_client a c' s) a ≡ some x
      → x ≡ c'
  unfolding find_client put_client
  found_put s a c c' x e f = cc (Map.find-set_self a c' c s.clients e, f)

  -- The client's own bus, behind a round that read from it.
  input_after :
      (s t : Server) (a : ℕ) (c : ClientInfo) (b y : α.Bus) (x : ClientInfo)
      → find_client s a ≡ some c
      → SameInputs (put_client a (record c { input = some b }) s) t
      → find_client t a ≡ some x
      → x.input ≡ some y
      → pending y ≡ pending b
  input_after s t a c b y x e same f j =
      let c' : ClientInfo = record c { input = some b } in
      let (z, found, i) = same a x f in
      let new : z ≡ c' = found_put s a c c' z e found in
      let back : some y ≡ some b = sym j ∙ i ∙ ap (λ (v : ClientInfo). v.input) new in
      ground (arith, back)

  drain-Finishes :
      (n fuel a : ℕ) (busy : Bool) (s : Server)
      → 0 < fuel
      → Holds n s
      → ((c : ClientInfo) (b : α.Bus)
          → find_client s a ≡ some c
          → c.input ≡ some b
          → pending b < fuel)
      → Ensures (Finishes n) (drain fuel a busy s)
  unfolding drain read_message
  drain-Finishes n zero a busy s p h k = absurd (omega arith)
  drain-Finishes n (suc fuel) a busy s p h k = elim (Option-cases (find_client s a)) [
    | inl e ↦ rw e tt
    | inr (c, e) ↦ elim (Option-cases c.input) [
      | inl i ↦ rw (e, i) tt
      | inr (b, i) ↦
          let left = (α.bus_read b).0 in
          let c' : ClientInfo = record c { input = some left } in
          let s' = put_client a c' s in
          let few = d.never_more b in
          let h' : Holds n s' = put_client-Holds n s a c left (omega (arith, few, h a c b e i)) h in
          elim (Option-cases (accept (α.bus_read b).1)) [
            | inl g ↦ rw (e, i, g) (busy, s', refl, h')
            | inr (m, g) ↦
                let (bytes, read) = accept-none (α.bus_read b).1 m g in
                let fewer = d.less b bytes read in
                let bound = k c b e i in
                rw (e, i, g)
                  (Ensures->>= (SameInputs s') (Finishes n) (dispatch s' c' m) _
                    (dispatch-SameInputs s' c' m)
                    λ t same.
                      drain-Finishes n fuel a true t (omega (arith, fewer, bound))
                        (SameInputs-Holds n s' t same h')
                        λ x y f j.
                          omega (arith, input_after s t a c left y x e same f j, fewer, bound))
          ]
    ]
  ]

  drain_all-Finishes :
      (n : ℕ) (keys : List ℕ) (busy : Bool) (s : Server)
      → 0 < n
      → Holds n s
      → Ensures (Finishes n) (drain_all n keys busy s)
  unfolding drain_all
  drain_all-Finishes n [] busy s p h = (busy, s, refl, h)
  drain_all-Finishes n (a ∷ keys) busy s p h =
      Ensures->>= (Finishes n) (Finishes n) (drain n a busy s) _
        (drain-Finishes n n a busy s p h (h a))
        λ r (b, t, e, h'). rw e (drain_all-Finishes n keys b t p h')

  -- Where reading a bus never adds to what it holds and takes from it what it gives, and every bus
  -- that cpmd reads holds less than n, the turn over the buses with n rounds for each bus never
  -- runs out of rounds: where no assert and no invalid access stops it, it ends, and the buses
  -- still hold less than n.
  pub handle_bus_message-Finishes :
      (n : ℕ) (s : Server) → 0 < n → Holds n s → Ensures (Finishes n) (handle_bus_message n s)
  unfolding handle_bus_message
  handle_bus_message-Finishes n s p h = drain_all-Finishes n (map (λ p. p.0) s.clients) false s p h
