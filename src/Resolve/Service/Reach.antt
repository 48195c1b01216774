-- ===== src/Resolve/Service/Reach.antt =====
-- The resolve server from its start on (cpm/cpm_resolve_server.cc).
use cpmd.Base.{
  arith, ℕ, ◌≡◌, refl, subst, if◌then◌else◌, true, false, Bool, Option, none, some, List, [],
}
use cpmd.Base.Map
use cpmd.Base.Map.{nat_key}
use cpmd.Base.Outcome.{Outcome, ok, aborted, invalid, beyond, assert_some, ◌>>=◌, Ensures}
use cpmd.Alpha.{Alpha}
use cpmd.Boost.{PropertyTree}
use cpmd.Resolve.Load.{Load}
use cpmd.Resolve.Load.Reads.{Reads, Reads-up}
use cpmd.Resolve.Conf.{Conf, create_from_file}
use cpmd.Resolve.Conf.Valid.{IsValid, create_from_file-IsValid}
use cpmd.Resolve.Service.{
  Service, node, run, serve, on_close, on_new_connection, kick_off_node, context,
}
use cpmd.Resolve.Service.Agree.{context_of, Agree, Agree-accept}
use cpmd.Resolve.Service.Steps.{
  forget, Step, accepted, received, closed, kicked, moved, Reached, started, stepped,
}
use cpmd.Resolve.Service.Valid.{
  registry, Move, IsConsistent, Keeps, Keeps-stays, on_message-Keeps, on_close-Keeps,
}

Ensures-ok : {A : Type 0} (P : A → Type 0) (m : Outcome A) (a : A) → Ensures P m → m ≡ ok a → P a
Ensures-ok P m a h e = subst (Ensures P) e h

Reads-assert_some :
    {A B : Type 0} (P : B → Type 0) (o : Option A) (f : A → Load B) (a : A)
    → o ≡ some a
    → Reads P (f a)
    → Reads P (assert_some o >>= f)
Reads-assert_some P o f a e h = rw e h

module _ ⦃α : Alpha⦄ where
  empty-Agree : Agree [] []
  unfolding Map.find
  empty-Agree = record { registered = λ a c e. cc; known = λ c a e. cc }

  run-IsConsistent :
      (conf : Conf) (w : α.World) → IsValid conf → Reads IsConsistent (run (some conf) w)
  unfolding run
  run-IsConsistent conf w v =
      Reads-assert_some IsConsistent conf.service_address _ v.service v.serves (
        Reads-up IsConsistent (α.listen w v.service).1 _
          (record { conf_valid = v; agree = empty-Agree }))

  kick-Keeps : (s : Service) (c : α.Conn) → IsConsistent s → Keeps s (kick_off_node s c)
  unfolding kick_off_node
  kick-Keeps s c v = go (α.alive s.net c)
    where
      go : (b : Bool) → Keeps s (if b then record s { net = α.close s.net c } else s)
      go true = Keeps-stays s v _ refl refl v.agree
      go false = Keeps-stays s v s refl refl v.agree

  accept-Keeps :
      (s : Service) (c : α.Conn)
      → IsConsistent s
      → context s c ≡ none
      → Keeps s (on_new_connection s c)
  unfolding on_new_connection context
  accept-Keeps s c v free =
      Keeps-stays s v _ refl refl (Agree-accept s.connections s.contexts v.agree c _ free)

  pub Step-Keeps : (s t : Service) → IsConsistent s → Step s t → Keeps s t
  Step-Keeps s t v (accepted c free e) = rw e (accept-Keeps s c v free)
  Step-Keeps s t v (received memory c m e) =
      Ensures-ok (Keeps s) _ t (on_message-Keeps s v memory c m) e
  Step-Keeps s t v (closed c u e f) =
      let (x, g, k) = on_close-Keeps s v c in
      let h : x ≡ u = cc (g, e) in rw f (subst (λ y. Keeps s (forget c y)) h k)
  Step-Keeps s t v (kicked c e) = rw e (kick-Keeps s c v)
  Step-Keeps s t v (moved w e) = rw e (Keeps-stays s v _ refl refl v.agree)

  module _ (β : PropertyTree) (file : List ℕ) where
    pub serve-IsConsistent : (w : α.World) → Reads IsConsistent (serve β file w)
    unfolding serve run
    serve-IsConsistent w = go (create_from_file β file) (create_from_file-IsValid β file)
      where
        go : (m : Load Conf) → Reads IsValid m → Reads IsConsistent (m >>= λ conf. run conf w)
        go (ok none) h = tt
        go (ok (some conf)) h = run-IsConsistent conf w h
        go aborted h = absurd h
        go invalid h = absurd h
        go beyond h = absurd h

    -- In every state that a resolve server comes to that was started with a file, whatever
    -- connections open, send, are kicked off or close, its configuration keeps its promises, and a
    -- connection is registered under an address exactly where its context holds this address.
    pub Reached-IsConsistent : (s : Service) → Reached β file s → IsConsistent s
    Reached-IsConsistent s (started w _ e) = subst (Reads IsConsistent) e (serve-IsConsistent w)
    Reached-IsConsistent t (stepped s _ r step) =
        (Step-Keeps s t (Reached-IsConsistent s r) step).consistent

    -- In a reached state of the resolve server, every step leaves the configuration as it is and
    -- is, on the registry of who is registered under which address, one of three moves: nothing; a
    -- connection that is not registered takes a free address, the one that the configuration has
    -- for a port of the connection's host; or one connection leaves one address.
    pub Reached-Move :
        (s t : Service)
        → Reached β file s
        → Step s t
        → (t.conf ≡ s.conf) × Move s.conf (registry s) (registry t)
    Reached-Move s t r step =
        let k = Step-Keeps s t (Reached-IsConsistent s r) step in (k.same_conf, k.move)

  erased :
      (t : Service) (c : α.Conn) (a : ℕ) → IsConsistent (forget c t) → registry t a ≡ some c → ⊥
  unfolding forget
  erased t c a v e =
      let f : context_of c (Map.erase ⦃o = α.conn_key⦄ c t.contexts) ≡ some (node a) =
        v.agree.registered a c e in
      ground (arith, f, Map.find-erase ⦃o = α.conn_key⦄ c c t.contexts, α.conn_key.beq_iff c c)

  module _ (β : PropertyTree) (file : List ℕ) where
    -- In a reached state of the resolve server OnClose of any connection returns, its assert never
    -- failing; the connection is then registered under no address, and the registry made one of
    -- its moves.
    pub Reached-on_close :
        (s : Service) (c : α.Conn)
        → Reached β file s
        → (t : Service) × (on_close s c ≡ ok t)
          × ((a : ℕ) → registry t a ≡ some c → ⊥)
          × Move s.conf (registry s) (registry t)
    unfolding forget
    Reached-on_close s c r =
        let (t, e, k) = on_close-Keeps s (Reached-IsConsistent β file s r) c in
        (t, e, (λ a. erased t c a k.consistent), k.move)
