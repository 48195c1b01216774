-- ===== src/Resolve/Service/Agree.antt =====
-- The two tables of the resolve server (cpm/cpm_resolve_server.cc): the connection of each node that
-- has given its address, and the context of each connection.
use cpmd.Base.{ℕ, ◌≡◌, sym, ap, ◌∙◌, ◌⊎◌, inl, inr, Option, none, some, List, arith}
use cpmd.Base.Map
use cpmd.Base.Map.{nat_key}
use cpmd.Alpha.{Alpha}
use cpmd.Resolve.Service.{Context, timer, node}

module _ ⦃α : Alpha⦄ where
  abbrev pub context_of : α.Conn → List (α.Conn × Context) → Option Context
  context_of c contexts = Map.find ⦃o = α.conn_key⦄ c contexts

  pub record Agree (connections : List (ℕ × α.Conn)) (contexts : List (α.Conn × Context))
      : Type 0 where
    -- Who is registered knows it, and who knows of an address is registered.
    pub registered :
        (a : ℕ) (c : α.Conn)
        → Map.find a connections ≡ some c
        → context_of c contexts ≡ some (node a)
    pub known :
        (c : α.Conn) (a : ℕ)
        → context_of c contexts ≡ some (node a)
        → Map.find a connections ≡ some c

  context-assign :
      (c d : α.Conn) (x : Context) (contexts : List (α.Conn × Context))
      → ((c ≡ d) × (context_of d (Map.assign ⦃o = α.conn_key⦄ c x contexts) ≡ some x))
        ⊎ (context_of d (Map.assign ⦃o = α.conn_key⦄ c x contexts) ≡ context_of d contexts)
  context-assign c d x contexts =
      ground (arith, Map.find-assign ⦃o = α.conn_key⦄ c d x contexts, α.conn_key.beq_iff c d)

  context-erase :
      (c d : α.Conn) (contexts : List (α.Conn × Context))
      → ((c ≡ d) × (context_of d (Map.erase ⦃o = α.conn_key⦄ c contexts) ≡ none))
        ⊎ (((c ≡ d) → ⊥)
            × (context_of d (Map.erase ⦃o = α.conn_key⦄ c contexts) ≡ context_of d contexts))
  context-erase c d contexts =
      ground (arith, Map.find-erase ⦃o = α.conn_key⦄ c d contexts, α.conn_key.beq_iff c d)

  module _ (connections : List (ℕ × α.Conn)) (contexts : List (α.Conn × Context))
      (h : Agree connections contexts) where
    pub Agree-accept :
        (c : α.Conn) (id : ℕ)
        → context_of c contexts ≡ none
        → Agree connections (Map.assign ⦃o = α.conn_key⦄ c (timer id) contexts)
    Agree-accept c id free = record {
      registered = λ a d e. elim (context-assign c d (timer id) contexts) [
        | inl (same, new) ↦ cc (h.registered a d e, free, same)
        | inr old ↦ old ∙ h.registered a d e
      ];
      known = λ d a e. elim (context-assign c d (timer id) contexts) [
        | inl (same, new) ↦ cc (new, e)
        | inr old ↦ h.known d a (sym old ∙ e)
      ];
    }

    pub Agree-admit :
        (c : α.Conn) (a id : ℕ)
        → Map.find a connections ≡ none
        → context_of c contexts ≡ some (timer id)
        → Agree (Map.insert a c connections) (Map.assign ⦃o = α.conn_key⦄ c (node a) contexts)
    Agree-admit c a id free waits = record {
      registered = λ b d e. elim (Map.find-insert_cases a b c d connections free e) [
        | inl (same, new) ↦ elim (context-assign c d (node a) contexts) [
          | inl (self, f) ↦ f ∙ ap (λ k. some (node k)) same
          | inr old ↦ ground (
            arith,
            new,
            Map.find-assign ⦃o = α.conn_key⦄ c d (node a) contexts,
            α.conn_key.beq_iff c d,
            same,
          )
        ]
        | inr there ↦ elim (context-assign c d (node a) contexts) [
          | inl (self, f) ↦ cc (h.registered b d there, waits, self)
          | inr old ↦ old ∙ h.registered b d there
        ]
      ];
      known = λ d b e. elim (context-assign c d (node a) contexts) [
        | inl (self, f) ↦
            let q : some (node a) ≡ some (node b) = sym f ∙ e in
            let r : a ≡ b = cc q in
            ap (λ k. Map.find k (Map.insert a c connections)) (sym r)
            ∙ (Map.find-insert_self a c connections free ∙ ap some self)
        | inr old ↦ Map.find-insert-some a b c d connections free (h.known d b (sym old ∙ e))
      ];
    }

    pub Agree-leave :
        (c : α.Conn) (a : ℕ)
        → context_of c contexts ≡ some (node a)
        → Agree (Map.erase a connections) (Map.erase ⦃o = α.conn_key⦄ c contexts)
    Agree-leave c a at_a = record {
      registered = λ b d e.
          let was : Map.find b connections ≡ some d = Map.find-erase_cases a b d connections e in
          elim (context-erase c d contexts) [
            | inl (same, gone) ↦
                let r : a ≡ b = cc (h.registered b d was, at_a, same) in
                ground (arith, e, Map.find-erase a b connections, r)
            | inr (other, old) ↦ old ∙ h.registered b d was
          ];
      known = λ d b e. elim (context-erase c d contexts) [
        | inl (same, gone) ↦ cc (gone, e)
        | inr (other, old) ↦
            let was : Map.find b connections ≡ some d = h.known d b (sym old ∙ e) in
            ground (arith, was, Map.find-erase a b connections, h.known c a at_a, other)
      ];
    }

    pub Agree-forget :
        (c : α.Conn)
        → ((a : ℕ) → context_of c contexts ≡ some (node a) → ⊥)
        → Agree connections (Map.erase ⦃o = α.conn_key⦄ c contexts)
    Agree-forget c free = record {
      registered = λ b d e. elim (context-erase c d contexts) [
        | inl (same, gone) ↦
            absurd (free b (ap (λ x. context_of x contexts) same ∙ h.registered b d e))
        | inr (other, old) ↦ old ∙ h.registered b d e
      ];
      known = λ d b e. elim (context-erase c d contexts) [
        | inl (same, gone) ↦ cc (gone, e)
        | inr (other, old) ↦ h.known d b (sym old ∙ e)
      ];
    }
