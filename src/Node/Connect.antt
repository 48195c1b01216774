-- ===== src/Node/Connect.antt =====
-- Node::SetConnection (cpm/cpm_node.cc), and the messages that wait for it.
use cpmd.Base.{
  ◌≡◌, refl, ap, subst, append-nil, ◌∙◌, ◌⊎◌, inl, inr, ◌≢◌, true, false, Bool-cases, Option-cases,
  Option, some, List, [], ◌∷◌, ◌++◌, arith,
}
use cpmd.Base.Outcome.{ok, aborted}
use cpmd.Alpha.{Alpha}
use cpmd.Message.{Message, serialize}
use cpmd.Queue.{Queue, push}
use cpmd.Queue
use cpmd.Node.{Node, cached, flush_list, flush_waiting, set_connection}
use cpmd.Node.Deliver.{Writes, stop, write, QueueIsValid, KeepsAllButQueue}

module _ ⦃α : Alpha⦄ where
  List-cases : (ms : List Message) → (ms ≡ []) ⊎ (ms ≢ [])
  List-cases [] = inl refl
  List-cases (m ∷ ms) = inr (λ e. cc)

  -- The loop of FlushMessage: what was written and what is left make up the queue, and it stops
  -- at the first write that fails.
  pub record Flushed (w : α.World) (c : α.Conn) (ms : List Message) (u : α.World)
      (rest : List Message) : Type 0 where
    pub sent : List Message
    pub between : α.World
    pub splits : ms ≡ sent ++ rest
    pub written : Writes c w sent between
    pub stopped :
        ((rest ≡ []) × (u ≡ between))
        ⊎ ((m : Message) × (more : List Message) × (rest ≡ m ∷ more)
            × (α.write between c (serialize m) ≡ (u, false)))

  -- The loop of FlushMessage splits the queue into messages that were written, in order, and
  -- messages that are left, and it stops at the end or at the first write that fails, whose
  -- message stays first.
  flush_list-Flushed :
      (w : α.World) (c : α.Conn) (ms : List Message)
      → Flushed w c ms (flush_list w c ms).0 (flush_list w c ms).1
  unfolding flush_list
  flush_list-Flushed w c [] = record {
    sent = [];
    between = w;
    splits = refl;
    written = stop;
    stopped = inl (refl, refl);
  }
  flush_list-Flushed w c (m ∷ ms) = elim (Bool-cases (α.write w c (serialize m)).1) [
    | inl done ↦
        let ih = flush_list-Flushed (α.write w c (serialize m)).0 c ms in
        rw done (record {
          sent = m ∷ ih.sent;
          between = ih.between;
          splits = ap (◌∷◌ m) ih.splits;
          written = write m (λ i. ((α.write w c (serialize m)).0, done i)) ih.written;
          stopped = ih.stopped;
        })
    | inr failed ↦ rw failed (record {
      sent = [];
      between = w;
      splits = refl;
      written = stop;
      stopped = inr (m, ms, refl, λ i. ((α.write w c (serialize m)).0, failed i));
    })
  ]

  flushed-QueueIsValid :
      (n : Node) (q : Queue)
      → n.messages_to_deliver ≡ some q
      → QueueIsValid n.messages_to_deliver
      → QueueIsValid (some (record q { messages = [] }))
  flushed-QueueIsValid n q h v = unfold_at (subst QueueIsValid h v)
    where
      unfold_at : QueueIsValid (some q) → QueueIsValid (some (record q { messages = [] }))
      unfold_at w = omega arith

  flush_waiting-all :
      (w : α.World) (n : Node) (c : α.Conn)
      → (flush_list w c (cached n)).1 ≡ []
      → (n' : Node) × (flush_waiting w n c ≡ ok ((flush_list w c (cached n)).0, n'))
        × (cached n' ≡ [])
        × KeepsAllButQueue n n'
        × (QueueIsValid n.messages_to_deliver → QueueIsValid n'.messages_to_deliver)
  unfolding flush_waiting cached Queue.empty Queue.new
  flush_waiting-all w n c e = elim (Option-cases n.messages_to_deliver) [
    | inl h ↦ (n, ground arith, ground arith, (refl, refl, refl, refl), λ v. v)
    | inr (q, h) ↦ elim (Bool-cases (Queue.empty q)) [
      | inl b ↦ (n, ground arith, ground arith, (refl, refl, refl, refl), λ v. v)
      | inr b ↦ (
        record n { messages_to_deliver = some (record q { messages = [] }) },
        ground arith,
        refl,
        (refl, refl, refl, refl),
        flushed-QueueIsValid n q h,
      )
    ]
  ]

  flush_list-nil : (w : α.World) (c : α.Conn) → flush_list w c [] ≡ (w, [])
  unfolding flush_list
  flush_list-nil w c = refl

  cached-weak_conn : (n : Node) (o : Option α.Conn) → cached (record n { weak_conn = o }) ≡ cached n
  unfolding cached
  cached-weak_conn n o = refl

  flush_waiting-some :
      (w : α.World) (n : Node) (c : α.Conn)
      → (flush_list w c (cached n)).1 ≢ []
      → flush_waiting w n c ≡ aborted
  unfolding flush_waiting cached Queue.empty Queue.new
  flush_waiting-some w n c e = elim (Option-cases n.messages_to_deliver) [
    | inl h ↦ absurd (e (rw h (ap (λ (r : α.World × List Message). r.1) (flush_list-nil w c))))
    | inr (q, h) ↦ elim (List-cases q.messages) [
      | inl b ↦
          absurd (e (rw h (rw b (ap (λ (r : α.World × List Message). r.1) (flush_list-nil w c)))))
      | inr b ↦ ground arith
    ]
  ]

  Flushed-all :
      {w u : α.World} {c : α.Conn} {ms : List Message} → Flushed w c ms u [] → Writes c w ms u
  Flushed-all {w} {u} {c} {ms} f = elim f.stopped [
    | inl (p, e) ↦ rw (e, f.splits ∙ append-nil f.sent) f.written
    | inr (m, more, p, q) ↦ cc
  ]

  -- SetConnection either returns, and then every message that waited was written to the
  -- connection, in order, none waits any more, the connection is the node's and its states and
  -- addresses are unchanged; or an assert stops it, and then the connection is closed or the loop
  -- left messages.
  pub set_connection-Writes :
      (w : α.World) (n : Node) (c : α.Conn)
      → ((u : α.World) × (n' : Node) × (set_connection w n c ≡ ok (u, n'))
          × Writes c w (cached n) u
          × (cached n' ≡ [])
          × (n'.weak_conn ≡ some c)
          × KeepsAllButQueue n n'
          × (QueueIsValid n.messages_to_deliver → QueueIsValid n'.messages_to_deliver))
        ⊎ ((set_connection w n c ≡ aborted)
            × ((α.closed w c ≡ true) ⊎ ((flush_list w c (cached n)).1 ≢ [])))
  unfolding set_connection
  set_connection-Writes w n c = elim (Bool-cases (α.closed w c)) [
    | inl shut ↦ inr (rw shut, inl shut)
    | inr open_ ↦ elim (List-cases (flush_list w c (cached n)).1) [
      | inl e ↦
          let (n', run, none_left, kept, valid) = flush_waiting-all w n c e in
          inl (
            (flush_list w c (cached n)).0,
            record n' { weak_conn = some c },
            rw (open_, run),
            Flushed-all (
                subst (Flushed w c (cached n) (flush_list w c (cached n)).0) e
                  (flush_list-Flushed w c (cached n))),
            cached-weak_conn n' (some c) ∙ none_left,
            refl,
            kept,
            valid,
          )
      | inr e ↦ inr (rw (open_, flush_waiting-some w n c e), inr e)
    ]
  ]
