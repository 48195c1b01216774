-- ===== src/Resolve/Service/Valid.antt =====
-- The calls of the resolve server (cpm/cpm_resolve_server.cc) on its tables, and the registry that
-- they carry out.
use cpmd.Base.{
  ℕ, ◌≡◌, refl, ap, inl, inr, Option, Option-cases, none, some, List, ◌==◌, if◌then◌else◌,
}
use cpmd.Base.Map
use cpmd.Base.Map.{nat_key}
use cpmd.Base.Outcome.{within, ok, Ensures, Ensures->>=, Ensures-any, Ensures-if}
use cpmd.Alpha.{Alpha}
use cpmd.Protocol.{ProtocolMessage}
use cpmd.Protocol.Request.{ResolveRequest, initialize_self, lookup_node}
use cpmd.Protocol.Request
use cpmd.Resolve.Conf.{ConfNode, Conf, get_node_info_by_net_address}
use cpmd.Resolve.Conf.Valid.{IsValid}
use cpmd.Resolve.Service.{
  timer, node, Service, context, on_close, leave, on_message, dispatch, handle_node_init,
  handle_node_lookup, init_reply, init_node, admit, respond, reply_bytes,
}
use cpmd.Resolve.Service.Agree.{Agree, context_of, Agree-admit, Agree-leave, Agree-forget}
use cpmd.Resolve.Service.Steps.{forget}

module _ ⦃α : Alpha⦄ where
  -- Who is registered under which address.
  abbrev pub registry : Service → ℕ → Option α.Conn
  registry s a = Map.find a s.connections

  -- What may happen to who is registered: nothing; a connection that is not registered takes a free
  -- address, the one that the configuration has for its address in the network; or it goes.
  pub data Move (conf : Conf) (r t : ℕ → Option α.Conn) : Type 0 where
    stays : t ≡ r → Move conf r t
    joins :
        (c : α.Conn) (port : ℕ) (n : ConfNode)
        → get_node_info_by_net_address conf (α.make_address (α.ip (α.peer_addr c)) port) ≡ some n
        → r n.node_addr ≡ none
        → ((a : ℕ) → r a ≡ some c → ⊥)
        → ((a : ℕ) → t a ≡ (if n.node_addr == a then some c else r a))
        → Move conf r t
    leaves :
        (c : α.Conn) (k : ℕ)
        → r k ≡ some c
        → ((a : ℕ) → t a ≡ (if k == a then none else r a))
        → Move conf r t

  pub record IsConsistent (s : Service) : Type 0 where
    pub conf_valid : IsValid s.conf
    pub agree : Agree s.connections s.contexts

  -- A call leaves the tables consistent and the configuration as it is, and is a move of the registry.
  pub record Keeps (s t : Service) : Type 0 where
    pub consistent : IsConsistent t
    pub same_conf : t.conf ≡ s.conf
    pub move : Move s.conf (registry s) (registry t)

  module _ (s : Service) (v : IsConsistent s) where
    pub Keeps-stays :
        (t : Service)
        → t.conf ≡ s.conf
        → t.connections ≡ s.connections
        → Agree t.connections t.contexts
        → Keeps s t
    Keeps-stays t e f h = record {
      consistent = record { conf_valid = rw e v.conf_valid; agree = h };
      same_conf = e;
      move = stays (ap (λ m a. Map.find a m) f);
    }

    admit-Keeps :
        (c : α.Conn) (port : ℕ) (n : ConfNode)
        → get_node_info_by_net_address s.conf (α.make_address (α.ip (α.peer_addr c)) port) ≡ some n
        → Ensures (Keeps s) (admit n s c)
    unfolding admit context
    admit-Keeps c port n listed = elim (Option-cases (Map.find n.node_addr s.connections)) [
      | inr (d, there) ↦ rw (Map.emplace-eq_some n.node_addr c d s.connections there) tt
      | inl free ↦
          rw (Map.emplace-eq_none n.node_addr c s.connections free)
            (elim (Option-cases (context_of c s.contexts)) [
              | inl e ↦ rw e tt
              | inr (node a, e) ↦ rw e tt
              | inr (timer id, e) ↦ rw e (record {
                consistent = record {
                  conf_valid = v.conf_valid;
                  agree = Agree-admit s.connections s.contexts v.agree c n.node_addr id free e;
                };
                same_conf = refl;
                move =
                    joins c port n listed free (λ a f. cc (v.agree.registered a c f, e))
                      (λ a. Map.find-insert n.node_addr a c s.connections free);
              })
            ])
    ]

    init_node-Keeps :
        (c : α.Conn) (port : ℕ) (o : Option ConfNode)
        → get_node_info_by_net_address s.conf (α.make_address (α.ip (α.peer_addr c)) port) ≡ o
        → Ensures (λ x. Keeps s x.0) (init_node o s c port)
    init_node-Keeps c port none e = Keeps-stays s refl refl v.agree
    init_node-Keeps c port (some n) e =
        Ensures-any (λ x. Keeps s x.0) (init_reply n port (α.ip (α.peer_addr c))) _
          λ reply.
            Ensures->>= (Keeps s) (λ x. Keeps s x.0) (admit n s c) _ (admit-Keeps c port n e)
              λ t k. k

    dispatch-Keeps :
        (c : α.Conn) (req : ResolveRequest) → Ensures (λ x. Keeps s x.0) (dispatch s c req)
    unfolding dispatch handle_node_init
    dispatch-Keeps c req =
        Ensures-if (λ x. Keeps s x.0) (req.type_ == initialize_self) _ _
          (init_node-Keeps c req.cpmd_port _ refl)
          (Ensures-if (λ x. Keeps s x.0) (req.type_ == lookup_node) _ _
            (Ensures-any (λ x. Keeps s x.0) (handle_node_lookup s c req) _
              λ x. Keeps-stays s refl refl v.agree)
            (Keeps-stays s refl refl v.agree))

    pub on_message-Keeps :
        (memory : List ℕ) (c : α.Conn) (m : ProtocolMessage)
        → Ensures (Keeps s) (on_message memory s c m)
    unfolding on_message respond
    on_message-Keeps memory c m = Ensures-any (Keeps s) (within (Request.has_fields m.data_)) _ λ _.
        Ensures->>= (λ x. Keeps s x.0) (Keeps s) (dispatch s c (Request.of_data m.data_)) _
          (dispatch-Keeps c (Request.of_data m.data_))
          λ (t, reply, preserve) k. Ensures-any (Keeps s) (reply_bytes memory reply) _ λ bytes.
            record {
              consistent = record {
                conf_valid = k.consistent.conf_valid;
                agree = k.consistent.agree;
              };
              same_conf = k.same_conf;
              move = k.move;
            }

    -- OnClose always returns.
    pub on_close-Keeps : (c : α.Conn) → (t : Service) × (on_close s c ≡ ok t) × Keeps s (forget c t)
    unfolding on_close leave forget context
    on_close-Keeps c = elim (Option-cases (context_of c s.contexts)) [
      | inl e ↦ (
        s,
        rw e refl,
        Keeps-stays _ refl refl
            (Agree-forget s.connections s.contexts v.agree c (λ a f. cc (e, f))),
      )
      | inr (timer id, e) ↦ (
        s,
        rw e refl,
        Keeps-stays _ refl refl
            (Agree-forget s.connections s.contexts v.agree c (λ a f. cc (e, f))),
      )
      | inr (node k, e) ↦
          let there : registry s k ≡ some c = v.agree.known c k e in
          (
            record s { connections = Map.erase k s.connections },
            rw (e, there) refl,
            record {
              consistent = record {
                conf_valid = v.conf_valid;
                agree = Agree-leave s.connections s.contexts v.agree c k e;
              };
              same_conf = refl;
              move = leaves c k there (λ a. Map.find-erase k a s.connections);
            },
          )
    ]
