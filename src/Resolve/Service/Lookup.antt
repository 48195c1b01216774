-- ===== src/Resolve/Service/Lookup.antt =====
-- HandleNodeLookup (cpm/cpm_resolve_server.cc) on consistent tables.
use cpmd.Base.{
  Bool, ℕ, ◌≡◌, refl, ◌⊎◌, inl, inr, ==_iff, true, false, Option, Option-cases, none, some,
}
use cpmd.Base.Outcome.{Outcome, ok, ◌>>=◌}
use cpmd.Alpha.{Alpha}
use cpmd.Protocol.{ProtocolMessage}
use cpmd.Protocol.Request.{ResolveRequest}
use cpmd.Resolve.Conf.{get_node_info_by_node_address}
use cpmd.Resolve.Service.{Service, Context, node, context, lookup_reply, handle_node_lookup}
use cpmd.Resolve.Service.Valid.{registry, IsConsistent}

module _ ⦃α : Alpha⦄ where
  -- The answer about a node.
  abbrev pub told : Service → ℕ → Outcome (Option ProtocolMessage × Bool)
  told s k =
      lookup_reply (get_node_info_by_node_address s.conf k) k >>= λ reply. ok (some reply, true)

  -- A lookup over a connection with a context, on consistent tables: where nobody is registered
  -- under the address that the request gives as its own, no reply is built and the connection is
  -- not kept; where any connection is, this one or another, the reply is the answer about the node
  -- that is asked for.
  pub handle_node_lookup_lem :
      (s : Service) (c : α.Conn) (req : ResolveRequest) (x : Context)
      → IsConsistent s
      → context s c ≡ some x
      → ((registry s req.self_addr ≡ none) × (handle_node_lookup s c req ≡ ok (none, false)))
        ⊎ ((d : α.Conn) × (registry s req.self_addr ≡ some d)
            × (handle_node_lookup s c req ≡ told s req.peer_addr))
  unfolding handle_node_lookup
  handle_node_lookup_lem s c req x v here = elim (Option-cases (registry s req.self_addr)) [
    | inl e ↦ inl (e, rw (here, e) refl)
    | inr (d, e) ↦
        let f : context s d ≡ some (node req.self_addr) =
          unfold context in v.agree.registered req.self_addr d e in
        inr (d, e, rw (here, e, f, (==_iff req.self_addr req.self_addr).1 refl) refl)
  ]
