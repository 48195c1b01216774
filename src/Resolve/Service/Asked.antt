-- ===== src/Resolve/Service/Asked.antt =====
-- A lookup request of cpmd (cpm/cpm_server.cc) at the resolve server (cpm/cpm_resolve_server.cc).
use cpmd.Base.{ℕ, ◌≡◌, refl, inl, inr, true, some, List, ◌++◌}
use cpmd.Base.Map.{nat_key}
use cpmd.Base.Outcome.{ok}
use cpmd.Alpha.{Alpha}
use cpmd.Message.Layout.{IsWord}
use cpmd.Protocol.{ProtocolMessage, serialize, message_at}
use cpmd.Protocol.Request.{ResolveRequest, lookup_node}
use cpmd.Resolve.Conf.{ConfNode, get_node_info_by_node_address}
use cpmd.Resolve.Service.{
  Service, Context, context, lookup_reply, handle_node_lookup, dispatch, reply_bytes, respond,
  on_message,
}
use cpmd.Resolve.Service.Valid.{registry, IsConsistent}
use cpmd.Resolve.Service.Lookup.{handle_node_lookup_lem}
use cpmd.Server.{Server}
use cpmd.Server.Resolver.{lookup_request}
use cpmd.Server.Resolver.Requests.{lookup_request-of_data, lookup_request-has_fields}

module _ ⦃α : Alpha⦄ where
  -- A resolve server that can tell a node about another one: the connection `c` that asks has a
  -- context, some connection is registered under the address `self`, and the configuration has `n`.
  pub record Tells (s : Service) (c : α.Conn) (self : ℕ) (n : ConfNode) : Type 0 where
    pub consistent : IsConsistent s
    pub behind : Context
    pub here : context s c ≡ some behind
    pub partner : α.Conn
    pub registered : registry s self ≡ some partner
    pub listed : get_node_info_by_node_address s.conf n.node_addr ≡ some n

  handle_node_lookup-Tells :
      (s : Service) (c : α.Conn) (n : ConfNode) (req : ResolveRequest) (reply : ProtocolMessage)
      → Tells s c req.self_addr n
      → req.peer_addr ≡ n.node_addr
      → lookup_reply (some n) n.node_addr ≡ ok reply
      → handle_node_lookup s c req ≡ ok (some reply, true)
  handle_node_lookup-Tells s c n req reply v peer built =
      elim (handle_node_lookup_lem s c req v.behind v.consistent v.here) [
        | inl (e, _) ↦ absurd (cc (e, v.registered))
        | inr (d, e, run) ↦ rw (run, peer, v.listed, built)
      ]

  -- The answer to the bytes of a lookup request is written to the connection that asks.
  pub lookup_request-on_message :
      (s : Service) (c : α.Conn) (n : ConfNode) (cpmd : Server) (reply : ProtocolMessage)
      (memory rest : List ℕ)
      → IsWord cpmd.self_address
      → IsWord n.node_addr
      → Tells s c cpmd.self_address n
      → lookup_reply (some n) n.node_addr ≡ ok reply
      → on_message memory s c (message_at (serialize (lookup_request cpmd n.node_addr) ++ rest))
        ≡ ok (record s { net = (α.write s.net c (serialize reply)).0 })
  unfolding on_message dispatch respond reply_bytes
  lookup_request-on_message s c n cpmd reply memory rest self word v built =
      let req : ResolveRequest = record {
        type_ = lookup_node;
        self_addr = cpmd.self_address;
        cpmd_port = 0;
        peer_addr = n.node_addr;
      } in
      rw
        (
          lookup_request-has_fields cpmd n.node_addr rest,
          lookup_request-of_data cpmd n.node_addr rest self word,
          handle_node_lookup-Tells s c n req reply v refl built,
        )
        refl
