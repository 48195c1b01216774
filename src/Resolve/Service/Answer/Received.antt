-- ===== src/Resolve/Service/Answer/Received.antt =====
-- From the resolve server (cpm/cpm_resolve_server.cc) to cpmd (cpm/cpm_server.cc): the bytes of an
-- answer, in front of whatever stands in the buffer, and what cpmd does with them.
use cpmd.Base.{
  ◌∷◌, ◌+◌, length, false, ℕ, ◌≡◌, refl, ap, ◌∙◌, List, ◌++◌, append-nil, some, true, ==_iff, arith,
}
use cpmd.Base.Outcome.{Outcome, ok, beyond, ◌>>=◌}
use cpmd.Alpha.{Alpha}
use cpmd.Message.{word_bytes}
use cpmd.Protocol.{
  ProtocolMessage, resolve_response, half_bytes, c_string, has_end, serialize, message_at,
}
use cpmd.Protocol.Response.{ip_ends, path_ends, ResolveResponse, of_data, update_self, update_cache}
use cpmd.Protocol.Fields.{IsText, ip_field, has_end-behind, has_end-IsText, append-IsText}
use cpmd.Protocol.Fields.Reply.{front, begun, message_at-reply, ip_ends-reply, path_ends-reply}
use cpmd.Resolve.Conf.{ConfNode}
use cpmd.Resolve.Conf.Valid.{NodeIsValid}
use cpmd.Resolve.Service.{init_reply, lookup_reply}
use cpmd.Resolve.Service.Answer.{Fits, answer, named, lookup_reply-eq, init_reply-eq}
use cpmd.Server.{Server}
use cpmd.Server.Resolver.{
  update_self_address, update_node_address_cache, handle_resolve_server_message,
}

module _ ⦃α : Alpha⦄ where
  -- cpmd's handling of bytes that it has read.
  abbrev pub cpmd_reads : Server → α.Conn → List ℕ → Outcome Server
  cpmd_reads s c bytes = handle_resolve_server_message s c (message_at bytes)

  module _ (s : Server) (c : α.Conn) (m : ProtocolMessage) (r : ResolveResponse) where
    handled_cache :
        m.kind ≡ resolve_response
        → of_data m.data_ ≡ r
        → r.type_ ≡ update_cache
        → ip_ends m.data_ ≡ true
        → handle_resolve_server_message s c m ≡ (update_node_address_cache s r >>= λ (t, p). ok t)
    unfolding handle_resolve_server_message
    handled_cache e f g h = rw (e, f, g, h) refl

    handled_self :
        m.kind ≡ resolve_response
        → of_data m.data_ ≡ r
        → r.type_ ≡ update_self
        → path_ends m.data_ ≡ true
        → handle_resolve_server_message s c m ≡ (update_self_address s r >>= λ (t, p). ok t)
    unfolding handle_resolve_server_message
    handled_self e f g h = rw (e, f, g, h) refl

    handled_beyond :
        m.kind ≡ resolve_response
        → of_data m.data_ ≡ r
        → r.type_ ≡ update_self
        → path_ends m.data_ ≡ false
        → handle_resolve_server_message s c m ≡ beyond
    unfolding handle_resolve_server_message
    handled_beyond e f g h = rw (e, f, g, h) refl

  -- The resolve server's answer about a node whose host's address and name fit their fields is
  -- built; and cpmd, which finds its bytes at the front of a buffer, whatever follows them,
  -- updates its cache by exactly the node's address, port and host, with the node's name and the
  -- bytes behind it up to a zero as the path.
  pub lookup_reply-handle_resolve_server_message :
      (s : Server) (c : α.Conn) (n : ConfNode) (rest : List ℕ)
      → Fits n.node_addr (α.port n.net_addr) (α.ip n.net_addr) n.readable_addr
      → (reply : ProtocolMessage) × (lookup_reply (some n) n.node_addr ≡ ok reply)
        × (cpmd_reads s c (serialize reply ++ rest) ≡ (
            update_node_address_cache s (
              answer update_cache n.node_addr
                (α.port n.net_addr)
                (α.ip n.net_addr)
                n.readable_addr
                rest)
            >>= λ (t, p). ok t))
  lookup_reply-handle_resolve_server_message s c n rest v =
      let (tail, e) = lookup_reply-eq n n.node_addr refl v in
      (
        _,
        e,
        handled_cache s c _ _
            (ap (λ (m : ProtocolMessage). m.kind)
              (message_at-reply (front 0 update_cache n.node_addr (α.port n.net_addr))
                (α.ip n.net_addr) n.readable_addr tail rest (unfold half_bytes word_bytes in refl)
                v.ip_short v.path_short))
            (named update_cache n.node_addr (α.port n.net_addr) (α.ip n.net_addr) n.readable_addr
              tail rest (omega arith) v)
            refl
            (ap (λ (m : ProtocolMessage). ip_ends m.data_)
                (message_at-reply (front 0 update_cache n.node_addr (α.port n.net_addr))
                  (α.ip n.net_addr) n.readable_addr tail rest (unfold half_bytes word_bytes in refl)
                  v.ip_short v.path_short)
              ∙ ip_ends-reply 0 update_cache n.node_addr (α.port n.net_addr) (α.ip n.net_addr)
                  n.readable_addr rest v.ip_short),
      )

  learns :
      (s : Server) (n : ConfNode) (port : ℕ) (ip more : List ℕ)
      → NodeIsValid n.node_addr n
      → update_self_address s (answer update_self n.node_addr port ip n.readable_addr (0 ∷ more))
        ≡ ok (record s { self_address = n.node_addr }, true)
  unfolding update_self_address c_string
  learns s n port ip more h =
      rw (append-nil n.readable_addr, h.named, (==_iff h.address.node_addr n.node_addr).1 h.hashed)
        refl

  -- The bytes of a first answer, behind which `rest` stands.
  module _ (n : ConfNode) (port : ℕ) (ip tail rest : List ℕ)
      (v : Fits n.node_addr port ip n.readable_addr) where
    abbrev first_reply : ProtocolMessage
    first_reply =
        begun (28 + length n.readable_addr)
          (front 0 update_self n.node_addr port ++ (ip_field ip ++ (n.readable_addr ++ tail)))

    first_reply-eq :
        message_at (serialize first_reply ++ rest)
        ≡ begun
            (28 + length n.readable_addr)
            (front 0 update_self n.node_addr port ++ (ip_field ip ++ (n.readable_addr ++ rest)))
    first_reply-eq =
        message_at-reply (front 0 update_self n.node_addr port) ip n.readable_addr tail rest
          (unfold half_bytes word_bytes in refl) v.ip_short v.path_short

    path_ends-first_reply :
        path_ends (message_at (serialize first_reply ++ rest)).data_
        ≡ has_end (n.readable_addr ++ rest)
    path_ends-first_reply =
        ap (λ (m : ProtocolMessage). path_ends m.data_) first_reply-eq
        ∙ path_ends-reply 0 update_self n.node_addr port ip n.readable_addr rest v.ip_short

  -- The resolve server's answer to the first request of a node of a valid configuration, whose
  -- host's address and name fit their fields, is built. cpmd, which finds its bytes at the front
  -- of a buffer with a zero behind them, takes the node's address as its own and changes nothing
  -- else; but with other bytes behind them, or nothing, and no zero among these, it reads the
  -- node's name on behind the bytes that are there.
  pub init_reply-handle_resolve_server_message :
      (s : Server) (c : α.Conn) (n : ConfNode) (port : ℕ) (ip more text : List ℕ)
      → NodeIsValid n.node_addr n
      → Fits n.node_addr port ip n.readable_addr
      → IsText text
      → (reply : ProtocolMessage) × (init_reply n port ip ≡ ok reply)
        × (cpmd_reads s c (serialize reply ++ (0 ∷ more))
            ≡ ok (record s { self_address = n.node_addr }))
        × (cpmd_reads s c (serialize reply ++ text) ≡ beyond)
  init_reply-handle_resolve_server_message s c n port ip more text h v z =
      let (tail, e) = init_reply-eq n port ip v in
      (
        _,
        e,
        handled_self s c _ _
              (ap (λ (m : ProtocolMessage). m.kind) (first_reply-eq n port ip tail (0 ∷ more) v))
              (named update_self n.node_addr port ip n.readable_addr tail (0 ∷ more) (omega arith)
                v)
              refl
              (path_ends-first_reply n port ip tail (0 ∷ more) v
                ∙ has_end-behind n.readable_addr (0 ∷ more) (unfold has_end in refl))
            ∙ rw (learns s n port ip more h) refl,
        handled_beyond s c _ _
            (ap (λ (m : ProtocolMessage). m.kind) (first_reply-eq n port ip tail text v))
            (named update_self n.node_addr port ip n.readable_addr tail text (omega arith) v) refl
            (path_ends-first_reply n port ip tail text v
              ∙ has_end-IsText (n.readable_addr ++ text)
                  (append-IsText n.readable_addr text v.path_text z)),
      )
