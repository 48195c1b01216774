-- ===== src/Resolve/Service/Answer.antt =====
-- The resolve server's answers (cpm/cpm_resolve_server.cc, cpm/cpm_protocol.cc), as cpmd reads them
-- (cpm/cpm_server.cc).
pub mod Received
use cpmd.Base.{
  ℕ, ◌+◌, ◌^◌, ◌<◌, ◌≡◌, refl, sym, ap, ◌∙◌, List, ◌++◌, length, replicate, none, some, ◌==◌,
  ==_iff, arith,
}
use cpmd.Base.Outcome.{Outcome, ok, ◌>>=◌}
use cpmd.Alpha.{Alpha}
use cpmd.Message.{word_bytes, word}
use cpmd.Message.Layout.{IsWord, word-eq}
use cpmd.Protocol.{
  ProtocolMessage, resolve_response, ok_code, node_not_found, max_ip_size, max_node_path_size,
  half_bytes, half, c_string, size, serialize, message_at, ensure_length, write_at, set_field,
  cleared,
}
use cpmd.Protocol.Response.{
  ResolveResponse, of_data, builder, set_code, set_type, set_node_address, set_node_port,
  set_node_ip, set_node_path, update_self, update_cache,
}
use cpmd.Protocol.Fields.{IsText, zeros, ip_field}
use cpmd.Protocol.Fields.Reply.{
  begun, front, set_node_ip-eq, set_node_path-eq, message_at-reply, of_data-reply,
}
use cpmd.Resolve.Conf.{ConfNode}
use cpmd.Resolve.Service.{init_reply, lookup_reply}
use cpmd.Server.{Server}
use cpmd.Server.Resolver.{
  update_self_address, update_node_address_cache, handle_resolve_server_message,
}

-- The strings of a node fit their fields, and the numbers are 32-bit patterns.
pub record Fits (addr port : ℕ) (ip path : List ℕ) : Type 0 where
  pub addr_word : IsWord addr
  pub port_word : IsWord port
  pub ip_text : IsText ip
  pub ip_short : length ip < max_ip_size
  pub path_text : IsText path
  pub path_short : length path < max_node_path_size

-- The answer with a node, in front of other bytes.
abbrev pub answer : ℕ → ℕ → ℕ → List ℕ → List ℕ → List ℕ → ResolveResponse
answer kind addr port ip path rest = record {
  code = ok_code;
  type_ = kind;
  node_addr = addr;
  node_port = port;
  node_ip = ip;
  node_path = path ++ c_string rest;
}

-- Behind the numbers in front.
pub named :
    (kind addr port : ℕ) (ip path tail rest : List ℕ)
    → kind < 2 ^ 16
    → Fits addr port ip path
    → of_data
        (message_at (
          serialize (
            begun
              (28 + length path)
              (front ok_code kind addr port ++ (ip_field ip ++ (path ++ tail))))
          ++ rest)).data_
      ≡ answer kind addr port ip path rest
named kind addr port ip path tail rest k v =
    ap (λ (m : ProtocolMessage). of_data m.data_)
      (message_at-reply (front ok_code kind addr port) ip path tail rest
        (unfold half_bytes word_bytes in refl) v.ip_short v.path_short)
    ∙ of_data-reply ok_code kind addr port ip path rest (omega arith) k v.addr_word v.port_word
        v.ip_short v.ip_text v.path_text

module _ ⦃α : Alpha⦄ where
  lookup_begun :
      set_code ok_code (set_type update_cache builder)
      ≡ begun 4 (front ok_code update_cache 0 0 ++ zeros 1012)
  unfolding set_code set_type builder cleared set_field write_at ensure_length half_bytes word_bytes
      replicate
  lookup_begun = refl

  lookup_filled :
      (addr port : ℕ) (t : List ℕ)
      → set_node_address addr (set_node_port port (begun 28 (front ok_code update_cache 0 0 ++ t)))
        ≡ begun 28 (front ok_code update_cache addr port ++ t)
  unfolding set_node_address set_node_port set_field write_at ensure_length half_bytes word_bytes
  lookup_filled addr port t = refl

  pub lookup_reply-eq :
      (n : ConfNode) (k : ℕ)
      → n.node_addr ≡ k
      → Fits n.node_addr (α.port n.net_addr) (α.ip n.net_addr) n.readable_addr
      → (tail : List ℕ) × (lookup_reply (some n) k
          ≡ ok (
              begun (28 + length n.readable_addr) (
                front ok_code update_cache n.node_addr (α.port n.net_addr)
                ++ (ip_field (α.ip n.net_addr) ++ (n.readable_addr ++ tail)))))
  unfolding lookup_reply
  lookup_reply-eq n k e v =
      let (tail, f) =
        set_node_path-eq (front ok_code update_cache n.node_addr (α.port n.net_addr))
          (α.ip n.net_addr) n.readable_addr 28 1012 (unfold half_bytes word_bytes in refl)
          v.ip_short (omega arith) v.path_text v.path_short in
      (
        tail,
        rw
            (
              (==_iff n.node_addr k).1 e,
              lookup_begun,
              set_node_ip-eq (front ok_code update_cache 0 0) (α.ip n.net_addr) 4 1012
                  (unfold half_bytes word_bytes in refl) v.ip_text v.ip_short (omega arith),
              lookup_filled n.node_addr (α.port n.net_addr) _,
            )
            f,
      )

  init_begun :
      (addr port : ℕ)
      → set_node_port port (set_node_address addr (set_type update_self (set_code ok_code builder)))
        ≡ begun 12 (front ok_code update_self addr port ++ zeros 1012)
  unfolding set_code set_type builder cleared set_node_address set_node_port set_field write_at
      ensure_length half_bytes word_bytes replicate
  init_begun addr port = refl

  pub init_reply-eq :
      (n : ConfNode) (port : ℕ) (ip : List ℕ)
      → Fits n.node_addr port ip n.readable_addr
      → (tail : List ℕ) × (init_reply n port ip
          ≡ ok (
              begun (28 + length n.readable_addr) (
                front ok_code update_self n.node_addr port
                ++ (ip_field ip ++ (n.readable_addr ++ tail)))))
  unfolding init_reply
  init_reply-eq n port ip v =
      let (tail, f) =
        set_node_path-eq (front ok_code update_self n.node_addr port) ip n.readable_addr 28 1012
          (unfold half_bytes word_bytes in refl) v.ip_short (omega arith) v.path_text
          v.path_short in
      (
        tail,
        rw
            (
              init_begun n.node_addr port,
              set_node_ip-eq (front ok_code update_self n.node_addr port) ip 12 1012
                  (unfold half_bytes word_bytes in refl) v.ip_text v.ip_short (omega arith),
            )
            f,
      )
