-- ===== src/Server/Resolver/Requests.antt =====
-- The requests that cpmd sends to the resolve server (cpm/cpm_server.cc, with the builders of
-- cpm/cpm_protocol.cc), as the resolve server reads them.
use cpmd.Base.{true, arith, ℕ, ◌≡◌, refl, List, ◌++◌, replicate}
use cpmd.Alpha.{Alpha}
use cpmd.Message.{word_bytes, word}
use cpmd.Message.Layout.{IsWord, word-eq}
use cpmd.Protocol.{
  ProtocolMessage, size, half_bytes, half, serialize, message_at, ensure_length, write_at,
  set_field, cleared,
}
use cpmd.Protocol.Request.{
  ResolveRequest, initialize_self, lookup_node, of_data, has_fields, builder, set_type,
  set_self_address, set_port, set_peer_address,
}
use cpmd.Server.{Server}
use cpmd.Server.Resolver.{init_request, lookup_request}

module _ ⦃α : Alpha⦄ where
  -- The request that the bytes hold, whatever follows them.
  abbrev pub received : ProtocolMessage → List ℕ → ResolveRequest
  received m rest = of_data (message_at (serialize m ++ rest)).data_

  pub lookup_request-of_data :
      (s : Server) (k : ℕ) (rest : List ℕ)
      → IsWord s.self_address
      → IsWord k
      → received (lookup_request s k) rest
        ≡ record { type_ = lookup_node; self_addr = s.self_address; cpmd_port = 0; peer_addr = k }
  unfolding of_data message_at serialize lookup_request size half_bytes half ensure_length write_at
      set_field cleared builder set_type set_self_address set_port set_peer_address word word_bytes
      replicate
  lookup_request-of_data s k rest v w = λ i. record {
    type_ = lookup_node;
    self_addr = word-eq s.self_address v i;
    cpmd_port = 0;
    peer_addr = word-eq k w i;
  }

  -- What is read of a request lies within its bytes.
  pub lookup_request-has_fields :
      (s : Server) (k : ℕ) (rest : List ℕ)
      → has_fields (message_at (serialize (lookup_request s k) ++ rest)).data_ ≡ true
  unfolding has_fields of_data message_at serialize lookup_request size half_bytes half
      ensure_length write_at set_field cleared builder set_type set_self_address set_port
      set_peer_address word word_bytes replicate
  lookup_request-has_fields s k rest = ground arith

  pub init_request-has_fields :
      (s : Server) (rest : List ℕ)
      → has_fields (message_at (serialize (init_request s) ++ rest)).data_ ≡ true
  unfolding has_fields of_data message_at serialize init_request size half_bytes half ensure_length
      write_at set_field cleared builder set_type set_self_address set_port set_peer_address word
      word_bytes replicate
  init_request-has_fields s rest = ground arith

  pub init_request-of_data :
      (s : Server) (rest : List ℕ)
      → IsWord s.message_server_port
      → ((received (init_request s) rest).type_ ≡ initialize_self)
        × ((received (init_request s) rest).cpmd_port ≡ s.message_server_port)
  unfolding of_data message_at serialize init_request size half_bytes half ensure_length write_at
      set_field cleared builder set_type set_self_address set_port set_peer_address word word_bytes
      replicate
  init_request-of_data s rest v = (refl, word-eq s.message_server_port v)

  -- For 32-bit addresses and port, and whatever bytes follow: the resolve server reads in the
  -- bytes of a lookup request its type, this node's address, no port, and the address of the node
  -- that is asked for; and in the bytes of an initial request its type and the port of this cpmd.
  received-requests :
      (s : Server) (k : ℕ) (rest : List ℕ)
      → IsWord s.self_address
      → IsWord s.message_server_port
      → IsWord k
      → (received (lookup_request s k) rest ≡ record {
        type_ = lookup_node;
        self_addr = s.self_address;
        cpmd_port = 0;
        peer_addr = k;
      })
        × ((received (init_request s) rest).type_ ≡ initialize_self)
        × ((received (init_request s) rest).cpmd_port ≡ s.message_server_port)
  received-requests s k rest a p w =
      let (kind, port) = init_request-of_data s rest p in
      (lookup_request-of_data s k rest a w, kind, port)
