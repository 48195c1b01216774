-- ===== src/Server/Route/Delivery.antt =====
-- Messages for clients of this cpmd (cpm/cpm_server.cc): where they go, and what they leave alone.
use cpmd.Base.{ℕ, ◌≡◌, ◌≢◌, none, some, arith, ==_iff}
use cpmd.Base.Map
use cpmd.Base.Map.{nat_key}
use cpmd.Base.Outcome.{ok, ◌>>=◌}
use cpmd.Alpha.{Alpha}
use cpmd.Message.{Message, serialize}
use cpmd.Client.{ClientInfo, write_message}
use cpmd.Server.{Server}
use cpmd.Server.Route.{
  find_client, put_client, write_client, handle_remote_message, handle_remote_node_message,
}

module _ ⦃α : Alpha⦄ where
  -- The client after a message was offered to its bus.
  abbrev pub offered : ClientInfo → α.Bus → Message → ClientInfo
  offered c b m = record c { output = some (α.bus_write b (serialize m)).0 }

  pub write_client-some :
      (s : Server) (a : ℕ) (c : ClientInfo) (b : α.Bus) (m : Message)
      → c.output ≡ some b
      → write_client a (some c) m s ≡ ok (put_client a (offered c b m) s)
  unfolding write_client write_message
  write_client-some s a c b m e = rw (e, ◌>>=◌)

  pub put_client-others :
      (s : Server) (a b : ℕ) (c : ClientInfo)
      → a ≢ b
      → find_client (put_client a c s) b ≡ find_client s b
  unfolding find_client put_client
  put_client-others s a b c h = ground (arith, Map.find-set a b c s.clients)

  -- A message from another node: not for this node, its connection is closed and nothing else
  -- changes; for a client that is not here, nothing changes; for a client that is here, its bus is
  -- offered exactly the message's bytes and no other client is touched.
  pub handle_remote_node_message_lem :
      (s : Server) (conn : α.Conn) (m : Message)
      → ((m.to.node_addr ≢ s.self_address)
          → handle_remote_node_message s conn m ≡ ok (record s { net = α.close s.net conn }))
        × ((m.to.node_addr ≡ s.self_address)
            → find_client s m.to.client_addr ≡ none
            → handle_remote_node_message s conn m ≡ ok s)
        × ((c : ClientInfo) (b : α.Bus)
            → m.to.node_addr ≡ s.self_address
            → find_client s m.to.client_addr ≡ some c
            → c.output ≡ some b
            → (handle_remote_node_message s conn m
                ≡ ok (put_client m.to.client_addr (offered c b m) s))
              × ((a : ℕ)
                  → m.to.client_addr ≢ a
                  → find_client (put_client m.to.client_addr (offered c b m) s) a
                    ≡ find_client s a))
  unfolding handle_remote_node_message handle_remote_message write_client
  handle_remote_node_message_lem s conn m = (
    (λ h. ground arith),
    (λ h e. rw ((==_iff m.to.node_addr s.self_address).1 h, e, ◌>>=◌)),
    (λ c b h e o. (
      rw (
        (==_iff m.to.node_addr s.self_address).1 h,
        e,
        write_client-some s m.to.client_addr c b m o,
        ◌>>=◌,
      ),
      λ a d. put_client-others s m.to.client_addr a (offered c b m) d,
    )),
  )
