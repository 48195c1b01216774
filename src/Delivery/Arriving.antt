-- ===== src/Delivery/Arriving.antt =====
-- From a connection to a client: the bytes of messages from another node in MessageCodec::OnRead
-- (cpm/cpm_message_codec.cc), and each message in HandleRemoteNodeMessage (cpm/cpm_server.cc).
use cpmd.Base.{
  ℕ, ◌<◌, ◌≡◌, ◌≢◌, refl, sym, ap, ◌∙◌, Option, none, some, List, [], ◌∷◌, ◌++◌, map, append_assoc,
  append-nil, length, All,
}
use mathlib.Core.List.{foldl}
use cpmd.Base.Map.{nat_key}
use cpmd.Base.Outcome.{Outcome, ok, aborted, invalid, beyond, ◌>>=◌}
use cpmd.Alpha.{Alpha}
use cpmd.Message.{Message, data_slice, serialize, message_at}
use cpmd.Message.Layout.{serialize-message_at, message_at-serialize}
use cpmd.Message.Codec.{consumed, deliver}
use cpmd.Message.Codec.Frames.{IsFrame, IsBeginning, wire, on_read-frames}
use cpmd.Client.{ClientInfo, write_message}
use cpmd.Server.{Server}
use cpmd.Server.Incoming.{on_message, on_message_bytes}
use cpmd.Server.Route.{
  find_client, put_client, write_client, handle_remote_message, handle_remote_node_message,
}
use cpmd.Server.Route.Delivery.{offered, put_client-others, handle_remote_node_message_lem}
use cpmd.Delivery.{IsTo, IsQueue, Takes}
use cpmd.Delivery.Rounds.{find-put_self}

module _ ⦃α : Alpha⦄ where
  -- Only the receiver and the message's bytes matter.
  write_message-bytes :
      (c : ClientInfo) (m n : Message)
      → serialize m ≡ serialize n
      → write_message c m ≡ write_message c n
  unfolding write_message
  write_message-bytes c m n e = rw e

  write_client-bytes :
      (s : Server) (a : ℕ) (o : Option ClientInfo) (m n : Message)
      → serialize m ≡ serialize n
      → write_client a o m s ≡ write_client a o n s
  unfolding write_client
  write_client-bytes s a none m n e = refl
  write_client-bytes s a (some c) m n e = rw (write_message-bytes c m n e)

  handle_remote_node_message-bytes :
      (s : Server) (conn : α.Conn) (m : Message) (d : List ℕ)
      → serialize (record m { data_ = d }) ≡ serialize m
      → handle_remote_node_message s conn (record m { data_ = d })
        ≡ handle_remote_node_message s conn m
  unfolding handle_remote_node_message handle_remote_message
  handle_remote_node_message-bytes s conn m d e = rw (
      write_client-bytes s m.to.client_addr (find_client s m.to.client_addr)
        (record m { data_ = d }) m e)

  -- A frame in the buffer is handled as the message that was written, whatever lies behind it.
  handle_remote_node_message-message_at :
      (s : Server) (conn : α.Conn) (m : Message) (rest : List ℕ)
      → IsFrame m
      → handle_remote_node_message s conn (message_at (serialize m ++ rest))
        ≡ handle_remote_node_message s conn m
  handle_remote_node_message-message_at s conn m rest v =
      let found = message_at-serialize m rest v.valid in
      ap (handle_remote_node_message s conn) found
      ∙ handle_remote_node_message-bytes s conn m (data_slice m ++ rest)
          (ap serialize (sym found) ∙ serialize-message_at m rest v.valid)

  -- The callback, as it depends on a frame's bytes.
  abbrev by_bytes : α.Conn → Outcome Server → List ℕ → Outcome Server
  by_bytes conn so_far bytes = so_far >>= λ s. handle_remote_node_message s conn (message_at bytes)

  by_bytes-serialize :
      (conn : α.Conn) (s : Server) (m : Message)
      → IsFrame m
      → by_bytes conn (ok s) (serialize m) ≡ handle_remote_node_message s conn m
  by_bytes-serialize conn s m v =
      ap (λ (bytes : List ℕ). handle_remote_node_message s conn (message_at bytes))
        (sym (append-nil (serialize m)))
      ∙ handle_remote_node_message-message_at s conn m [] v

  on_message-by_bytes :
      (conn : α.Conn) (so_far : Outcome Server) (m : Message) (rest : List ℕ)
      → IsFrame m
      → deliver (some (on_message conn)) so_far (message_at (serialize m ++ rest))
        ≡ by_bytes conn so_far (serialize m)
  unfolding deliver
  on_message-by_bytes conn (ok s) m rest v =
      handle_remote_node_message-message_at s conn m rest v ∙ sym (by_bytes-serialize conn s m v)
  on_message-by_bytes conn aborted m rest v = refl
  on_message-by_bytes conn invalid m rest v = refl
  on_message-by_bytes conn beyond m rest v = refl

  -- One message for the client.
  arrive :
      (s : Server) (conn : α.Conn) (b : ℕ) (c : ClientInfo) (r : α.Bus) (m : Message)
      → IsTo s.self_address b m
      → find_client s b ≡ some c
      → c.output ≡ some r
      → handle_remote_node_message s conn m ≡ ok (put_client b (offered c r m) s)
  arrive s conn b c r m for found out =
      ((handle_remote_node_message_lem s conn m).2 c r for.0 (ap (find_client s) for.1 ∙ found)
        out).0
      ∙ ap (λ (k : ℕ). ok (put_client k (offered c r m) s)) for.1

module _ ⦃α : Alpha⦄ (contents : α.Bus → List (List ℕ)) (queue : IsQueue contents) (conn : α.Conn)
    (b : ℕ) where
  -- What a server with other clients is, behind messages for client `b`.
  abbrev pub Delivered : Server → List (ℕ × ClientInfo) → List Message → α.Bus → Type 0
  Delivered s cs ms r =
      (c : ClientInfo) × (v : α.Bus) × (find_client (record s { clients = cs }) b ≡ some c)
      × (c.output ≡ some v)
      × (contents v ≡ contents r ++ map serialize ms)
      × ((k : ℕ) → b ≢ k → find_client (record s { clients = cs }) k ≡ find_client s k)

  foldl-by_bytes :
      (ms : List Message) (s : Server) (c : ClientInfo) (r : α.Bus)
      → All IsFrame ms
      → All (IsTo s.self_address b) ms
      → find_client s b ≡ some c
      → c.output ≡ some r
      → Takes r (map serialize ms)
      → (cs : List (ℕ × ClientInfo)) × (foldl (by_bytes conn) (ok s) (map serialize ms)
          ≡ ok (record s { clients = cs }))
        × Delivered s cs ms r
  unfolding put_client
  foldl-by_bytes [] s c r v f found out room =
      (s.clients, refl, (c, r, found, out, sym (append-nil (contents r)), λ k d. refl))
  foldl-by_bytes (m ∷ ms) s c r v f found out room =
      let c' : ClientInfo = offered c r m in
      let r' : α.Bus = (α.bus_write r (serialize m)).0 in
      let t : Server = put_client b c' s in
      let first = by_bytes-serialize conn s m v.0 ∙ arrive s conn b c r m f.0 found out in
      let (cs, run, (d, w, there, lies, all, others)) =
        foldl-by_bytes ms t c' r' v.1 f.1 (find-put_self s b c' c found) refl room.1 in
      (
        cs,
        ap (λ (o : Outcome Server). foldl (by_bytes conn) o (map serialize ms)) first ∙ run,
        (
          d,
          w,
          there,
          lies,
          all
              ∙ ap (λ (xs : List (List ℕ)). xs ++ map serialize ms)
                  (queue.writes r (serialize m) room.0)
              ∙ append_assoc (contents r) (serialize m ∷ []) (map serialize ms),
          λ k e. others k e ∙ put_client-others s b k c' e,
        ),
      )

  pub on_message_bytes-Delivered :
      (ms : List Message) (tail : List ℕ) (fuel : ℕ) (s : Server) (c : ClientInfo) (r : α.Bus)
      → All IsFrame ms
      → IsBeginning tail
      → length ms < fuel
      → All (IsTo s.self_address b) ms
      → find_client s b ≡ some c
      → c.output ≡ some r
      → Takes r (map serialize ms)
      → (cs : List (ℕ × ClientInfo)) × (on_message_bytes fuel s conn (wire ms ++ tail)
          ≡ consumed (length (wire ms)) (ok (record s { clients = cs })))
        × Delivered s cs ms r
  unfolding on_message_bytes
  on_message_bytes-Delivered ms tail fuel s c r v begun enough f found out room =
      let (cs, run, delivered) = foldl-by_bytes ms s c r v f found out room in
      (
        cs,
        on_read-frames (some (on_message conn)) (by_bytes conn) (on_message-by_bytes conn) ms tail
              fuel (ok s) v begun enough
            ∙ ap (consumed (length (wire ms))) run,
        delivered,
      )
