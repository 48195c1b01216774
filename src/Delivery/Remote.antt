-- ===== src/Delivery/Remote.antt =====
-- From a client of one node to a client of another: SendMessage, the rounds over the sender's bus,
-- the connection, MessageCodec::OnRead and HandleRemoteNodeMessage at the other node, and
-- ReceiveMessage.
use cpmd.Base.{
  ℕ, ◌<◌, ◌≡◌, ◌≢◌, refl, ap, ◌∙◌, Bool, some, List, [], ◌∷◌, ◌++◌, map, length, All, arith,
}
use cpmd.Base.Outcome.{ok}
use cpmd.Alpha.{Alpha}
use cpmd.Message.{Message, serialize, magic_number, set_source_address}
use cpmd.Message.Layout.{IsWord}
use cpmd.Message.Codec.{consumed}
use cpmd.Message.Codec.Frames.{IsFrame, IsBeginning, wire}
use cpmd.Node.{Node}
use cpmd.Client.{ClientInfo}
use cpmd.Library.{ClientImpl}
use cpmd.Server.{Server}
use cpmd.Server.Route.{find_client}
use cpmd.Server.Bus.{drain}
use cpmd.Server.Incoming.{on_message_bytes}
use cpmd.Delivery.{trimmed, sent_by, IsTo, IsPassed, IsQueue, Takes, Sends, Receives}
use cpmd.Delivery.Ends.{IsReceived, Sends-contents}
use cpmd.Delivery.Local.{sent_by-IsReceived, Receives-sent_by}
use cpmd.Delivery.Leaving.{Carries, Peer, drain-Carries}
use cpmd.Delivery.Arriving.{on_message_bytes-Delivered}

module _ (node a : ℕ) where
  sent_by-IsFrame :
      (ms : List Message)
      → IsWord node
      → IsWord a
      → All IsPassed ms
      → All (λ m. m.magic ≡ magic_number) ms
      → All IsFrame (map (sent_by node a) ms)
  unfolding set_source_address
  sent_by-IsFrame [] w x p g = tt
  sent_by-IsFrame (m ∷ ms) w x p g =
      let (r, _) = sent_by-IsReceived node a (m ∷ []) w x (p.0, tt) in
      (record { valid = r.valid; magic = g.0; short = r.short }, sent_by-IsFrame ms w x p.1 g.1)

  sent_by-IsTo :
      (far b : ℕ) (ms : List Message)
      → All (IsTo far b) ms
      → All (IsTo far b) (map (sent_by node a) ms)
  unfolding set_source_address
  sent_by-IsTo far b [] f = tt
  sent_by-IsTo far b (m ∷ ms) f = (f.0, sent_by-IsTo far b ms f.1)

  length-sent_by : (ms : List Message) → length (map (sent_by node a) ms) ≡ length ms
  length-sent_by [] = refl
  length-sent_by (m ∷ ms) = omega (arith, length-sent_by ms)

to_node : (far b : ℕ) (ms : List Message) → All (IsTo far b) ms → All (λ m. m.to.node_addr ≡ far) ms
to_node far b [] f = tt
to_node far b (m ∷ ms) f = (f.0.0, to_node far b ms f.1)

module _ ⦃α : Alpha⦄ (contents : α.Bus → List (List ℕ)) (queue : IsQueue contents) where
  -- Messages with the class's magic number that a client sends by SendMessage, each with kOk and
  -- over a bus that was empty, to a client of another node which its own node is connected to,
  -- where cpmd passes on messages of their sizes, the connection stays open while they are written
  -- and no write to it fails, and the receiver's bus has room: with a round more than there are
  -- messages, cpmd reads the sender's bus to its end and writes to nothing but the connection;
  -- MessageCodec of the other cpmd, with as many rounds, on exactly their bytes and a proper
  -- beginning of one more, hands all of them over and consumes their bytes; and any client object
  -- over the receiver's bus then receives, behind the messages that lay there, exactly these, in
  -- order, each with the sender's address and its own data, and then kBusEmpty; no other client of
  -- that cpmd is touched.
  pub drain-on_message_bytes :
      (ms old : List Message) (fuel a b : ℕ) (busy : Bool) (near far : Server)
      (sender sender' : ClientImpl) (from to : ClientInfo) (p r : α.Bus) (out in_ : α.Conn)
      (u : α.World) (tail : List ℕ)
      → sender.output ≡ some p
      → contents p ≡ []
      → Sends sender ms sender'
      → find_client near a ≡ some from
      → from.addr.client_addr ≡ a
      → from.input ≡ sender'.output
      → Peer near far.self_address out
      → find_client far b ≡ some to
      → to.output ≡ some r
      → contents r ≡ map serialize old
      → IsWord near.self_address
      → IsWord a
      → All IsReceived old
      → All IsPassed ms
      → All (λ m. m.magic ≡ magic_number) ms
      → All (IsTo far.self_address b) ms
      → Carries out near.net (map (sent_by near.self_address a) ms) u
      → Takes r (map serialize (map (sent_by near.self_address a) ms))
      → IsBeginning tail
      → length ms < fuel
      → (any : Bool) × (cs : List (ℕ × ClientInfo)) × (ns : List (ℕ × Node)) × (ds : List
          (ℕ × ClientInfo))
        × (to' : ClientInfo) × (drain fuel a busy near
            ≡ ok (some (any, record near { clients = cs; nodes = ns; net = u })))
        × (on_message_bytes fuel far in_ (wire (map (sent_by near.self_address a) ms) ++ tail)
            ≡ consumed
                (length (wire (map (sent_by near.self_address a) ms)))
                (ok (record far { clients = ds })))
        × (find_client (record far { clients = ds }) b ≡ some to')
        × ((c : ClientImpl)
            → c.input ≡ to'.output
            → Receives c (map trimmed old ++ map (sent_by near.self_address a) ms))
        × ((k : ℕ) → b ≢ k → find_client (record far { clients = ds }) k ≡ find_client far k)
  drain-on_message_bytes ms old fuel a b busy near far sender sender' from to p r out in_ u tail
        output free sends found named shared peer found' output' holds w x o passed magic for
        carried room begun enough =
      let sent : List Message = map (sent_by near.self_address a) ms in
      let (q, there, lies) = Sends-contents contents queue ms sender sender' p output sends in
      let (any, cs, ns, run) =
        drain-Carries contents queue ms fuel a far.self_address busy near from q out u peer found
          named (shared ∙ there) (lies ∙ ap (λ (l : List (List ℕ)). l ++ map serialize ms) free)
          passed (to_node far.self_address b ms for) carried enough in
      let few : length sent < fuel = omega (arith, length-sent_by near.self_address a ms) in
      let (ds, arrive, (to', v, there', output'', all, others)) =
        on_message_bytes-Delivered contents queue in_ b sent tail fuel far to r
          (sent_by-IsFrame near.self_address a ms w x passed magic) begun few
          (sent_by-IsTo near.self_address a far.self_address b ms for) found' output' room in
      (
        any,
        cs,
        ns,
        ds,
        to',
        run,
        arrive,
        there',
        λ c i.
            Receives-sent_by contents queue near.self_address a old ms c v w x o passed
              (all ∙ ap (λ (l : List (List ℕ)). l ++ map serialize sent) holds) (i ∙ output''),
        others,
      )
