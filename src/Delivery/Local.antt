-- ===== src/Delivery/Local.antt =====
-- From a client to a client of the same node: SendMessage, the rounds of Server::HandleBusMessage
-- over the sender's bus (cpm/cpm_server.cc), and ReceiveMessage.
use cpmd.Base.{
  ℕ, ◌<◌, ◌≡◌, refl, sym, ap, subst, ◌∙◌, Bool, some, List, [], ◌∷◌, ◌++◌, map, length, length-take,
  take-take, All, arith,
}
use cpmd.Base.Outcome.{ok}
use cpmd.Alpha.{Alpha}
use cpmd.Address.{create_directly}
use cpmd.Message.{Message, serialize, set_source_address}
use cpmd.Message.Layout.{IsWord}
use cpmd.Client.{ClientInfo}
use cpmd.Library.{ClientImpl}
use cpmd.Server.{Server}
use cpmd.Server.Route.{find_client}
use cpmd.Server.Bus.{drain}
use cpmd.Delivery.{trimmed, sent_by, IsPassed, IsQueue, Takes, Sends, Receives}
use cpmd.Delivery.Ends.{IsReceived, Sends-contents, contents-Receives}
use cpmd.Delivery.Rounds.{Link, IsFor, KeepsOthers, drain-Link}

All-append :
    (xs ys : List Message) → All IsReceived xs → All IsReceived ys → All IsReceived (xs ++ ys)
All-append [] ys h k = k
All-append (x ∷ xs) ys h k = (h.0, All-append xs ys h.1 k)

pub map-append :
    {B : Type 0} (f : Message → B) (xs ys : List Message) → map f (xs ++ ys) ≡ map f xs ++ map f ys
map-append f [] ys = refl
map-append f (x ∷ xs) ys = ap (◌∷◌ (f x)) (map-append f xs ys)

-- What cpmd sends on is received as it is.
module _ (node a : ℕ) where
  pub trimmed-sent_by :
      (ms : List Message) → map trimmed (map (sent_by node a) ms) ≡ map (sent_by node a) ms
  unfolding set_source_address
  trimmed-sent_by [] = refl
  trimmed-sent_by (m ∷ ms) =
      λ i. record (sent_by node a m) { data_ = take-take m.len m.data_ i } ∷ trimmed-sent_by ms i

  pub sent_by-IsReceived :
      (ms : List Message)
      → IsWord node
      → IsWord a
      → All IsPassed ms
      → All IsReceived (map (sent_by node a) ms)
  unfolding set_source_address create_directly
  sent_by-IsReceived [] w x p = tt
  sent_by-IsReceived (m ∷ ms) w x p = (
    record {
      valid = record {
        from_words = (w, x);
        to_words = p.0.valid.to_words;
        magic_word = p.0.valid.magic_word;
        len_fits = p.0.valid.len_fits;
        has_data = omega (arith, length-take m.len m.data_ p.0.valid.has_data);
      };
      short = omega (arith, p.0.short);
    },
    sent_by-IsReceived ms w x p.1,
  )

module _ ⦃α : Alpha⦄ (contents : α.Bus → List (List ℕ)) (queue : IsQueue contents) where
  -- What a client receives whose bus held messages, behind which cpmd wrote.
  pub Receives-sent_by :
      (node a : ℕ) (old ms : List Message) (c : ClientImpl) (v : α.Bus)
      → IsWord node
      → IsWord a
      → All IsReceived old
      → All IsPassed ms
      → contents v ≡ map serialize old ++ map serialize (map (sent_by node a) ms)
      → c.input ≡ some v
      → Receives c (map trimmed old ++ map (sent_by node a) ms)
  Receives-sent_by node a old ms c v w x o p e i =
      let new : List Message = map (sent_by node a) ms in
      subst (Receives c)
        (map-append trimmed old new
          ∙ ap (λ (l : List Message). map trimmed old ++ l) (trimmed-sent_by node a ms))
        (contents-Receives contents queue (old ++ new) c v i
          (e ∙ sym (map-append serialize old new))
          (All-append old new o (sent_by-IsReceived node a ms w x p)))

  -- Messages that a client sends by SendMessage, each with kOk and over a bus that was empty, to a
  -- client of the same node, itself or another, where cpmd passes on messages of their sizes and
  -- the receiver's bus has room: with a round more than there are messages, cpmd reads the
  -- sender's bus to its end, changes nothing but what it keeps for these two clients, and any
  -- client object over the receiver's bus then receives, behind the messages that lay there,
  -- exactly these, in order, each with the sender's address and its own data, and then kBusEmpty.
  pub drain-Receives :
      (ms old : List Message) (fuel a b : ℕ) (busy : Bool) (s : Server)
      (sender sender' : ClientImpl) (from to : ClientInfo) (p r : α.Bus)
      → sender.output ≡ some p
      → contents p ≡ []
      → Sends sender ms sender'
      → find_client s a ≡ some from
      → from.addr.client_addr ≡ a
      → from.input ≡ sender'.output
      → find_client s b ≡ some to
      → to.output ≡ some r
      → contents r ≡ map serialize old
      → IsWord s.self_address
      → IsWord a
      → All IsReceived old
      → All IsPassed ms
      → All (IsFor s.self_address b) ms
      → Takes r (map serialize (map (sent_by s.self_address a) ms))
      → length ms < fuel
      → (any : Bool) × (cs : List (ℕ × ClientInfo)) × (to' : ClientInfo) × (drain fuel a busy s
          ≡ ok (some (any, record s { clients = cs })))
        × KeepsOthers a b s (record s { clients = cs })
        × (find_client (record s { clients = cs }) b ≡ some to')
        × ((c : ClientImpl)
            → c.input ≡ to'.output
            → Receives c (map trimmed old ++ map (sent_by s.self_address a) ms))
  drain-Receives ms old fuel a b busy s sender sender' from to p r out free sends found named shared
        found' out' holds w x o ok_ for room enough =
      let (q, there, lies) = Sends-contents contents queue ms sender sender' p out sends in
      let link : Link s a b q r = record {
        from = from;
        to = to;
        from_found = found;
        to_found = found';
        named = named;
        input = shared ∙ there;
        output = out';
      } in
      let (any, cs, u, v, run, link', others, all) =
        drain-Link contents queue ms fuel a b busy s q r link
          (lies ∙ ap (λ (l : List (List ℕ)). l ++ map serialize ms) free) ok_ for room enough in
      (
        any,
        cs,
        link'.to,
        run,
        others,
        link'.to_found,
        λ c i.
            Receives-sent_by s.self_address a old ms c v w x o ok_
              (all
                ∙ ap (λ (l : List (List ℕ)). l ++ map serialize (map (sent_by s.self_address a) ms))
                    holds)
              (i ∙ link'.output),
      )
