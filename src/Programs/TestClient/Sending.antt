-- ===== src/Programs/TestClient/Sending.antt =====
-- The test client (cpm/cpm_client_main.cc) from its first message on, where the messages come back.
use cpmd.Base.{
  not, ℕ, zero, suc, ◌+◌, ◌-◌, ◌^◌, ◌<◌, ◌≡◌, refl, sym, ap, subst, ◌∙◌, some, List, [], ◌∷◌, ◌++◌,
  map, length, length-append, length-drop, length-replicate, take-take, take-append, drop,
  replicate, All, arith,
}
use cpmd.Base.Outcome.{ok, Ensures, Ensures-if, Ensures-any}
use cpmd.Alpha.{Alpha}
use cpmd.Address.{Address, has_slash, ends_with_slash, get_node_address}
use cpmd.Address.Hash.{hash-lt}
use cpmd.Address
use cpmd.Message.{
  Message, max_data_size, magic_number, clear, default, set_data, set_remote_address,
  set_source_address, data_slice, serialize,
}
use cpmd.Message.Layout.{IsWord, IsAddress}
use cpmd.Library.{ClientImpl, send_message}
use cpmd.Library.Udp.{status_ok}
use cpmd.Programs.{exit_success}
use cpmd.Programs.TestClient.{msg, Settings, queen, rounds_of, send_loop, talk}
use cpmd.Programs.TestClient.Answers.{IsAnswer, Brings, still, receive_loop-Brings}
use cpmd.Delivery.{sent_by, IsPassed, IsQueue, Takes, Sends}
use cpmd.Delivery.Local.{sent_by-IsReceived}

-- The array behind the message's text.
abbrev zeros : List ℕ
zeros = drop 20 (replicate max_data_size 0)

queen-eq :
    (memory : Message) (t : Address)
    → queen memory t ≡ record {
      from = Address.clear memory.from;
      to = t;
      magic = magic_number;
      len = 20;
      data_ = msg ++ zeros;
    }
unfolding queen set_data set_remote_address default clear
queen-eq memory t = refl

length-zeros : length zeros ≡ max_data_size - 20
length-zeros =
    length-drop 20 (replicate max_data_size 0)
    ∙ omega (arith, length-replicate {A = ℕ} max_data_size 0)

queen-IsPassed : (memory : Message) (t : Address) → IsAddress t → IsPassed (queen memory t)
unfolding Address.clear
queen-IsPassed memory t v =
    let long : length (msg ++ zeros) ≡ max_data_size =
      length-append msg zeros ∙ omega (arith, length-zeros) in
    subst IsPassed (sym (queen-eq memory t)) (record {
      valid = record {
        from_words = (omega arith, omega arith);
        to_words = v;
        magic_word = omega arith;
        len_fits = omega arith;
        has_data = omega (arith, long);
      };
      short = omega arith;
    })

queen-data_slice : (memory : Message) (t : Address) → data_slice (queen memory t) ≡ msg
unfolding data_slice
queen-data_slice memory t = ap data_slice (queen-eq memory t) ∙ take-append msg zeros 20 refl

-- The messages, as cpmd passes them on.
returned-IsAnswer :
    (node a k : ℕ) (memory : Message) (t : Address)
    → IsWord node
    → IsWord a
    → IsAddress t
    → All IsAnswer (map (sent_by node a) (replicate k (queen memory t)))
unfolding replicate data_slice set_source_address
returned-IsAnswer node a zero memory t w x v = tt
returned-IsAnswer node a (suc k) memory t w x v =
    let m : Message = queen memory t in
    let (r, _) = sent_by-IsReceived node a (m ∷ []) w x (queen-IsPassed memory t v, tt) in
    (
      record { is_received = r; is_msg = take-take m.len m.data_ ∙ queen-data_slice memory t },
      returned-IsAnswer node a k memory t w x v,
    )

length-returned : (node a k : ℕ) (m : Message) → length (map (sent_by node a) (replicate k m)) ≡ k
unfolding replicate
length-returned node a zero m = refl
length-returned node a (suc k) m = omega (arith, length-returned node a k m)

-- The addresses that Address::Create makes.
create-IsAddress : (s : List ℕ) → Ensures IsAddress (Address.create s)
unfolding Address.create
create-IsAddress s =
    Ensures-if IsAddress (not (has_slash s)) _ _ (omega arith, hash-lt s)
      (Ensures-if IsAddress (ends_with_slash s) _ _ (hash-lt s, omega arith)
        (Ensures-any IsAddress (get_node_address s) _
          λ (node, client). (hash-lt node, hash-lt client)))

module _ ⦃α : Alpha⦄ where
  send_loop-Takes :
      (k num : ℕ) (c : ClientImpl) (m : Message) (p : α.Bus)
      → c.output ≡ some p
      → Takes p (replicate k (serialize m))
      → (d : ClientImpl) × (send_loop k num c m ≡ ok (d, some (num + k)))
        × Sends c (replicate k m) d
        × (d.input ≡ c.input)
  unfolding send_loop replicate
  send_loop-Takes zero num c m p o room =
      (c, ap (λ (n : ℕ). ok (c, some n)) (omega arith), refl, refl)
  send_loop-Takes (suc k) num c m p o room =
      let d : ClientImpl = record c { output = some (α.bus_write p (serialize m)).0 } in
      let first : send_message c m ≡ ok (d, status_ok) = unfold send_message in rw (o, room.0) in
      let (e, run, sent, same) =
        send_loop-Takes k (suc num) d m (α.bus_write p (serialize m)).0 refl room.1 in
      (e, rw first (run ∙ ap (λ (n : ℕ). ok (e, some n)) (omega arith)), (d, first, sent), same)

module _ ⦃α : Alpha⦄ (contents : α.Bus → List (List ℕ)) (queue : IsQueue contents) where
  -- The test client, for a number of messages from one to below 2^31 - 1, over a bus to cpmd that
  -- has room for all of them and one from cpmd that is empty: whatever its messages, as cpmd
  -- passes them on, come in what parts between its looks at the bus, once all have come it needs
  -- no more looks than there are messages to end with EXIT_SUCCESS, where it looked less than 2^31
  -- times before.
  pub talk-exit_success :
      (fs : List (α.Bus → α.Bus)) (k n node a : ℕ) (memory : Message) (s : Settings)
      (c : ClientImpl) (t : Address) (b p : α.Bus)
      → Address.create s.target ≡ ok t
      → IsWord node
      → IsWord a
      → rounds_of s.message_num ≡ suc n
      → suc n < 2 ^ 31
      → c.input ≡ some b
      → contents b ≡ []
      → c.output ≡ some p
      → Takes p (replicate (suc n) (serialize (queen memory t)))
      → Brings contents fs (map (sent_by node a) (replicate (suc n) (queen memory t)))
      → length fs < 2 ^ 31
      → n < k
      → talk (fs ++ replicate k still) memory s c ≡ ok (some exit_success)
  unfolding talk
  talk-exit_success fs k n node a memory s c t b p e v_node v_a x small i free o room brings short
        enough =
      let m : Message = queen memory t in
      let v : IsAddress t = subst (Ensures IsAddress) e (create-IsAddress s.target) in
      let (d, run, _, same) = send_loop-Takes (suc n) 0 c m p o room in
      let coming : List Message = map (sent_by node a) (replicate (suc n) m) in
      rw (e, x, run)
        (receive_loop-Brings contents queue fs k n [] coming
          (record { client = d; num = 0 + suc n; loop_times = 0 }) b (omega arith) small (same ∙ i)
          free brings tt (returned-IsAnswer node a (suc n) memory t v_node v_a v)
          (omega (arith, length-returned node a (suc n) m)) (omega arith) enough)
