-- ===== src/Library/Join.antt =====
-- Client::Create (cpm/cpm_impl.cc) and the hand shake that cpmd answers (cpm/cpm_server.cc).
use cpmd.Base.{
  ◌<◌, arith, ℕ, ◌-◌, ◌*◌, ◌/◌, ◌%◌, ◌≢◌, ◌≡◌, refl, ap, ◌⊎◌, inl, inr, Bool, true, false, not,
  ◌||◌, Bool-cases, Option, none, some, List, length, leb, is_some, ◌==◌, if◌then◌else◌,
}
use cpmd.Base.Map.{nat_key}
use cpmd.Base.Outcome.{
  ReturnsUnless, ReturnsUnless->>=, ReturnsUnless-Returns, ok, Returns, Returns->>=, Returns-assert,
}
use cpmd.Base.Bytes.{same, same_iff}
use cpmd.Alpha.{Alpha}
use cpmd.Protocol.{sizeof_protocol_message, max_name_size}
use cpmd.Library.{
  tunnel_paths_end, Options, ClientImpl, new, restore_buses, replied, shake, init, create,
  default_timeout,
}
use cpmd.Library.Udp.{
  Status, status_ok, already_initialized, socket_error, socket_timeout, invalid_buffer_size,
  invalid_reply, create_bus_failed, bus_full, bus_empty, truncated_message, invalid_message, is_ok,
  System, Received, refused, received, Selected, failed, expired, ready, recv_size, send, recv,
  exchange, sized, taken, take_ready, send_and_recv, connect_to, localhost,
}

module _ ⦃α : Alpha⦄ where
  -- The name was kept, and both buses are open.
  pub record IsOpen (name : List ℕ) (c : ClientImpl) : Type 0 where
    pub named : c.name ≡ name
    pub has_input : is_some c.input ≡ true
    pub has_output : is_some c.output ≡ true

  -- What Init comes to: an error, or open buses.
  abbrev Opens : List ℕ → α.World × ClientImpl × Status → Type 0
  Opens name (w, c, status) = is_ok status ≡ true → IsOpen name c

  both :
      (a b : Bool) (s : Status)
      → is_ok (if not a || not b then create_bus_failed else s) ≡ true
      → (a ≡ true) × (b ≡ true)
  both true true s e = (refl, refl)
  both true false s e = cc
  both false b s e = cc

  restore_buses-Opens :
      (w : α.World) (c : ClientImpl) (reply : List ℕ) → Opens c.name (restore_buses w c reply)
  unfolding restore_buses
  restore_buses-Opens w c reply e =
      let (i, o) = both _ _ status_ok e in record { named = refl; has_input = i; has_output = o }

  -- A client comes exactly with kOk, and then it is open.
  abbrev pub Creates : List ℕ → α.World × Option ClientImpl × Status → Type 0
  Creates name (w, o, status) =
      ((status ≡ status_ok) × (c : ClientImpl) × (o ≡ some c) × IsOpen name c)
      ⊎ ((status ≢ status_ok) × (o ≡ none))

  ok-cases : (status : Status) → (status ≡ status_ok) ⊎ (is_ok status ≡ false)
  ok-cases status_ok = inl refl
  ok-cases already_initialized = inr refl
  ok-cases socket_error = inr refl
  ok-cases socket_timeout = inr refl
  ok-cases invalid_buffer_size = inr refl
  ok-cases invalid_reply = inr refl
  ok-cases create_bus_failed = inr refl
  ok-cases bus_full = inr refl
  ok-cases bus_empty = inr refl
  ok-cases truncated_message = inr refl
  ok-cases invalid_message = inr refl

  -- Select names this socket where it names one: no other is in its set.
  abbrev pub SelectsOurs : ⦃sys : System⦄ → Type 0
  SelectsOurs ⦃sys⦄ = (w : α.World) (sock s us : ℕ) → (sys.select w sock s us).1 ≢ ready false

  -- The bytes are what the system gives for some socket at some time.
  abbrev Comes : ⦃sys : System⦄ → List ℕ → Type 0
  Comes ⦃sys⦄ bytes =
      (v : α.World) × (sock : ℕ) × (w : α.World) × (sys.recv_bytes v sock recv_size
        ≡ (w, some bytes))

  -- The system gives a reply with a path that does not end in it.
  abbrev pub GivesUnended : ⦃sys : System⦄ → Type 0
  GivesUnended = (bytes : List ℕ) × Comes bytes × (tunnel_paths_end bytes ≡ false)

  -- What is refused is refused with an error, and what is received came from the system.
  abbrev Honest : ⦃sys : System⦄ → α.World × Received → Type 0
  Honest (w, refused code) = is_ok code ≡ false
  Honest (w, received bytes) = Comes bytes

  module _ ⦃sys : System⦄ (ours : SelectsOurs) where
    recv-Honest : (w : α.World) (sock timeout : ℕ) → Returns Honest (recv w sock timeout)
    unfolding recv
    recv-Honest w sock timeout =
        selected (sys.select w sock (timeout / 1000) (timeout % 1000 * 1000)) (ours w sock _ _)
      where
        got :
            (v : α.World) (x : α.World × Option (List ℕ))
            → sys.recv_bytes v sock recv_size ≡ x
            → Honest (taken x)
        got v (w, none) e = refl
        got v (w, some bytes) e = (v, sock, w, e)

        selected : (x : α.World × Selected) → x.1 ≢ ready false → Returns Honest (take_ready sock x)
        selected (w, failed) h = refl
        selected (w, expired) h = refl
        selected (w, ready true) h = got w (sys.recv_bytes w sock recv_size) refl
        selected (w, ready false) h = absurd (h refl)

    exchange-Honest :
        (w : α.World) (sock : ℕ) (bytes : List ℕ) (timeout : ℕ)
        → Returns Honest (exchange w sock bytes timeout)
    unfolding exchange
    exchange-Honest w sock bytes timeout = elim (Bool-cases (is_ok (send w sock bytes).1)) [
      | inl e ↦ rw e (recv-Honest _ sock timeout)
      | inr e ↦ rw e e
    ]

    sized-Honest : (n : ℕ) (x : α.World × Received) → Honest x → Honest (sized n x)
    sized-Honest n (w, refused code) h = h
    sized-Honest n (w, received bytes) h = elim (Bool-cases (length bytes == n)) [
      | inl e ↦ rw e h
      | inr e ↦ rw e refl
    ]

    send_and_recv-Honest :
        (n : ℕ) (w : α.World) (sock : ℕ) (bytes : List ℕ) (timeout : ℕ)
        → Returns Honest (send_and_recv n w sock bytes timeout)
    unfolding send_and_recv
    send_and_recv-Honest n w sock bytes timeout =
        Returns->>= Honest Honest (exchange w sock bytes timeout) _
          (exchange-Honest w sock bytes timeout) (sized-Honest n)

    replied-Opens :
        (c : ClientImpl) (x : α.World × Received)
        → Honest x
        → ReturnsUnless GivesUnended (Opens c.name) (replied c x)
    replied-Opens c (w, refused code) h = λ e. cc (h, e)
    replied-Opens c (w, received reply) h = elim (Bool-cases (tunnel_paths_end reply)) [
      | inl whole ↦ rw whole (restore_buses-Opens w c reply)
      | inr not_whole ↦ rw not_whole (reply, h, not_whole)
    ]

    shake-Opens :
        (w : α.World) (sock : ℕ) (memory : List ℕ) (c : ClientImpl)
        → length c.name < max_name_size
        → ReturnsUnless GivesUnended (Opens c.name) (shake w sock memory c)
    unfolding shake
    shake-Opens w sock memory c short =
        let fits : leb (length c.name) (max_name_size - 1) ≡ true = ground arith in
        rw fits (
          ReturnsUnless->>= GivesUnended Honest (Opens c.name)
            (send_and_recv sizeof_protocol_message w sock _ default_timeout) _
            (ReturnsUnless-Returns GivesUnended Honest _
              (send_and_recv-Honest sizeof_protocol_message w sock _ default_timeout))
            (replied-Opens c))

    connect_to-Returns :
        (w : α.World) (a : α.NetAddress)
        → α.ip a ≡ localhost
        → Returns (λ x. Unit {0}) (connect_to w a)
    unfolding connect_to
    connect_to-Returns w a e =
        Returns-assert (λ x. Unit {0}) (same (α.ip a) localhost) _
          ((same_iff (α.ip a) localhost).1 e) tt

    init-Opens :
        (w : α.World) (memory : List ℕ) (c : ClientImpl)
        → length c.name < max_name_size
        → α.ip (α.make_address localhost c.options.port) ≡ localhost
        → ReturnsUnless GivesUnended (Opens c.name) (init w memory c)
    unfolding init
    init-Opens w memory c short e =
        ReturnsUnless->>= GivesUnended (λ x. Unit {0}) (Opens c.name)
          (connect_to w (α.make_address localhost c.options.port)) _
          (ReturnsUnless-Returns GivesUnended (λ x. Unit {0}) _
            (connect_to-Returns w (α.make_address localhost c.options.port) e))
          λ (w', sock, status) u.
            ReturnsUnless->>= GivesUnended (Opens c.name) (Opens c.name)
              (if is_ok status then shake w' sock memory c else ok (w', c, status)) _
              (go w' sock status) λ (w'', c', status') h. h
      where
        go :
            (w : α.World) (sock : ℕ) (status : Status)
            → ReturnsUnless GivesUnended
                (Opens c.name)
                (if is_ok status then shake w sock memory c else ok (w, c, status))
        go w sock status = elim (Bool-cases (is_ok status)) [
          | inl e ↦ rw e (shake-Opens w sock memory c short)
          | inr e ↦ rw e (λ f. cc (e, f))
        ]

    -- For a name that fits, where an address that is made of 127.0.0.1 has this text as its ip and
    -- select never names another socket than the one in its set, Create of the client library
    -- returns, whatever else the system answers, unless the system gives a reply with a path that
    -- does not end in it, and the path is read on behind the reply. It returns kOk exactly where
    -- it gives a client, and this client has the name that was given and both of its buses open.
    pub create-Creates :
        (w : α.World) (memory name : List ℕ) (options : Options)
        → length name < max_name_size
        → α.ip (α.make_address localhost options.port) ≡ localhost
        → ReturnsUnless GivesUnended (Creates name) (create w memory name options)
    unfolding create new
    create-Creates w memory name options short e =
        ReturnsUnless->>= GivesUnended (Opens name) (Creates name)
          (init w memory (new name options)) _ (init-Opens w memory (new name options) short e)
          λ (w', c, status) h. elim (ok-cases status) [
            | inl e ↦ inl (e, c, rw e refl, h (rw e refl))
            | inr e ↦ inr ((λ f. cc (e, ap is_ok f)), rw e refl)
          ]
