-- ===== src/Programs/TestClient.antt =====
-- cpm/cpm_client_main.cc: a client that sends a number of equal messages, and waits for as many.
-- Ints are their 32-bit patterns. An exception that nothing catches stops the program as a failed
-- assert does. Of the environment there are parameters: boost::lexical_cast to an int, where it
-- throws or gives one; basename; and what the other end does to the client's bus between two looks
-- at it. That main waits for a character before it sends is left out.
pub mod Answers
pub mod Sending
pub mod Idle
use cpmd.Base.{
  ℕ, zero, suc, ◌+◌, ◌-◌, ◌%◌, ◌^◌, Option, none, some, List, [], ◌∷◌, length, ltb, ◌==◌,
  if◌then◌else◌,
}
use cpmd.Base.Bytes.{same}
use cpmd.Base.Outcome.{Outcome, ok, invalid, assert, assert_some, deref, ◌>>=◌, ◌>>◌}
use cpmd.Alpha.{Alpha}
use cpmd.Address.{Address}
use cpmd.Address
use cpmd.Message.{Message, default, data_slice, set_data, set_remote_address}
use cpmd.Message.Codec.{is_negative}
use cpmd.Library.{
  ClientImpl, default_options, set_server_port, send_message, receive_message, create,
}
use cpmd.Library.Udp.{Status, System, status_ok, bus_full, bus_empty, is_ok}
use cpmd.Programs.{Exit, exit_success, exit_failure, argument}

-- "Long live the queen!"
abbrev pub msg : List ℕ
msg =
    b'L' ∷ b'o' ∷ b'n' ∷ b'g' ∷ b' ' ∷ b'l' ∷ b'i' ∷ b'v' ∷ b'e' ∷ b' ' ∷ b't' ∷ b'h' ∷ b'e' ∷ b' '
    ∷ b'q' ∷ b'u' ∷ b'e' ∷ b'e' ∷ b'n' ∷ b'!' ∷ []

-- The arguments, with their defaults.
pub record Settings : Type 0 where
  pub register_server_port : ℕ
  pub name : List ℕ
  pub target : List ℕ
  pub message_num : ℕ

module _ (lexical_cast : List ℕ → Option ℕ) (basename : List ℕ → List ℕ) where
  -- An int in the argument, or the default.
  abbrev pub int_or : ℕ → Option (List ℕ) → Outcome ℕ
  int_or n none = ok n
  int_or n (some s) = assert_some (lexical_cast s)

  abbrev pub string_or : List ℕ → Option (List ℕ) → List ℕ
  string_or s none = s
  string_or s (some t) = t

  unfoldable pub read_arguments : List (List ℕ) → Outcome Settings
  read_arguments argv = do
    program ← deref (argument 0 argv)
    port ← int_or 8123 (argument 1 argv)
    num ← int_or 100 (argument 4 argv)
    ok (record {
      register_server_port = port;
      name = string_or (basename program) (argument 2 argv);
      target = string_or (basename program) (argument 3 argv);
      message_num = num;
    })

  -- `none` is the usage, behind which main fails.
  unfoldable pub settings : List (List ℕ) → Outcome (Option Settings)
  settings argv =
      let read = read_arguments argv in
      if ltb 5 (length argv) then ok none else (do s ← read; ok (some s))

-- The message, over what lies where it is declared.
unfoldable pub queen : Message → Address → Message
queen memory target = (set_data (set_remote_address (default memory) target) msg).0

-- How often the loop that sends may go round.
unfoldable pub rounds_of : ℕ → ℕ
unfolding is_negative
rounds_of message_num = if is_negative message_num then 0 else message_num

-- ++ and -- on an int; an overflow has no meaning.
unfoldable pub increment : ℕ → Outcome ℕ
increment n = if n == 2 ^ 31 - 1 then invalid else ok ((n + 1) % 2 ^ 32)

unfoldable pub decrement : ℕ → Outcome ℕ
decrement n = if n == 2 ^ 31 then invalid else ok ((n + (2 ^ 32 - 1)) % 2 ^ 32)

module _ ⦃α : Alpha⦄ where
  -- The loop that sends, with message_num - num rounds to go: the client, and num where main goes on.
  unfoldable pub send_loop : ℕ → ℕ → ClientImpl → Message → Outcome (ClientImpl × Option ℕ)
  send_loop zero num c m = ok (c, some num)
  send_loop (suc left) num c m = send_message c m >>= λ (c', status). elim status [
    | status_ok ↦ send_loop left (suc num) c' m
    | bus_full ↦ ok (c', some num)
    | _ ↦ ok (c', none)
  ]

  -- Where the loop that receives stands.
  pub record Waiting : Type 0 where
    pub client : ClientImpl
    pub num : ℕ
    pub loop_times : ℕ

  pub data Round : Type 0 where
    goes_on : Waiting → Round
    ends : Exit → Round

  abbrev pub received : Status → Option Message → Waiting → Outcome Round
  received status_ok none w = invalid
  received status_ok (some m) w = do
    assert (same (data_slice m) msg)
    n ← decrement w.num
    ok (if n == 0 then ends exit_success else goes_on (record w { num = n }))
  received bus_empty m w = do n ← increment w.loop_times; ok (goes_on (record w { loop_times = n }))
  received _ m w = ok (ends exit_failure)

  -- The body of the loop that receives.
  unfoldable pub round : Waiting → Outcome Round
  round w = do
    (c, status, m) ← receive_message w.client
    received status m (record w { client = c })

  -- The client's bus is changed from the other end.
  unfoldable pub changed : (α.Bus → α.Bus) → Waiting → Waiting
  changed f w = elim w.client.input [
    | none ↦ w
    | some b ↦ record w { client = record w.client { input = some (f b) } }
  ]

  -- The loop that receives, a round behind each of these changes; `none` means that it still runs.
  unfoldable pub receive_loop : List (α.Bus → α.Bus) → Waiting → Outcome (Option Exit)
  receive_loop [] w = ok none
  receive_loop (f ∷ fs) w =
      round (changed f w) >>= λ r. elim r [ ends e ↦ ok (some e) | goes_on v ↦ receive_loop fs v ]

  -- main behind the arrival of a client.
  unfoldable pub talk :
      List (α.Bus → α.Bus) → Message → Settings → ClientImpl → Outcome (Option Exit)
  talk fs memory s c = do
    target ← Address.create s.target
    (c', sent) ← send_loop (rounds_of s.message_num) 0 c (queen memory target)
    elim sent [
      | none ↦ ok (some exit_failure)
      | some num ↦ receive_loop fs (record { client = c'; num = num; loop_times = 0 })
    ]

  module _ ⦃sys : System⦄ (lexical_cast : List ℕ → Option ℕ) (basename : List ℕ → List ℕ) where
    -- main behind the arguments; the bytes are what lies in Init's request.
    unfoldable pub join :
        List (α.Bus → α.Bus) → α.World → List ℕ → Message → Settings → Outcome (Option Exit)
    join fs w bytes memory s = do
      (w', c, status) ←
          create w bytes s.name (set_server_port default_options s.register_server_port)
      if is_ok status then (deref c >>= λ c'. talk fs memory s c') else ok (some exit_failure)

    unfoldable pub main :
        List (α.Bus → α.Bus) → α.World → List ℕ → Message → List (List ℕ) → Outcome (Option Exit)
    main fs w bytes memory argv = settings lexical_cast basename argv >>= λ s. elim s [
      | none ↦ ok (some exit_failure)
      | some t ↦ join fs w bytes memory t
    ]
