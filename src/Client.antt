-- ===== src/Client.antt =====
-- cpm/cpm_client_info.h and cpm/cpm_client_info.cc: a local client, with the buses to and from it.
use cpmd.Base.{ℕ, Bool, not, ◌&&◌, Option, none, some, List, length, ltb, leb, if◌then◌else◌}
use cpmd.Base.Outcome.{Outcome, ok, assert_some, deref, ◌>>=◌}
use cpmd.Alpha.{Alpha}
use cpmd.Address.{Address}
use cpmd.Message.{Message, min_size, max_data_size, size, serialize, message_at}
use cpmd.Message.Codec.{is_negative}

-- The guard of ReadMessage on the size; negative sizes pass it.
unfoldable pub is_too_large : Message → Bool
unfolding is_negative
is_too_large m = not (is_negative (size m)) && leb max_data_size (size m)

module _ ⦃α : Alpha⦄ where
  pub record ClientInfo : Type 0 where
    pub name : List ℕ
    pub addr : Address
    pub input : Option α.Bus
    pub output : Option α.Bus

  unfoldable pub new : List ℕ → Address → ClientInfo
  new name addr = record { name = name; addr = addr; input = none; output = none }

  unfoldable pub set_input_bus : Option α.Bus → ClientInfo → Outcome ClientInfo
  set_input_bus bus c = do b ← assert_some bus; ok (record c { input = some b })

  unfoldable pub set_output_bus : Option α.Bus → ClientInfo → Outcome ClientInfo
  set_output_bus bus c = do b ← assert_some bus; ok (record c { output = some b })

  unfoldable pub write_message : ClientInfo → Message → Outcome (ClientInfo × Bool)
  write_message c m = do
    b ← deref c.output
    let (b', done) = α.bus_write b (serialize m)
    ok (record c { output = some b' }, done)

  -- What ReadMessage makes of what the bus gave: `none` is its false.
  unfoldable pub accept : Option (List ℕ) → Option Message
  unfolding is_too_large
  accept none = none
  accept (some bytes) =
      if ltb (length bytes) min_size
      then none
      else if is_too_large (message_at bytes)
      then none
      else some (message_at bytes)

  unfoldable pub read_message : ClientInfo → Outcome (ClientInfo × Option Message)
  unfolding accept
  read_message c = do
    b ← deref c.input
    let (b', got) = α.bus_read b
    ok (record c { input = some b' }, accept got)
