-- ===== src/Programs/TestClient/Idle.antt =====
-- The test client (cpm/cpm_client_main.cc) that has sent nothing.
use cpmd.Base.{ℕ, ◌+◌, ◌^◌, ◌≤◌, ◌<◌, ◌≡◌, ◌⊎◌, false, Option, none, some}
use cpmd.Base.Outcome.{Outcome}
use cpmd.Alpha.{Alpha}
use cpmd.Address.{Address}
use cpmd.Address
use cpmd.Message.{Message, serialize}
use cpmd.Library.Udp.{Status, status_ok}
use cpmd.Programs.{Exit, exit_success, exit_failure}
use cpmd.Programs.TestClient.{Settings, rounds_of, Waiting, Round, goes_on, ends}

-- Whether the client may still run, or has failed.
abbrev pub IsNoSuccess : Option Exit → Type 0
IsNoSuccess none = Unit
IsNoSuccess (some exit_success) = ⊥
IsNoSuccess (some exit_failure) = Unit

-- A count that may still be taken down `n` times: zero, or the pattern of a negative int.
abbrev IsBelowOne : ℕ → ℕ → Type 0
IsBelowOne n k = ((k ≡ 0) × (n ≤ 2 ^ 31)) ⊎ ((2 ^ 31 + n ≤ k) × (k < 2 ^ 32))

-- With kOk there is a message.
abbrev Carries : Status → Option Message → Type 0
Carries status_ok none = ⊥
Carries status_ok (some m) = Unit
Carries _ m = Unit

module _ ⦃α : Alpha⦄ where
  -- A loop that can go round `n` times more: it has a bus, and no counter overflows.
  abbrev IsAble : ℕ → Waiting → Type 0
  IsAble n w =
      (b : α.Bus) × (w.client.input ≡ some b) × IsBelowOne n w.num × (w.loop_times + n < 2 ^ 31)

  abbrev IsUnfinished : ℕ → Round → Type 0
  IsUnfinished n (goes_on w) = IsAble n w
  IsUnfinished n (ends exit_success) = ⊥
  IsUnfinished n (ends exit_failure) = Unit

  -- No message goes out: there is none to send, or the bus refuses the first.
  abbrev pub SendsNothing : Settings → Message → α.Bus → Type 0
  SendsNothing s m p = (rounds_of s.message_num ≡ 0) ⊎ ((α.bus_write p (serialize m)).1 ≡ false)
