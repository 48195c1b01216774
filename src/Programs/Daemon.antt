-- ===== src/Programs/Daemon.antt =====
-- cpm/cpm_main.cc: cpmd. The calls of the operating system and of the event loop that main makes are
-- a parameter; loop.Run is a sequence of events, up to the call of Quit.
pub mod Starting
use cpmd.Base.{ℕ, Bool, true, false, Option, none, some, List, [], ◌∷◌, if◌then◌else◌}
use cpmd.Base.Outcome.{Outcome, ok, ◌>>=◌}
use cpmd.Alpha.{Alpha}
use cpmd.Server.{Server}
use cpmd.Server.Events.{Event, handle_all}
use cpmd.Server.Start.{Flags, new, run}
use cpmd.Programs.{Exit, exit_success}

pub record Platform ⦃α : Alpha⦄ : Type 0 where
  -- EventLoop::TrapSignal, with a functor that calls Quit.
  pub trap_signal : α.World → ℕ → α.World × Bool
  -- daemon (0, 0)
  pub daemon : α.World → α.World
  -- The numbers of the signals.
  pub sigpipe : ℕ
  pub sigint : ℕ
  pub sigquit : ℕ
  pub sigterm : ℕ

-- "/tmp"
abbrev pub bus_location : List ℕ
bus_location = b'/' ∷ b't' ∷ b'm' ∷ b'p' ∷ []

module _ ⦃α : Alpha⦄ where
  -- loop.Run, and the return; `none` where a bus turn runs out of its rounds.
  unfoldable pub looped : List Event → Option Server → Outcome (Option Exit)
  looped events none = ok (some exit_success)
  looped events (some s) =
      handle_all events s >>= λ r. elim r [ none ↦ ok none | some t ↦ ok (some exit_success) ]

module _ ⦃α : Alpha⦄ (sys : Platform) where
  -- The for_each of HandlerSignals: behind a signal that is not trapped none is tried.
  unfoldable pub trap_all : List ℕ → Bool → α.World → α.World × Bool
  trap_all [] ok_ w = (w, ok_)
  trap_all (signo ∷ signals) ok_ w = elim ok_ [
    | true ↦ trap_all signals (sys.trap_signal w signo).1 (sys.trap_signal w signo).0
    | false ↦ trap_all signals false w
  ]

  unfoldable pub handler_signals : α.World → List ℕ → α.World × Bool
  handler_signals w signals = trap_all signals true w

  -- main up to the event loop; what HandlerSignals gives is not looked at.
  unfoldable pub start : Bool → Flags → α.World → α.World × Option Server
  start flag_daemon flags w =
      let w0 = if flag_daemon then sys.daemon w else w in
      let w1 = (handler_signals w0 (sys.sigpipe ∷ [])).0 in
      let w2 = (handler_signals w1 (sys.sigint ∷ sys.sigquit ∷ sys.sigterm ∷ [])).0 in
      run flags (new flags bus_location) w2

  unfoldable pub main : Bool → Flags → List Event → α.World → Outcome (Option Exit)
  main flag_daemon flags events w = looped events (start flag_daemon flags w).1
