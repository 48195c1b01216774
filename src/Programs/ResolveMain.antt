-- ===== src/Programs/ResolveMain.antt =====
-- cpm/cpm_resolve_server_main.cc: the resolve server, whose event loop runs from `serves` on
-- (Resolve/Service/Steps).
use cpmd.Base.{ℕ, not, Option, none, some, List, length, ◌==◌, if◌then◌else◌}
use cpmd.Base.Outcome.{Outcome, ok, deref, ◌>>=◌}
use cpmd.Alpha.{Alpha}
use cpmd.Boost.{PropertyTree}
use cpmd.Resolve.Service.{Service, serve}
use cpmd.Programs.{Exit, exit_success, exit_failure, argument}

module _ ⦃α : Alpha⦄ where
  -- main up to the event loop.
  pub data Started : Type 0 where
    refused : Started
    serves : Service → Started

  abbrev pub started : Option Service → Started
  started none = refused
  started (some s) = serves s

  unfoldable pub start : PropertyTree → List (List ℕ) → α.World → Outcome Started
  start β argv w =
      let run = deref (argument 1 argv) >>= λ file. serve β file w in
      if not (length argv == 2) then ok refused else (do s ← run; ok (started s))

  -- What main returns, where the loop comes to its end.
  unfoldable pub exit : Started → Exit
  exit refused = exit_failure
  exit (serves s) = exit_success
