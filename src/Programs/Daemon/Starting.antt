-- ===== src/Programs/Daemon/Starting.antt =====
-- main of cpmd (cpm/cpm_main.cc).
use cpmd.Base.{◌≡◌, refl, inl, inr, Bool, Option, Option-cases, none, some, List}
use cpmd.Base.Outcome.{ok, Safe, Safe->>=}
use cpmd.Alpha.{Alpha}
use cpmd.Server.{Server}
use cpmd.Server.Events.{Event, handle_all}
use cpmd.Server.Start.{Flags}
use cpmd.Server.Start.Safe.{Nobody, run-handle_all}
use cpmd.Server.Safety.Handlers.{AfterInv}
use cpmd.Programs.{Exit, exit_success, exit_failure}
use cpmd.Programs.Daemon.{Platform, bus_location, start, looped, main}

-- main has not failed.
abbrev pub IsNoFailure : Option Exit → Type 0
IsNoFailure none = Unit
IsNoFailure (some exit_success) = Unit
IsNoFailure (some exit_failure) = ⊥

module _ ⦃α : Alpha⦄ where
  -- A server that keeps its promises through its events.
  looped-IsNoFailure :
      (events : List Event) (s : Server)
      → Safe (AfterInv Nobody) (handle_all events s)
      → Safe IsNoFailure (looped events (some s))
  unfolding looped
  looped-IsNoFailure events s h =
      Safe->>= (AfterInv Nobody) IsNoFailure (handle_all events s) _ h λ r _. after r
    where
      after :
          (r : Option Server)
          → Safe IsNoFailure (elim r [ none ↦ ok none | some t ↦ ok (some exit_success) ])
      after none = tt
      after (some t) = tt

module _ ⦃α : Alpha⦄ (sys : Platform) where
  -- main of cpmd, with any flags and any events behind its start, makes no access through a
  -- pointer or an iterator that points to nothing, and never returns EXIT_FAILURE; where Run
  -- fails, it returns EXIT_SUCCESS.
  pub main-IsNoFailure :
      (flag_daemon : Bool) (flags : Flags) (events : List Event) (w : α.World)
      → Safe IsNoFailure (main sys flag_daemon flags events w)
        × ((start sys flag_daemon flags w).1 ≡ none
            → main sys flag_daemon flags events w ≡ ok (some exit_success))
  unfolding main start looped
  main-IsNoFailure flag_daemon flags events w =
      let up = (start sys flag_daemon flags w).1 in
      (
        elim (Option-cases up) [
          | inl refused ↦ rw refused tt
          | inr (s, started) ↦
              rw started
                (looped-IsNoFailure events s (run-handle_all flags bus_location _ s events started))
        ],
        λ refused. rw refused refl,
      )
