-- ===== src/Server/Start/Safe.antt =====
-- cpmd from its start on (cpm/cpm_server.cc).
use cpmd.Base.{subst, true, false, not, if◌then◌else◌, ℕ, ◌≡◌, Bool, Option, none, some, List}
use cpmd.Base.Map
use cpmd.Base.Outcome.{Safe}
use cpmd.Alpha.{Alpha}
use cpmd.Library.Udp.{localhost}
use cpmd.Server.{Server}
use cpmd.Server.Tables.{Inv}
use cpmd.Server.Events.{Event, handle_all}
use cpmd.Server.Safety.Handlers.{AfterInv, handle_all-Inv}
use cpmd.Server.Start.{Flags, Constructed, new, connected_to, run}

module _ ⦃α : Alpha⦄ where
  -- Nobody has joined yet.
  abbrev pub Nobody : ℕ → Type 0
  Nobody a = ⊥

  -- Where a server has started, its tables keep their promises.
  abbrev Starts : Option Server → Type 0
  Starts none = Unit
  Starts (some s) = Inv Nobody s

  connected_to-Starts :
      (flags : Flags) (c : Constructed) (w : α.World) → Starts (connected_to flags c w).1
  unfolding connected_to Map.find
  connected_to-Starts flags c w = record {
    nodes_valid = λ k n e. cc;
    index_valid = λ a k e. cc;
    clients_valid = λ a c e. cc;
    present = λ a e. absurd e;
  }

  Starts-guarded :
      (started up : Bool) (w w' : α.World) (x : α.World × Option Server)
      → Starts x.1
      → Starts (if not started then (w, none) else if not up then (w', none) else x).1
  Starts-guarded false up w w' x h = tt
  Starts-guarded true false w w' x h = tt
  Starts-guarded true true w w' x h = h

  run-Starts : (flags : Flags) (c : Constructed) (w : α.World) → Starts (run flags c w).1
  unfolding run
  run-Starts flags c w =
      let udp = α.start_udp w (α.make_address localhost c.register_server_port) in
      let tcp = α.listen udp.0 (α.make_address c.message_server_ip c.message_server_port) in
      Starts-guarded udp.1 tcp.1 udp.0 tcp.0 (connected_to flags c tcp.0)
        (connected_to-Starts flags c tcp.0)

  -- Where Run succeeds on a server that was constructed with any flags and bus location, no
  -- sequence of events from then on makes a handler access anything through a pointer or an
  -- iterator that points to nothing, and where no assert stops cpmd, none reads behind the bytes
  -- that came, and no bus turn runs out of
  -- its rounds, the tables keep their promises.
  pub run-handle_all :
      (flags : Flags) (location : List ℕ) (w : α.World) (s : Server) (events : List Event)
      → (run flags (new flags location) w).1 ≡ some s
      → Safe (AfterInv Nobody) (handle_all events s)
  run-handle_all flags location w s events e =
      handle_all-Inv Nobody events s (subst Starts e (run-Starts flags (new flags location) w))
