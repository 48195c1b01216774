-- ===== src/Programs.antt =====
-- The main functions of the programs in cpm/: the test client (cpm_client_main.cc), cpmd
-- (cpm_main.cc) and the resolve server (cpm_resolve_server_main.cc).
pub mod TestClient
pub mod Daemon
pub mod ResolveMain
use cpmd.Base.{ℕ, zero, suc, Option, none, some, List, [], ◌∷◌}

-- What main returns.
pub data Exit : Type 0 where
  exit_success exit_failure : Exit

-- argv[i], where i < argc.
unfoldable pub argument : ℕ → List (List ℕ) → Option (List ℕ)
argument i [] = none
argument zero (a ∷ argv) = some a
argument (suc i) (a ∷ argv) = argument i argv
