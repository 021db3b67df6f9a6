-- ===== src/Tests/Startup.antt =====
-- The theorems on startup, on histories of the session manager and on whole searches at concrete
-- inputs.
use infisical_pkcs.Base.{◌≡◌, refl, true, false, [], ◌∷◌, some, arith, text, ℕ}
use infisical_pkcs.Base.Map.{lookup, nat_key}
use infisical_pkcs.Base.Map.Unique.{IsUnique}
use infisical_pkcs.Outcome.{ok}
use infisical_pkcs.Config.{load_config}
use infisical_pkcs.Slots.{get, new_session_manager}
use infisical_pkcs.Slots.Refinement.{
  opens, sets_slot, closes, perform_all, meaning_all, table, perform_all-refines,
}
use infisical_pkcs.Backend.State.{Env, Backend}
use infisical_pkcs.Backend.Startup.{new_infisical_client, initialize}
use infisical_pkcs.Backend.Startup.Restart.{IsFresh, initialize_lem, restart_forgets}
use infisical_pkcs.Backend.Find.Drain.{drain, drain_lem}
use infisical_pkcs.Tests.Demo.{demo_env, demo_backend, demo_session, demo_config}

-- The demo world with a configuration file.
abbrev ready_env : Env
ready_env = record demo_env {
  host = record {
    goos = text "linux";
    getenv = λ name. [];
    read_file = λ path. some [];
    unmarshal_config = λ s. some demo_config;
  };
}

loads : load_config ready_env.library ready_env.host ≡ ok demo_config
unfolding load_config
loads = refl

makes_client : new_infisical_client ready_env.host ready_env.crypto demo_config ≡ ok tt
unfolding new_infisical_client
makes_client = refl

-- A module that has been finalized.
abbrev closed_backend : Backend ℕ
closed_backend = record demo_backend { initialized = false }

abbrev other_backend : Backend ℕ
other_backend = record closed_backend { sessions = new_session_manager; sdk_ready = true }

initialize_lem_example : IsFresh ready_env demo_config (initialize ready_env closed_backend).1
initialize_lem_example =
    ((initialize_lem ready_env closed_backend refl demo_config loads).0 makes_client).1

restart_forgets_example :
    (initialize ready_env closed_backend).0 ≡ (initialize ready_env other_backend).0
restart_forgets_example = (restart_forgets ready_env closed_backend other_backend refl refl refl).0

demo-IsUnique : IsUnique demo_backend.sessions.sessions
unfolding lookup
demo-IsUnique = (refl, tt)

perform_all-refines_example :
    table (perform_all (opens 4 ∷ sets_slot 0 false ∷ closes 1 ∷ []) demo_backend.sessions)
    ≡ meaning_all (opens 4 ∷ sets_slot 0 false ∷ closes 1 ∷ []) (table demo_backend.sessions)
perform_all-refines_example =
    perform_all-refines (opens 4 ∷ sets_slot 0 false ∷ closes 1 ∷ []) demo_backend.sessions
      demo-IsUnique

demo_there : get 1 demo_backend.sessions ≡ some demo_session
unfolding get lookup
demo_there = refl

drain_lem_example : (drain demo_env 1 3 1 demo_backend).0 ≡ ok (some (0x30000000 ∷ 0x20000000 ∷ []))
drain_lem_example =
    drain_lem demo_env 1 3 1 demo_session demo_backend demo_there refl (omega arith) (omega arith)
