-- ===== src/Backend/Calls.antt =====
-- The methods that change sessions, as one type of calls, and histories of calls.
use infisical_pkcs.Base.{ℕ, List, [], ◌∷◌, Bytes}
use infisical_pkcs.Base.Int.{ℤ}
use infisical_pkcs.Slots.{Attribute}
use infisical_pkcs.Backend.State.{Env, Backend}
use infisical_pkcs.Backend.Login.{open_session_on, close_session, close_all_sessions, login, logout}
use infisical_pkcs.Backend.Find.{find_objects_init, find_objects, find_objects_final}
use infisical_pkcs.Backend.Signing.{
  sign_init, sign_data, sign_update, sign_final, clear_sign_state_by_handle, cache_sign_result,
}

pub data Call : Type 0 where
  opens closes closes_all logs_out find_ends sign_ends clears : ℕ → Call
  logs_in signs sign_updates caches : ℕ → Bytes → Call
  find_starts : ℕ → List Attribute → Call
  finds : ℕ → ℤ → Call
  sign_starts : ℕ → List ℕ → ℕ → Call

module _ (e : Env) where
  open e use {service}

  -- The state after a call, whatever it returned.
  unfoldable pub step : Call → Backend service.World → Backend service.World
  step (opens slot) b = (open_session_on service slot b).1
  step (closes sh) b = (close_session service sh b).1
  step (closes_all slot) b = (close_all_sessions service slot b).1
  step (logs_out sh) b = (logout service sh b).1
  step (find_ends sh) b = (find_objects_final e sh b).1
  step (sign_ends sh) b = (sign_final e sh b).1
  step (clears sh) b = (clear_sign_state_by_handle e sh b).1
  step (logs_in sh pin) b = (login service sh pin b).1
  step (signs sh bytes) b = (sign_data e sh bytes b).1
  step (sign_updates sh bytes) b = (sign_update e sh bytes b).1
  step (caches sh signature) b = (cache_sign_result e sh signature b).1
  step (find_starts sh template) b = (find_objects_init e sh template b).1
  step (finds sh max) b = (find_objects e sh max b).1
  step (sign_starts sh mechs key) b = (sign_init e sh mechs key b).1

  unfoldable pub run : List Call → Backend service.World → Backend service.World
  run [] b = b
  run (c ∷ cs) b = run cs (step c b)
