-- ===== src/Backend/Invariant/History.antt =====
-- The invariant along whole histories of calls.
use infisical_pkcs.Base.{◌+◌, ◌^◌, ◌<◌, List, [], ◌∷◌, arith, length}
use infisical_pkcs.Backend.Invariant.Handles.{step-next}
use infisical_pkcs.Slots.Sessions.{IsValid, close_all_for_slot-IsValid}
use infisical_pkcs.Backend.State.{Env, Backend}
use infisical_pkcs.Backend.Calls.{
  Call, opens, closes, closes_all, logs_out, find_ends, sign_ends, clears, logs_in, signs,
  sign_updates, caches, find_starts, finds, sign_starts, step, run,
}
use infisical_pkcs.Backend.Login.{close_all_sessions}
use infisical_pkcs.Backend.Invariant.{
  sign_data-IsValid, sign_final-IsValid, sign_update-IsValid, sign_init-IsValid,
  find_objects_init-IsValid, find_objects-IsValid, find_objects_final-IsValid,
}
use infisical_pkcs.Backend.Invariant.Login.{
  open_session_on-IsValid, close_session-IsValid, login-IsValid, logout-IsValid,
  clear_sign_state_by_handle-IsValid, cache_sign_result-IsValid,
}

module _ (e : Env) where
  open e use {service}

  pub step-IsValid :
      (c : Call) (b : Backend service.World)
      → IsValid b.sessions
      → b.sessions.next_id + 1 < 2 ^ 64
      → IsValid (step e c b).sessions
  unfolding step close_all_sessions
  step-IsValid (opens slot) b v room = open_session_on-IsValid e slot b v room
  step-IsValid (closes sh) b v room = close_session-IsValid e sh b v
  step-IsValid (closes_all slot) b v room = close_all_for_slot-IsValid slot b.sessions v
  step-IsValid (logs_out sh) b v room = logout-IsValid e sh b v
  step-IsValid (find_ends sh) b v room = find_objects_final-IsValid e sh b v
  step-IsValid (sign_ends sh) b v room = sign_final-IsValid e sh b v
  step-IsValid (clears sh) b v room = clear_sign_state_by_handle-IsValid e sh b v
  step-IsValid (logs_in sh pin) b v room = login-IsValid e sh pin b v
  step-IsValid (signs sh bytes) b v room = sign_data-IsValid e sh bytes b v
  step-IsValid (sign_updates sh bytes) b v room = sign_update-IsValid e sh bytes b v
  step-IsValid (caches sh signature) b v room = cache_sign_result-IsValid e sh signature b v
  step-IsValid (find_starts sh template) b v room = find_objects_init-IsValid e sh template b v
  step-IsValid (finds sh max) b v room = find_objects-IsValid e sh max b v
  step-IsValid (sign_starts sh mechs key) b v room = sign_init-IsValid e sh mechs key b v

  -- After any history of calls of the methods of the backend that change sessions, whatever their
  -- arguments, whatever the service answers and whether they succeed or fail, valid sessions are
  -- still valid: handles are positive and below the next one, search positions within the results,
  -- sign buffers of at most 16 MiB and empty outside an operation, key indices of 28 bits. There must
  -- be a handle of 64 bits left for every call.
  pub run-IsValid :
      (calls : List Call) (b : Backend service.World)
      → IsValid b.sessions
      → b.sessions.next_id + length calls < 2 ^ 64
      → IsValid (run e calls b).sessions
  unfolding run
  run-IsValid [] b v room = v
  run-IsValid (c ∷ cs) b v room =
      run-IsValid cs (step e c b) (step-IsValid c b v (omega arith))
        (omega (arith, step-next e c b))
