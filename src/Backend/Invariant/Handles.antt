-- ===== src/Backend/Invariant/Handles.antt =====
-- How fast the handles are used up.
use infisical_pkcs.Base.{
  ℕ, ◌+◌, ◌%◌, ◌^◌, ◌≤◌, ◌≡◌, refl, Bool, true, false, List, [], ◌∷◌, Option, none, some, arith,
  Bytes, Option-cases, inl, inr,
}
use infisical_pkcs.Base.Int.{ℤ}
use infisical_pkcs.Outcome.{Outcome, ok, err, panic}
use infisical_pkcs.Slots.{
  Session, SessionManager, append_sign_buffer, Attribute, open_session, put, get, close,
  close_all_for_slot, set_logged_in, set_all_logged_in_for_slot,
}
use infisical_pkcs.Backend.State.{Env, Backend, Method, ◌>>=◌, get_session, write_session}
use infisical_pkcs.Backend.Calls.{
  Call, opens, closes, closes_all, logs_out, find_ends, sign_ends, clears, logs_in, signs,
  sign_updates, caches, find_starts, finds, sign_starts, step,
}
use infisical_pkcs.Backend.Login.{
  add_session, open_session_on, close_session, close_all_sessions, mark_logged_in,
  login_with_credentials, login_with_pin, login_without_pin, login, login_on, logout, logout_on,
  split_client_creds,
}
use infisical_pkcs.Backend.Find.{
  end_search, read_template, empty_query, find_objects_init, find_objects_init_on, find_objects,
  find_objects_on, find_objects_final,
}
use infisical_pkcs.Backend.Signing.{
  sign_init, sign_init_on, finish_sign, sign_or_cached, sign_data, sign_data_on, sign_update,
  sign_update_on, sign_final, clear_sign_state_by_handle, cache_sign_result,
}
use infisical_pkcs.Backend.Frame.{authenticate-Frame, get_signer_by_slot-Frame}
use infisical_pkcs.Backend.Frame.Calls.{sign_internal-Frame, search_objects-Frame}

-- The next handle stays the same.
abbrev pub Kept : {W : Type 0} → Backend W → Backend W → Type 0
Kept b b' = b'.sessions.next_id ≡ b.sessions.next_id

set_logged_in-next :
    (h : ℕ) (on : Bool) (m : SessionManager) → (set_logged_in h on m).next_id ≡ m.next_id
unfolding set_logged_in
set_logged_in-next h on m = ground arith

set_all-next :
    (slot : ℕ) (on : Bool) (m : SessionManager)
    → (set_all_logged_in_for_slot slot on m).next_id ≡ m.next_id
unfolding set_all_logged_in_for_slot
set_all-next slot on m = refl

close-next : (h : ℕ) (m : SessionManager) → (close h m).1.next_id ≡ m.next_id
unfolding close
close-next h m = ground arith

module _ (e : Env) where
  open e use {service}

  abbrev State : Type 0
  State = Backend service.World

  with_session-Kept :
      {A : Type 0} (sh : ℕ) (f : Session → Method service.World A) (b : State)
      → ((s : Session) → Kept b (f s b).1)
      → Kept b ((get_session sh >>= f) b).1
  unfolding get_session
  with_session-Kept sh f b k = elim (Option-cases (get sh b.sessions)) [
    | inl e ↦ ground (arith, e)
    | inr (s, e) ↦ ground (arith, e, k s)
  ]

  write_session-Kept : (sh : ℕ) (s : Session) (b : State) → Kept b (write_session sh s b).1
  unfolding write_session put
  write_session-Kept sh s b = refl

  add_session-next :
      (slot : ℕ) (b : State)
      → (add_session service slot b).1.sessions.next_id ≤ b.sessions.next_id + 1
  unfolding add_session open_session
  add_session-next slot b =
      let (handle, m) = open_session slot b.sessions in
      let wrapped : (b.sessions.next_id + 1) % 2 ^ 64 ≤ b.sessions.next_id + 1 = omega arith in
      ground (arith, wrapped, set_logged_in-next handle true m)

  open_session_on-next :
      (slot : ℕ) (b : State)
      → (open_session_on service slot b).1.sessions.next_id ≤ b.sessions.next_id + 1
  unfolding open_session_on
  open_session_on-next slot b =
      grind (arith, get_signer_by_slot-Frame service slot b, add_session-next)

  mark_logged_in-Kept : (sh slot : ℕ) (b : State) → Kept b (mark_logged_in service sh slot b).1
  unfolding mark_logged_in
  mark_logged_in-Kept sh slot b = omega (
    arith,
    set_all-next slot true (set_logged_in sh true b.sessions),
    set_logged_in-next sh true b.sessions,
  )

  login_with_credentials-Kept :
      (sh slot : ℕ) (id secret : Bytes) (b : State)
      → Kept b (login_with_credentials service sh slot id secret b).1
  unfolding login_with_credentials
  login_with_credentials-Kept sh slot id secret b =
      grind (arith, authenticate-Frame service id secret b, mark_logged_in-Kept)

  login_with_pin-Kept :
      (sh slot : ℕ) (pin : Bytes) (b : State) → Kept b (login_with_pin service sh slot pin b).1
  unfolding login_with_pin
  login_with_pin-Kept sh slot pin b = elim (Option-cases (split_client_creds pin)) [
    | inl e ↦ rw (e, login_with_pin) (mark_logged_in-Kept sh slot _)
    | inr ((client_id, secret), e) ↦
        rw (e, login_with_pin) (login_with_credentials-Kept sh slot client_id secret b)
  ]

  login_without_pin-Kept :
      (sh slot : ℕ) (b : State) → Kept b (login_without_pin service sh slot b).1
  unfolding login_without_pin
  login_without_pin-Kept sh slot b =
      let auth = b.config.auth in
      ground (
        arith,
        login_with_credentials-Kept sh slot auth.client_id auth.client_secret b,
        mark_logged_in-Kept sh slot b,
      )

  login-Kept : (sh : ℕ) (pin : Bytes) (b : State) → Kept b (login service sh pin b).1
  unfolding login login_on
  login-Kept sh pin b = with_session-Kept sh (login_on service sh pin) b λ s.
      ground (arith, login_with_pin-Kept sh s.slot_id pin b, login_without_pin-Kept sh s.slot_id b)

  finish_sign-Kept :
      (sh : ℕ) (s : Session) (r : Outcome Bytes) (b : State) → Kept b (finish_sign e sh s r b).1
  unfolding finish_sign
  finish_sign-Kept sh s (ok signature) b = refl
  finish_sign-Kept sh s (err failure) b = unfold write_session put in refl
  finish_sign-Kept sh s panic b = refl

  sign_or_cached-Kept :
      (sh : ℕ) (s : Session) (bytes : Bytes) (cached : Option Bytes) (b : State)
      → Kept b (sign_or_cached e sh s bytes cached b).1
  unfolding sign_or_cached
  sign_or_cached-Kept sh s bytes (some signature) b = unfold write_session put in refl
  sign_or_cached-Kept sh s bytes none b =
      grind (arith, sign_internal-Frame e s.sign_key_index s.sign_mech bytes b, finish_sign-Kept)

  sign_data_on-Kept :
      (sh : ℕ) (bytes : Bytes) (s : Session) (b : State) → Kept b (sign_data_on e sh bytes s b).1
  unfolding sign_data_on
  sign_data_on-Kept sh bytes s b =
      ground (arith, sign_or_cached-Kept sh s bytes s.cached_signature b)

  pub sign_data-Kept : (sh : ℕ) (bytes : Bytes) (b : State) → Kept b (sign_data e sh bytes b).1
  unfolding sign_data
  sign_data-Kept sh bytes b =
      with_session-Kept sh (sign_data_on e sh bytes) b λ s. sign_data_on-Kept sh bytes s b

  pub sign_final-Kept : (sh : ℕ) (b : State) → Kept b (sign_final e sh b).1
  unfolding sign_final
  sign_final-Kept sh b =
      with_session-Kept sh (λ s. sign_data_on e sh s.sign_buffer s) b
        λ s. sign_data_on-Kept sh s.sign_buffer s b

  sign_init_on-Kept :
      (sh : ℕ) (mechs : List ℕ) (key : ℕ) (s : Session) (b : State)
      → Kept b (sign_init_on e sh mechs key s b).1
  unfolding sign_init_on write_session put
  sign_init_on-Kept sh [] key s b = ground arith
  sign_init_on-Kept sh (mech ∷ mechs) key s b = ground arith

  find_objects_init_on-Kept :
      (sh : ℕ) (template : List Attribute) (s : Session) (b : State)
      → Kept b (find_objects_init_on e sh template s b).1
  unfolding find_objects_init_on
  find_objects_init_on-Kept sh template s b =
      let q = read_template template empty_query in
      grind (arith, search_objects-Frame e s.slot_id q b, write_session-Kept)

  find_objects_on-Kept :
      (sh : ℕ) (max : ℤ) (s : Session) (b : State) → Kept b (find_objects_on e sh max s b).1
  unfolding find_objects_on write_session put
  find_objects_on-Kept sh max s b = ground arith

  sign_update_on-Kept :
      (sh : ℕ) (bytes : Bytes) (s : Session) (b : State) → Kept b (sign_update_on e sh bytes s b).1
  unfolding sign_update_on write_session put append_sign_buffer
  sign_update_on-Kept sh bytes s b = ground arith

  -- Opening a session takes one handle at most, and no other method takes any.
  pub step-next : (c : Call) (b : State) → (step e c b).sessions.next_id ≤ b.sessions.next_id + 1
  unfolding step close_session close_all_sessions close_all_for_slot logout logout_on
      find_objects_final sign_final clear_sign_state_by_handle login sign_data sign_update
      cache_sign_result find_objects_init find_objects sign_init put
  step-next (opens slot) b = open_session_on-next slot b
  step-next (closes sh) b = ground (arith, close-next sh b.sessions)
  step-next (closes_all slot) b = omega arith
  step-next (logs_out sh) b = omega (
    arith,
    with_session-Kept sh (logout_on service) b λ s. set_all-next s.slot_id false b.sessions,
  )
  step-next (find_ends sh) b = omega (
    arith,
    with_session-Kept sh (λ s. write_session sh (end_search s)) b
        λ s. write_session-Kept sh (end_search s) b,
  )
  step-next (sign_ends sh) b = omega (
    arith,
    with_session-Kept sh (λ s. sign_data_on e sh s.sign_buffer s) b
        λ s. sign_data_on-Kept sh s.sign_buffer s b,
  )
  step-next (clears sh) b = ground arith
  step-next (logs_in sh pin) b = omega (arith, login-Kept sh pin b)
  step-next (signs sh bytes) b = omega (arith, sign_data-Kept sh bytes b)
  step-next (sign_updates sh bytes) b = omega (
    arith,
    with_session-Kept sh (sign_update_on e sh bytes) b λ s. sign_update_on-Kept sh bytes s b,
  )
  step-next (caches sh signature) b = ground arith
  step-next (find_starts sh template) b = omega (
    arith,
    with_session-Kept sh (find_objects_init_on e sh template) b
        λ s. find_objects_init_on-Kept sh template s b,
  )
  step-next (finds sh max) b = omega (
    arith,
    with_session-Kept sh (find_objects_on e sh max) b λ s. find_objects_on-Kept sh max s b,
  )
  step-next (sign_starts sh mechs key) b = omega (
    arith,
    with_session-Kept sh (sign_init_on e sh mechs key) b λ s. sign_init_on-Kept sh mechs key s b,
  )
