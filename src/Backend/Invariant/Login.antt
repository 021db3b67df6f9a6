-- ===== src/Backend/Invariant/Login.antt =====
-- The invariant under the methods that open and close sessions and log in and out.
use infisical_pkcs.Base.{ℕ, ◌+◌, ◌^◌, ◌<◌, true, false, some, arith, Bytes, Option-cases, inl, inr}
use infisical_pkcs.Slots.{Session, open_session, get, set_logged_in}
use infisical_pkcs.Slots.Sessions.{
  IsSound, IsValid, open_session-IsValid, put-IsValid, get-IsSound, close-IsValid,
  set_all_logged_in_for_slot-IsValid, set_logged_in-IsValid,
}
use infisical_pkcs.Backend.State.{Env, Backend}
use infisical_pkcs.Backend.Login.{
  add_session, open_session_on, close_session, mark_logged_in, login_with_credentials,
  login_with_pin, login_without_pin, login, login_on, logout, logout_on, split_client_creds,
}
use infisical_pkcs.Backend.Signing.{clear_sign_state_by_handle, clear_sign_state, cache_sign_result}
use infisical_pkcs.Backend.Frame.{authenticate-Frame, get_signer_by_slot-Frame}
use infisical_pkcs.Backend.Invariant.{with_session-IsValid, clear_sign_state-IsSound}

module _ (e : Env) where
  open e use {service}

  abbrev State : Type 0
  State = Backend service.World

  add_session-IsValid :
      (slot : ℕ) (b : State)
      → IsValid b.sessions
      → b.sessions.next_id + 1 < 2 ^ 64
      → IsValid (add_session service slot b).1.sessions
  unfolding add_session
  add_session-IsValid slot b v room =
      let opened = open_session-IsValid slot b.sessions room v in
      let (handle, m) = open_session slot b.sessions in
      ground (arith, opened, set_logged_in-IsValid handle true m opened)

  pub open_session_on-IsValid :
      (slot : ℕ) (b : State)
      → IsValid b.sessions
      → b.sessions.next_id + 1 < 2 ^ 64
      → IsValid (open_session_on service slot b).1.sessions
  unfolding open_session_on
  open_session_on-IsValid slot b v room =
      grind (arith, get_signer_by_slot-Frame service slot b, add_session-IsValid)

  pub close_session-IsValid :
      (sh : ℕ) (b : State) → IsValid b.sessions → IsValid (close_session service sh b).1.sessions
  unfolding close_session
  close_session-IsValid sh b v = ground (arith, close-IsValid sh b.sessions v)

  mark_logged_in-IsValid :
      (sh slot : ℕ) (b : State)
      → IsValid b.sessions
      → IsValid (mark_logged_in service sh slot b).1.sessions
  unfolding mark_logged_in
  mark_logged_in-IsValid sh slot b v =
      set_all_logged_in_for_slot-IsValid slot true (set_logged_in sh true b.sessions)
        (set_logged_in-IsValid sh true b.sessions v)

  login_with_credentials-IsValid :
      (sh slot : ℕ) (client_id secret : Bytes) (b : State)
      → IsValid b.sessions
      → IsValid (login_with_credentials service sh slot client_id secret b).1.sessions
  unfolding login_with_credentials
  login_with_credentials-IsValid sh slot client_id secret b v =
      grind (arith, authenticate-Frame service client_id secret b, mark_logged_in-IsValid)

  login_with_pin-IsValid :
      (sh slot : ℕ) (pin : Bytes) (b : State)
      → IsValid b.sessions
      → IsValid (login_with_pin service sh slot pin b).1.sessions
  unfolding login_with_pin
  login_with_pin-IsValid sh slot pin b v = elim (Option-cases (split_client_creds pin)) [
    | inl e ↦ rw (e, login_with_pin) (mark_logged_in-IsValid sh slot _ v)
    | inr ((client_id, secret), e) ↦
        rw (e, login_with_pin) (login_with_credentials-IsValid sh slot client_id secret b v)
  ]

  login_without_pin-IsValid :
      (sh slot : ℕ) (b : State)
      → IsValid b.sessions
      → IsValid (login_without_pin service sh slot b).1.sessions
  unfolding login_without_pin
  login_without_pin-IsValid sh slot b v =
      let auth = b.config.auth in
      ground (
        arith,
        login_with_credentials-IsValid sh slot auth.client_id auth.client_secret b v,
        mark_logged_in-IsValid sh slot b v,
      )

  pub login-IsValid :
      (sh : ℕ) (pin : Bytes) (b : State)
      → IsValid b.sessions
      → IsValid (login service sh pin b).1.sessions
  unfolding login login_on
  login-IsValid sh pin b v = with_session-IsValid e sh (login_on service sh pin) b v λ s f. ground (
    arith,
    login_with_pin-IsValid sh s.slot_id pin b v,
    login_without_pin-IsValid sh s.slot_id b v,
  )

  pub logout-IsValid :
      (sh : ℕ) (b : State) → IsValid b.sessions → IsValid (logout service sh b).1.sessions
  unfolding logout logout_on
  logout-IsValid sh b v =
      with_session-IsValid e sh (logout_on service) b v
        λ s f. set_all_logged_in_for_slot-IsValid s.slot_id false b.sessions v

  pub clear_sign_state_by_handle-IsValid :
      (sh : ℕ) (b : State)
      → IsValid b.sessions
      → IsValid (clear_sign_state_by_handle e sh b).1.sessions
  unfolding clear_sign_state_by_handle
  clear_sign_state_by_handle-IsValid sh b v = elim (Option-cases (get sh b.sessions)) [
    | inl none_there ↦ ground (arith, none_there)
    | inr (s, f) ↦
        let sound = clear_sign_state-IsSound s (get-IsSound sh b.sessions v f) in
        ground (arith, f, put-IsValid sh s (clear_sign_state s) b.sessions v f sound)
  ]

  pub cache_sign_result-IsValid :
      (sh : ℕ) (signature : Bytes) (b : State)
      → IsValid b.sessions
      → IsValid (cache_sign_result e sh signature b).1.sessions
  unfolding cache_sign_result
  cache_sign_result-IsValid sh signature b v = elim (Option-cases (get sh b.sessions)) [
    | inl none_there ↦ ground (arith, none_there)
    | inr (s, f) ↦
        let h = get-IsSound sh b.sessions v f in
        let s' : Session = record s { cached_signature = some signature } in
        let sound : IsSound s' = record {
          page = h.page;
          small = h.small;
          idle = h.idle;
          key = h.key;
        } in
        ground (arith, f, put-IsValid sh s s' b.sessions v f sound)
  ]
