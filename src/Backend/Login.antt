-- ===== src/Backend/Login.antt =====
-- backend.go: sessions opened and closed, login and logout, and the state that a session reports.
pub mod Unlock
use infisical_pkcs.Base.{
  ℕ, Bool, true, false, not, ◌&&◌, ◌||◌, Option, none, some, Bytes, is_empty, cut, if◌then◌else◌,
}
use infisical_pkcs.Errors.{sentinel, session_handle_invalid, plain}
use infisical_pkcs.Outcome.{ok, err}
use infisical_pkcs.Constants.{cks_ro_public_session, cks_ro_user_functions, ckf_serial_session}
use infisical_pkcs.Slots.{
  Session, open_session, close, close_all_for_slot, set_logged_in, set_all_logged_in_for_slot,
}
use infisical_pkcs.Config.{auth_method_token}
use infisical_pkcs.Client.{Service}
use infisical_pkcs.Backend.State.{
  Backend, Method, ◌>>=◌, ◌>>◌, pure, fail, modify, set_sessions, get_session,
}
use infisical_pkcs.Backend.Auth.{
  authenticate, get_access_token, has_config_credentials, is_token_auth, uses_token,
}
use infisical_pkcs.Backend.Signers.{get_signer_by_slot}

-- `strings.SplitN(pin, ":", 2)` with two parts, both not empty
unfoldable pub split_client_creds : Bytes → Option (Bytes × Bytes)
split_client_creds pin = elim (cut b':' pin) [
  | none ↦ none
  | some (client_id, client_secret) ↦
      if not (is_empty client_id) && not (is_empty client_secret)
      then some (client_id, client_secret)
      else none
]

pub record SessionInfo : Type 0 where
  pub slot_id : ℕ
  pub state : ℕ
  pub flags : ℕ

module _ (v : Service) where
  open v use {World}

  abbrev pub starts_logged_in : Backend World → Bool
  starts_logged_in b =
      is_token_auth b.config
      || (has_config_credentials b.config && not (is_empty (get_access_token v b)))

  -- The session that `OpenSession` makes once the slot is known to exist.
  unfoldable pub add_session : ℕ → Method World ℕ
  add_session slot b =
      let (handle, m) = open_session slot b.sessions in
      let m' = if starts_logged_in b then set_logged_in handle true m else m in
      (ok handle, set_sessions m' b)

  unfoldable pub open_session_on : ℕ → Method World ℕ
  open_session_on slot = get_signer_by_slot v slot >>= λ signer. add_session slot

  unfoldable pub close_session : ℕ → Method World (Unit {0})
  close_session sh b =
      let (closed, m) = close sh b.sessions in
      if closed then (ok tt, set_sessions m b) else (err (sentinel session_handle_invalid), b)

  unfoldable pub close_all_sessions : ℕ → Method World (Unit {0})
  close_all_sessions slot = modify (λ b. set_sessions (close_all_for_slot slot b.sessions) b)

  -- `setLoggedIn(sh, true)` and `setAllLoggedInForSlot(slot, true)`
  unfoldable pub mark_logged_in : ℕ → ℕ → Method World (Unit {0})
  mark_logged_in sh slot =
      modify λ b.
        set_sessions (set_all_logged_in_for_slot slot true (set_logged_in sh true b.sessions)) b

  abbrev use_token : Bytes → Backend World → Backend World
  use_token pin b = record b {
    config = record b.config {
      auth = record b.config.auth { method = auth_method_token; token = pin };
    };
  }

  -- A login with an identifier and a secret.
  unfoldable pub login_with_credentials : ℕ → ℕ → Bytes → Bytes → Method World (Unit {0})
  login_with_credentials sh slot client_id client_secret =
      authenticate v client_id client_secret >> mark_logged_in sh slot

  unfoldable pub login_with_pin : ℕ → ℕ → Bytes → Method World (Unit {0})
  login_with_pin sh slot pin = elim (split_client_creds pin) [
    | some (client_id, client_secret) ↦ login_with_credentials sh slot client_id client_secret
    | none ↦ modify (use_token pin) >> mark_logged_in sh slot
  ]

  unfoldable pub login_without_pin : ℕ → ℕ → Method World (Unit {0})
  login_without_pin sh slot b =
      let c = b.config in
      if uses_token c
      then (if is_empty c.auth.token
          then fail (plain "token auth: no token provided") b
          else mark_logged_in sh slot b)
      else if not (is_empty (get_access_token v b)) && has_config_credentials c
      then mark_logged_in sh slot b
      else if is_empty c.auth.client_id
      then fail (plain "no credentials: provide a PIN") b
      else login_with_credentials sh slot c.auth.client_id c.auth.client_secret b

  unfoldable pub login_on : ℕ → Bytes → Session → Method World (Unit {0})
  login_on sh pin sess =
      if is_empty pin then login_without_pin sh sess.slot_id else login_with_pin sh sess.slot_id pin

  unfoldable pub login : ℕ → Bytes → Method World (Unit {0})
  login sh pin = get_session sh >>= login_on sh pin

  unfoldable pub logout_on : Session → Method World (Unit {0})
  logout_on sess =
      modify (λ b. set_sessions (set_all_logged_in_for_slot sess.slot_id false b.sessions) b)

  unfoldable pub logout : ℕ → Method World (Unit {0})
  logout sh = get_session sh >>= logout_on

  unfoldable pub get_session_info : ℕ → Method World SessionInfo
  get_session_info sh = do
    sess ← get_session sh
    pure (record {
      slot_id = sess.slot_id;
      state = if sess.logged_in then cks_ro_user_functions else cks_ro_public_session;
      flags = ckf_serial_session;
    })
