-- ===== src/Backend/Auth.antt =====
-- backend.go: the access token, and the retry of a call that was refused with status 401.
pub mod Retry
pub mod Calm
pub mod Course
pub mod Requests
use Prim.Native.String.{String}
use infisical_pkcs.Base.{
  ℕ, Bool, true, false, not, ◌&&◌, ◌||◌, Option, none, some, Bytes, text, is_empty, bytes_eq, ◌==◌,
  if◌then◌else◌,
}
use infisical_pkcs.Errors.{GoError, ApiError, as_api, request, plain}
use infisical_pkcs.Outcome.{Outcome, ok, err, panic}
use infisical_pkcs.Config.{Config, auth_method_token}
use infisical_pkcs.Client.{Service}
use infisical_pkcs.Backend.State.{
  Backend, Method, ◌>>=◌, ◌>>◌, pure, fail, lift, attempt, gets, modify, require, outside,
}

unfoldable pub has_config_credentials : Config → Bool
has_config_credentials c = not (is_empty c.auth.client_id) && not (is_empty c.auth.client_secret)

abbrev pub uses_token : Config → Bool
uses_token c = bytes_eq c.auth.method auth_method_token

unfoldable pub is_token_auth : Config → Bool
is_token_auth c = uses_token c && not (is_empty c.auth.token)

-- `errors.As(err, &apiErr) && apiErr.StatusCode == 401`
unfoldable pub is_unauthorized : GoError → Bool
is_unauthorized e = elim (as_api e) [ none ↦ false | some a ↦ a.status_code == 401 ]

abbrev login_outcome : Option String → Outcome (Unit {0})
login_outcome none = ok tt
login_outcome (some words) = err (request (text "login") (plain words))

module _ (v : Service) where
  open v use {World}

  -- `client.UniversalAuthLogin`, which makes the SDK's client first
  unfoldable pub authenticate : Bytes → Bytes → Method World (Unit {0})
  authenticate client_id client_secret b =
      let (refused, w) = v.universal_auth_login client_id client_secret b.world in
      (login_outcome refused, record b { sdk_ready = true; world = w })

  -- `client.GetAccessToken`
  unfoldable pub get_access_token : Backend World → Bytes
  get_access_token b = if b.sdk_ready then v.access_token b.world else text ""

  -- A second look at the SDK's token, after a login.
  unfoldable pub reauthenticate_for_token : Config → Method World Bytes
  reauthenticate_for_token c = do
    authenticate c.auth.client_id c.auth.client_secret
    token ← gets get_access_token
    require (not (is_empty token)) (plain "token not available after re-auth")
    pure token

  unfoldable pub get_token : Method World Bytes
  get_token b =
      let c = b.config in
      if uses_token c
      then (if is_empty c.auth.token
            then fail (plain "token auth: no token provided")
            else pure c.auth.token)
          b
      else (let token = get_access_token b in
            if not (is_empty token)
            then pure token
            else if has_config_credentials c
            then reauthenticate_for_token c
            else fail (plain "no access token and no credentials available for re-auth"))
          b

  module _ {A : Type 0} (fn : Bytes → World → Outcome A × World) where
    -- After a 401 under universal auth: log in again, and call once more if the token is new.
    unfoldable pub retry_with_new_token : Bytes → GoError → Method World A
    retry_with_new_token token e = do
      c ← gets (λ b. b.config)
      if has_config_credentials c
          then authenticate c.auth.client_id c.auth.client_secret
          else pure tt
      new_token ← gets get_access_token
      if is_empty new_token || bytes_eq new_token token then fail e else outside (fn new_token)

    unfoldable pub after_first_call : Bytes → Outcome A → Method World A
    after_first_call token (ok a) b = (ok a, b)
    after_first_call token panic b = (panic, b)
    after_first_call token (err e) b =
        if not (is_unauthorized e)
        then fail e b
        else if uses_token b.config
        then fail e b
        else retry_with_new_token token e b

    unfoldable pub with_retry_on_auth : Method World A
    with_retry_on_auth = do
      token ← get_token
      first ← attempt (outside (fn token))
      after_first_call token first
