-- ===== src/Backend/Auth/Course.antt =====
-- backend.go: the ways that a call through `withRetryOnAuth` can take, told by the requests that the
-- service gets.
use infisical_pkcs.Base.{
  ◌≡◌, ℕ, suc, [], true, false, Bytes, is_empty, bytes_eq, List, ◌∷◌, Bool, not, ◌&&◌, ◌||◌,
  if◌then◌else◌,
}
use infisical_pkcs.Errors.{GoError}
use infisical_pkcs.Outcome.{Outcome, ok, err}
use infisical_pkcs.Config.{Config}
use infisical_pkcs.Client.{Service}
use infisical_pkcs.Backend.State.{Backend, outside}
use infisical_pkcs.Backend.Auth.{
  is_unauthorized, uses_token, has_config_credentials, authenticate, get_access_token,
}

-- What the service is asked for: a login with an id and a secret, or the call with a token.
pub data Event : Type 0 where
  login : Bytes → Bytes → Event
  call : Bytes → Event

abbrev pub calls : List Event → ℕ
calls [] = 0
calls (call token ∷ events) = suc (calls events)
calls (login id secret ∷ events) = calls events

abbrev pub logins : List Event → ℕ
logins [] = 0
logins (call token ∷ events) = logins events
logins (login id secret ∷ events) = suc (logins events)

-- A 401 that is answered by a renewal of the token.
abbrev pub is_refused : {A : Type 0} → Config → Outcome A → Bool
is_refused c (err e) = is_unauthorized e && not (uses_token c)
is_refused c _ = false

-- The login with the credentials of the configuration, where it has them.
abbrev pub renewal : (v : Service) → Config → Backend v.World → Outcome (Unit {0}) × Backend v.World
renewal v c b =
    if has_config_credentials c
    then authenticate v c.auth.client_id c.auth.client_secret b
    else (ok tt, b)

abbrev pub renewal_events : Config → List Event → List Event
renewal_events c past =
    if has_config_credentials c then login c.auth.client_id c.auth.client_secret ∷ past else past

-- `log` reads the requests so far from the world outside, the last one first.
module _ (v : Service) {A : Type 0} (fn : Bytes → v.World → Outcome A × v.World)
    (log : v.World → List Event) where
  open v use {World}

  -- The ways from the token `got` and the state `s` after it to the result `x`, each with the
  -- requests that it logs.
  pub data Course (got : Outcome Bytes) (s : Backend World) (x : Outcome A × Backend World)
      : Type 0 where
    -- without a token there is no call
    untried :
        (e : GoError) → got ≡ err e → x ≡ (err e, s) → log x.1.world ≡ log s.world → Course got s x
    -- an answer other than a 401 to a renewable token stands
    settled :
        (token : Bytes)
        → got ≡ ok token
        → is_refused s.config (outside (fn token) s).0 ≡ false
        → x ≡ outside (fn token) s
        → log x.1.world ≡ call token ∷ log s.world
        → Course got s x
    -- the error of a refused login replaces the 401
    not_logged_in :
        (token : Bytes) (e : GoError)
        → got ≡ ok token
        → is_refused s.config (outside (fn token) s).0 ≡ true
        → (renewal v s.config (outside (fn token) s).1).0 ≡ err e
        → x ≡ (err e, (renewal v s.config (outside (fn token) s).1).1)
        → log x.1.world ≡ renewal_events s.config (call token ∷ log s.world)
        → Course got s x
    -- without a new token the 401 stands
    not_renewed :
        (token : Bytes)
        → got ≡ ok token
        → is_refused s.config (outside (fn token) s).0 ≡ true
        → (let (r, s') = renewal v s.config (outside (fn token) s).1 in
            let new_token = get_access_token v s' in
            (r ≡ ok tt)
            × (is_empty new_token || bytes_eq new_token token ≡ true)
            × (x ≡ ((outside (fn token) s).0, s')))
        → log x.1.world ≡ renewal_events s.config (call token ∷ log s.world)
        → Course got s x
    -- the answer to the second call, with the new token, stands
    renewed :
        (token : Bytes)
        → got ≡ ok token
        → is_refused s.config (outside (fn token) s).0 ≡ true
        → (let (r, s') = renewal v s.config (outside (fn token) s).1 in
            let new_token = get_access_token v s' in
            (r ≡ ok tt)
            × (is_empty new_token || bytes_eq new_token token ≡ false)
            × (x ≡ outside (fn new_token) s')
            × (log x.1.world ≡ call new_token ∷ renewal_events s.config (call token ∷ log s.world)))
        → Course got s x
