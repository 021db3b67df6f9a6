-- ===== src/Backend/Auth/Requests.antt =====
-- backend.go: what `withRetryOnAuth` asks of the service, and which answer it gives.
use infisical_pkcs.Base.{
  ◌≡◌, ◌+◌, ◌≤◌, refl, true, false, arith, Bytes, is_empty, bytes_eq, List, ◌∷◌, Bool-cases, inl,
  inr, ◌⊎◌, ◌||◌,
}
use infisical_pkcs.Errors.{GoError}
use infisical_pkcs.Outcome.{Outcome, ok, err, panic}
use infisical_pkcs.Config.{Config}
use infisical_pkcs.Client.{Service}
use infisical_pkcs.Backend.State.{Backend, outside}
use infisical_pkcs.Backend.Auth.{
  get_token, reauthenticate_for_token, is_unauthorized, uses_token, has_config_credentials,
  authenticate, get_access_token, retry_with_new_token, after_first_call, with_retry_on_auth,
}
use infisical_pkcs.Backend.Auth.Calm.{get_token-calm}
use infisical_pkcs.Backend.Frame.{get_token-Frame}
use infisical_pkcs.Backend.Auth.Course.{
  Event, login, call, calls, logins, is_refused, renewal, renewal_events, Course, untried, settled,
  not_logged_in, not_renewed, renewed,
}

-- A log of the requests, which the call and the login write and nothing else does.
module _ (v : Service) {A : Type 0} (fn : Bytes → v.World → Outcome A × v.World)
    (log : v.World → List Event)
    (call_logs : (token : Bytes) (w : v.World) → log (fn token w).1 ≡ call token ∷ log w)
    (login_logs : (id secret : Bytes) (w : v.World)
      → log (v.universal_auth_login id secret w).1 ≡ login id secret ∷ log w) where
  open v use {World}

  renewal-log :
      (c : Config) (b : Backend World)
      → log (renewal v c b).1.world ≡ renewal_events c (log b.world)
  unfolding authenticate
  renewal-log c b = ground (arith, login_logs c.auth.client_id c.auth.client_secret b.world)

  renewal-cases :
      (c : Config) (b : Backend World)
      → ((e : GoError) × ((renewal v c b).0 ≡ err e)) ⊎ ((renewal v c b).0 ≡ ok tt)
  unfolding authenticate
  renewal-cases c b = ground arith

  after_refusal :
      (token : Bytes) (e : GoError) (s : Backend World)
      → (outside (fn token) s).0 ≡ err e
      → is_unauthorized e ≡ true
      → uses_token s.config ≡ false
      → Course v fn log (ok token) s (retry_with_new_token v fn token e (outside (fn token) s).1)
  unfolding retry_with_new_token
  after_refusal token e s answer unauthorized universal =
      let s' = (outside (fn token) s).1 in
      let s'' = (renewal v s.config s').1 in
      let new_token = get_access_token v s'' in
      elim (renewal-cases s.config s') [
        | inl (e', failed) ↦
            not_logged_in token e' refl refused failed (ground (arith, failed))
              (ground (arith, failed, past))
        | inr renews ↦ elim (Bool-cases (is_empty new_token || bytes_eq new_token token)) [
          | inl same ↦
              not_renewed token refl refused (renews, same, ground (arith, renews, same, answer))
                (ground (arith, renews, same, past))
          | inr new ↦ renewed token refl refused (
            renews,
            new,
            ground (arith, renews, new),
            ground (arith, renews, new, past, call_logs new_token s''.world),
          )
        ]
      ]
    where
      refused : is_refused s.config (outside (fn token) s).0 ≡ true
      refused = ground (arith, answer, unauthorized, universal)

      past :
          log (renewal v s.config (outside (fn token) s).1).1.world
          ≡ renewal_events s.config (call token ∷ log s.world)
      past = rw (renewal-log, call_logs)

  retries :
      (token : Bytes) (s : Backend World) (e : GoError)
      → is_refused {A = A} s.config (err e) ≡ true
      → after_first_call v fn token (err e) (outside (fn token) s).1
        ≡ retry_with_new_token v fn token e (outside (fn token) s).1
  unfolding after_first_call
  retries token s e refused = ground (arith, refused)

  after_first :
      (token : Bytes) (s : Backend World) (r : Outcome A)
      → (outside (fn token) s).0 ≡ r
      → Course v fn log (ok token) s (after_first_call v fn token r (outside (fn token) s).1)
  unfolding after_first_call
  after_first token s (ok a) answer =
      settled token refl (ground (arith, answer)) (ground (arith, answer)) (call_logs token s.world)
  after_first token s panic answer =
      settled token refl (ground (arith, answer)) (ground (arith, answer)) (call_logs token s.world)
  after_first token s (err e) answer = elim (Bool-cases (is_refused {A = A} s.config (err e))) [
    | inl refused ↦
        rw (retries token s e refused)
          (after_refusal token e s answer (ground (arith, refused)) (ground (arith, refused)))
    | inr kept ↦
        settled token refl (ground (arith, answer, kept)) (ground (arith, answer, kept))
          (ground (arith, kept, call_logs token s.world))
  ]

  get_token-log :
      (b : Backend World)
      → (log (get_token v b).1.world ≡ log b.world)
        ⊎ (log (get_token v b).1.world
            ≡ login b.config.auth.client_id b.config.auth.client_secret ∷ log b.world)
  unfolding get_token reauthenticate_for_token authenticate
  get_token-log b =
      ground (arith, login_logs b.config.auth.client_id b.config.auth.client_secret b.world)

  goes_on :
      (b : Backend World) (token : Bytes)
      → (get_token v b).0 ≡ ok token
      → with_retry_on_auth v fn b
        ≡ (let (r, s') = outside (fn token) (get_token v b).1 in after_first_call v fn token r s')
  unfolding with_retry_on_auth after_first_call
  goes_on b token got = ground (arith, got)

  stops :
      (b : Backend World) (e : GoError)
      → (get_token v b).0 ≡ err e
      → with_retry_on_auth v fn b ≡ (err e, (get_token v b).1)
  unfolding with_retry_on_auth
  stops b e got = ground (arith, got)

  course :
      (b : Backend World) (got : Outcome Bytes)
      → (get_token v b).0 ≡ got
      → Course v fn log got (get_token v b).1 (with_retry_on_auth v fn b)
  course b (ok token) got = rw (goes_on b token got) (after_first token (get_token v b).1 _ refl)
  course b (err e) got = untried e refl (stops b e got) (rw (stops b e got))
  course b panic got = absurd (ground (arith, got, get_token-calm v b))

  renewal_events-counts :
      (c : Config) (past : List Event)
      → (calls (renewal_events c past) ≡ calls past)
        × (logins (renewal_events c past) ≤ 1 + logins past)
  renewal_events-counts c past = elim (Bool-cases (has_config_credentials c)) [
    | inl creds ↦ (rw creds, rw creds (omega arith))
    | inr without ↦ (rw without, rw without (omega arith))
  ]

  Course-counts :
      (got : Outcome Bytes) (s : Backend World) (x : Outcome A × Backend World)
      → Course v fn log got s x
      → (calls (log x.1.world) ≤ 2 + calls (log s.world))
        × (logins (log x.1.world) ≤ 1 + logins (log s.world))
  Course-counts got s x (untried e failed ends logged) =
      (rw logged (omega arith), rw logged (omega arith))
  Course-counts got s x (settled token given stands ends logged) =
      (rw logged (omega arith), rw logged (omega arith))
  Course-counts got s x (not_logged_in token e given refused failed ends logged) = (
    rw logged (omega (arith, renewal_events-counts s.config (call token ∷ log s.world))),
    rw logged (omega (arith, renewal_events-counts s.config (call token ∷ log s.world))),
  )
  Course-counts got s x (not_renewed token given refused same logged) = (
    rw logged (omega (arith, renewal_events-counts s.config (call token ∷ log s.world))),
    rw logged (omega (arith, renewal_events-counts s.config (call token ∷ log s.world))),
  )
  Course-counts got s x (renewed token given refused new) = (
    rw new.3 (omega (arith, renewal_events-counts s.config (call token ∷ log s.world))),
    rw new.3 (omega (arith, renewal_events-counts s.config (call token ∷ log s.world))),
  )

  get_token-counts :
      (b : Backend World)
      → (calls (log (get_token v b).1.world) ≡ calls (log b.world))
        × (logins (log (get_token v b).1.world) ≤ 1 + logins (log b.world))
  get_token-counts b = elim (get_token-log b) [
    | inl quiet ↦ (rw quiet, rw quiet (omega arith))
    | inr logged ↦ (rw logged, rw logged (omega arith))
  ]

  -- `withRetryOnAuth` on every path, for any call, state and service, told by a log in which the call
  -- and the login write themselves. `getToken` makes at most one login, with the credentials of the
  -- configuration, and no call. If it gives no token, its error is the answer and there is no call.
  -- What the first call leaves stands, with no other request, unless it is a 401 under universal auth.
  -- After such a 401 there is one login with the credentials of the configuration, if it has them. If
  -- this login is refused, its error is the answer. If the token of the SDK is then empty or still the
  -- first one, the 401 stands. Otherwise there is exactly one more call, with the new token, and what
  -- it leaves stands. In all there are at most two calls and two logins.
  pub with_retry_on_auth-Course :
      (b : Backend World)
      → let (got, s) = get_token v b in
        let x = with_retry_on_auth v fn b in
        let c = b.config.auth in
        (s.config ≡ b.config)
        × ((log s.world ≡ log b.world)
            ⊎ (log s.world ≡ login c.client_id c.client_secret ∷ log b.world))
        × Course v fn log got s x
        × (calls (log x.1.world) ≤ 2 + calls (log b.world))
        × (logins (log x.1.world) ≤ 2 + logins (log b.world))
  with_retry_on_auth-Course b =
      let (got, s) = get_token v b in
      let way = course b got refl in
      let counts = Course-counts got s (with_retry_on_auth v fn b) way in
      (
        (get_token-Frame v b).same_config,
        get_token-log b,
        way,
        omega (arith, counts, get_token-counts b),
        omega (arith, counts, get_token-counts b),
      )
