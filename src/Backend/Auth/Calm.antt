-- ===== src/Backend/Auth/Calm.antt =====
-- backend.go: no part of `withRetryOnAuth` panics if the call does not.
use infisical_pkcs.Base.{◌≡◌, Bool, refl, true, false, arith, Bytes}
use infisical_pkcs.Errors.{GoError}
use infisical_pkcs.Outcome.{Outcome, ok, err, panic}
use infisical_pkcs.Client.{Service}
use infisical_pkcs.Backend.State.{Backend}
use infisical_pkcs.Backend.Auth.{
  get_token, reauthenticate_for_token, authenticate, with_retry_on_auth, retry_with_new_token,
  after_first_call,
}

abbrev pub panics : {A : Type 0} → Outcome A → Bool
panics panic = true
panics _ = false

module _ (v : Service) where
  open v use {World}

  pub get_token-calm : (b : Backend World) → panics (get_token v b).0 ≡ false
  unfolding get_token reauthenticate_for_token authenticate
  get_token-calm b = ground arith

  module _ {A : Type 0} (fn : Bytes → World → Outcome A × World)
      (calm : (token : Bytes) (w : World) → panics (fn token w).0 ≡ false) where
    retry_with_new_token-calm :
        (token : Bytes) (e : GoError) (b : Backend World)
        → panics (retry_with_new_token v fn token e b).0 ≡ false
    unfolding retry_with_new_token authenticate
    retry_with_new_token-calm token e b = grind (arith, calm)

    after_first_call-calm :
        (token : Bytes) (r : Outcome A) (b : Backend World)
        → panics r ≡ false
        → panics (after_first_call v fn token r b).0 ≡ false
    unfolding after_first_call
    after_first_call-calm token (ok a) b returned = refl
    after_first_call-calm token (err e) b returned =
        ground (arith, retry_with_new_token-calm token e b)
    after_first_call-calm token panic b returned = absurd (ground (arith, returned))

    pub with_retry_on_auth-calm : (b : Backend World) → panics (with_retry_on_auth v fn b).0 ≡ false
    unfolding with_retry_on_auth
    with_retry_on_auth-calm b = grind (arith, get_token-calm b, calm, after_first_call-calm)
