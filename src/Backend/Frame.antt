-- ===== src/Backend/Frame.antt =====
-- What the methods of the backend that talk to the service leave alone: the sessions, the
-- configuration and the flag of initialization.
pub mod Calls
use infisical_pkcs.Base.{ℕ, ◌≡◌, refl, arith, Bytes, none, some, Option-cases, Bool-cases, inl, inr}
use infisical_pkcs.Errors.{GoError}
use infisical_pkcs.Outcome.{Outcome, ok, err, panic}
use infisical_pkcs.Client.{Service, list_signers}
use infisical_pkcs.Backend.State.{Env, Backend, Method}
use infisical_pkcs.Backend.Auth.{
  authenticate, get_token, reauthenticate_for_token, with_retry_on_auth, retry_with_new_token,
  after_first_call,
}
use infisical_pkcs.Backend.Signers.{
  get_signers, fetch_signers, store_signers, get_signer_by_slot, get_signer_by_signer_id,
}

pub record Frame {W : Type 0} (b b' : Backend W) : Type 0 where
  pub same_sessions : b'.sessions ≡ b.sessions
  pub same_config : b'.config ≡ b.config
  pub same_initialized : b'.initialized ≡ b.initialized

module _ (v : Service) where
  open v use {World}

  pub authenticate-Frame :
      (client_id client_secret : Bytes) (b : Backend World)
      → Frame b (authenticate v client_id client_secret b).1
  unfolding authenticate
  authenticate-Frame client_id client_secret b = ground arith

  reauthenticate_for_token-Frame :
      (b : Backend World) → Frame b (reauthenticate_for_token v b.config b).1
  unfolding reauthenticate_for_token
  reauthenticate_for_token-Frame b =
      ground (arith, authenticate-Frame b.config.auth.client_id b.config.auth.client_secret b)

  pub get_token-Frame : (b : Backend World) → Frame b (get_token v b).1
  unfolding get_token
  get_token-Frame b = ground (arith, reauthenticate_for_token-Frame b)

  module _ {A : Type 0} (fn : Bytes → World → Outcome A × World) where
    retry_with_new_token-Frame :
        (token : Bytes) (e : GoError) (b : Backend World)
        → Frame b (retry_with_new_token v fn token e b).1
    unfolding retry_with_new_token
    retry_with_new_token-Frame token e b =
        ground (arith, authenticate-Frame b.config.auth.client_id b.config.auth.client_secret b)

    after_first_call-Frame :
        (token : Bytes) (r : Outcome A) (b : Backend World)
        → Frame b (after_first_call v fn token r b).1
    unfolding after_first_call
    after_first_call-Frame token (ok a) b = ground arith
    after_first_call-Frame token (err e) b = ground (arith, retry_with_new_token-Frame token e b)
    after_first_call-Frame token panic b = ground arith

    pub with_retry_on_auth-Frame : (b : Backend World) → Frame b (with_retry_on_auth v fn b).1
    unfolding with_retry_on_auth
    with_retry_on_auth-Frame b = grind (arith, get_token-Frame, after_first_call-Frame)

  fetch_signers-Frame : (b : Backend World) → Frame b (fetch_signers v b).1
  unfolding fetch_signers store_signers
  fetch_signers-Frame b = ground (arith, with_retry_on_auth-Frame (list_signers v) b)

  pub get_signers-Frame : (b : Backend World) → Frame b (get_signers v b).1
  unfolding get_signers
  get_signers-Frame b = ground (arith, fetch_signers-Frame b)

  pub get_signer_by_slot-Frame :
      (slot : ℕ) (b : Backend World) → Frame b (get_signer_by_slot v slot b).1
  unfolding get_signer_by_slot
  get_signer_by_slot-Frame slot b = ground (arith, get_signers-Frame b)

  pub get_signer_by_signer_id-Frame :
      (id : Bytes) (b : Backend World) → Frame b (get_signer_by_signer_id v id b).1
  unfolding get_signer_by_signer_id
  get_signer_by_signer_id-Frame id b = ground (arith, get_signers-Frame b)
