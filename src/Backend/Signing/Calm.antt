-- ===== src/Backend/Signing/Calm.antt =====
-- backend.go: no part of `signInternal` panics.
use infisical_pkcs.Base.{ℕ, ◌≡◌, ◌≢◌, refl, false, arith, Bytes, Option-cases, inl, inr}
use infisical_pkcs.Errors.{GoError, as_api}
use infisical_pkcs.Outcome.{Outcome, ok, err, panic}
use infisical_pkcs.Mechanism.{Asn1, parse_digest_info, mechanism_to_algorithm}
use infisical_pkcs.Client.{Service, SignerResponse, SignRequest, sign, list_signers, call_api}
use infisical_pkcs.Backend.State.{Env, Backend, Crypto}
use infisical_pkcs.Backend.Auth.Calm.{panics, with_retry_on_auth-calm}
use infisical_pkcs.Backend.Signers.{get_signers, fetch_signers, store_signers, get_signer_by_slot}
use infisical_pkcs.Backend.Signing.{
  Payload, make_payload, report_approval_denial, after_sign_call, sign_internal,
}
use infisical_pkcs.Backend.Signing.Denial.{report_denied_call_lem}

parse_digest_info-calm : (a : Asn1) (s : Bytes) → panics (parse_digest_info a s) ≡ false
unfolding parse_digest_info
parse_digest_info-calm a s = ground arith

mechanism_to_algorithm-calm : (mech : ℕ) → panics (mechanism_to_algorithm mech) ≡ false
unfolding mechanism_to_algorithm
mechanism_to_algorithm-calm mech = ground arith

make_payload-calm :
    (a : Asn1) (c : Crypto) (mech : ℕ) (s : Bytes) → panics (make_payload a c mech s) ≡ false
unfolding make_payload
make_payload-calm a c mech s =
    ground (arith, parse_digest_info-calm a s, mechanism_to_algorithm-calm mech)

module _ (v : Service) where
  open v use {World}

  list_signers-calm : (token : Bytes) (w : World) → panics (list_signers v token w).0 ≡ false
  unfolding list_signers call_api
  list_signers-calm token w = ground arith

  sign-calm :
      (token id : Bytes) (req : SignRequest) (w : World) → panics (sign v token id req w).0 ≡ false
  unfolding sign call_api
  sign-calm token id req w = ground arith

  fetch_signers-calm : (b : Backend World) → panics (fetch_signers v b).0 ≡ false
  unfolding fetch_signers store_signers
  fetch_signers-calm b =
      ground (arith, with_retry_on_auth-calm v (list_signers v) list_signers-calm b)

  get_signer_by_slot-calm :
      (slot : ℕ) (b : Backend World) → panics (get_signer_by_slot v slot b).0 ≡ false
  unfolding get_signer_by_slot get_signers
  get_signer_by_slot-calm slot b = ground (arith, fetch_signers-calm b)

module _ (e : Env) where
  open e use {service, asn1, crypto, context}

  report_approval_denial-calm :
      (signer : SignerResponse) (bytes : Bytes) (failure : GoError) (b : Backend service.World)
      → panics (report_approval_denial e signer bytes failure b).0 ≡ false
  unfolding report_approval_denial
  report_approval_denial-calm signer bytes failure b = elim (Option-cases (as_api failure)) [
    | inl other ↦ rw (other, report_approval_denial) refl
    | inr (a, found) ↦
        rw (found, report_approval_denial)
          (ground (arith, (report_denied_call_lem e signer bytes a b).0))
  ]

  after_sign_call-calm :
      (signer : SignerResponse) (p : Payload) (r : Outcome Bytes) (b : Backend service.World)
      → panics r ≡ false
      → panics (after_sign_call e signer p r b).0 ≡ false
  unfolding after_sign_call
  after_sign_call-calm signer p (ok signature) b returned = ground arith
  after_sign_call-calm signer p (err failure) b returned =
      ground (arith, report_approval_denial-calm signer p.sign_data failure b)
  after_sign_call-calm signer p panic b returned = absurd (ground (arith, returned))

  sign_internal-calm :
      (key_index mech : ℕ) (bytes : Bytes) (b : Backend service.World)
      → panics (sign_internal e key_index mech bytes b).0 ≡ false
  unfolding sign_internal
  sign_internal-calm key_index mech bytes b = grind (
    arith,
    get_signer_by_slot-calm service key_index b,
    make_payload-calm asn1 crypto mech bytes,
    with_retry_on_auth-calm service,
    sign-calm service,
    after_sign_call-calm,
  )

  -- `signInternal` never panics.
  pub sign_internal-returns :
      (key_index mech : ℕ) (bytes : Bytes) (b : Backend service.World)
      → (sign_internal e key_index mech bytes b).0 ≢ panic
  sign_internal-returns key_index mech bytes b panicked =
      ground (arith, panicked, sign_internal-calm key_index mech bytes b)
