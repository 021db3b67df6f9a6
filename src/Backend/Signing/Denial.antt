-- ===== src/Backend/Signing/Denial.antt =====
-- What is left of a sign call that the service denies.
use infisical_pkcs.Base.{ℕ, ◌≡◌, ◌∙◌, Bool, true, false, not, ◌&&◌, some, arith, Bytes, is_empty}
use infisical_pkcs.Base.Int.{is_zero_ℤ}
use infisical_pkcs.Errors.{GoError, ApiError, as_api, is_approval_required}
use infisical_pkcs.Outcome.{Outcome, ok, err}
use infisical_pkcs.Config.{Config}
use infisical_pkcs.Scope.{client_metadata}
use infisical_pkcs.Client.{SignerResponse, ApprovalRequest, sign, request_approval, call_api}
use infisical_pkcs.Backend.State.{Env, Backend, Method}
use infisical_pkcs.Backend.Auth.{with_retry_on_auth}
use infisical_pkcs.Backend.Auth.Calm.{panics, get_token-calm}
use infisical_pkcs.Backend.Signers.{get_signer_by_slot}
use infisical_pkcs.Backend.Frame.{with_retry_on_auth-Frame, get_signer_by_slot-Frame}
use infisical_pkcs.Backend.Signing.{
  Payload, make_payload, ask_approval, report_denied_call, report_approval_denial, after_sign_call,
  sign_internal,
}

-- Whether a denial is one that the module asks an approval for, under this configuration.
abbrev pub wants_approval : Config → ApiError → Bool
wants_approval c a =
    is_approval_required a
    && not a.has_pending_request
    && not (is_zero_ℤ c.approval.signing_count && is_empty c.approval.signing_duration)

abbrev fails : {A : Type 0} → Outcome A → Bool
fails (ok a) = false
fails _ = true

module _ (e : Env) where
  open e use {service, asn1, crypto, context}

  -- The request for a signature.
  abbrev pub sign_call : SignerResponse → Payload → Method service.World Bytes
  sign_call signer p = with_retry_on_auth service (λ token. sign service token signer.id (record {
    payload = crypto.base64_encode p.sign_data;
    signing_algorithm = p.algorithm;
    is_digest = p.is_digest;
    client_metadata = client_metadata context;
  }))

  request_approval-calm :
      (token id : Bytes) (request : ApprovalRequest) (w : service.World)
      → panics (request_approval service token id request w).0 ≡ false
  unfolding request_approval call_api
  request_approval-calm token id request w = ground arith

  ask_approval-calm :
      (signer : SignerResponse) (hash : Bytes) (b : Backend service.World)
      → panics (ask_approval e signer hash b).0 ≡ false
  unfolding ask_approval
  ask_approval-calm signer hash b = grind (arith, get_token-calm service b, request_approval-calm)

  pub report_denied_call_lem :
      (signer : SignerResponse) (bytes : Bytes) (a : ApiError) (b : Backend service.World)
      → (fails (report_denied_call e signer bytes a b).0 ≡ false)
        × (wants_approval b.config a ≡ false → (report_denied_call e signer bytes a b).1 ≡ b)
  unfolding report_denied_call
  report_denied_call_lem signer bytes a b =
      let calm = ask_approval-calm signer (crypto.hex_encode (crypto.sha256 bytes)) b in
      (ground (arith, calm), λ unwanted. ground (arith, unwanted))

  -- A sign call that the service denies leaves its own error, whatever comes of the request for an approval; and
  -- where no approval is wanted, because another error denied the call, a request is pending, or the
  -- configuration asks for none, nothing is done after the call.
  pub denied_sign_call :
      (key_index mech : ℕ) (bytes : Bytes) (b : Backend service.World) (signer : SignerResponse)
      → (get_signer_by_slot service key_index b).0 ≡ ok signer
      → (p : Payload) → make_payload asn1 crypto mech bytes ≡ ok p
      → (failure : GoError) (a : ApiError) → as_api failure ≡ some a
      → let called = sign_call signer p (get_signer_by_slot service key_index b).1 in
        called.0 ≡ err failure
        → let (r, b') = sign_internal e key_index mech bytes b in
          (r ≡ err failure) × (wants_approval b.config a ≡ false → b' ≡ called.1)
  unfolding sign_internal after_sign_call report_approval_denial
  denied_sign_call key_index mech bytes b signer found p made failure a denied answer =
      let c = (sign_call signer p (get_signer_by_slot service key_index b).1).1 in
      let report = report_denied_call_lem signer p.sign_data a c in
      let before = get_signer_by_slot-Frame service key_index b in
      let after =
        with_retry_on_auth-Frame service
          (λ token. sign service token signer.id (record {
            payload = crypto.base64_encode p.sign_data;
            signing_algorithm = p.algorithm;
            is_digest = p.is_digest;
            client_metadata = client_metadata context;
          }))
          (get_signer_by_slot service key_index b).1 in
      let same : c.config ≡ b.config = after.same_config ∙ before.same_config in
      (
        ground (arith, found, made, denied, answer, report.0),
        λ unwanted.
            let quiet = report.1 (rw same unwanted) in
            ground (arith, found, made, denied, answer, report.0, quiet),
      )
