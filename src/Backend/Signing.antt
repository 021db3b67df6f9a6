-- ===== src/Backend/Signing.antt =====
-- backend.go: the signing operation of a session: `SignInit`, `Sign`, `SignUpdate`, `SignFinal`, the
-- request to the service, and the approval that is asked for when it is denied.
pub mod Parts
pub mod Payloads
pub mod Denial
pub mod Calm
use infisical_pkcs.Base.{
  ℕ, ◌+◌, Bool, true, false, not, ◌&&◌, ◌||◌, List, [], ◌∷◌, ◌++◌, Option, none, some, Bytes, text,
  is_empty, contains, length, ◌==◌, if◌then◌else◌,
}
use infisical_pkcs.Base.Int.{ℤ, pos, is_zero_ℤ, ltb_ℤ}
use infisical_pkcs.Errors.{
  GoError, ApiError, sentinel, not_logged_in, sign_already_active, sign_not_active, as_api,
  is_approval_required, plain, wrap,
}
use infisical_pkcs.Outcome.{Outcome, ok, err, panic}
use infisical_pkcs.Constants.{
  ckm_rsa_pkcs, ckm_ecdsa, ckm_sha256_rsa_pkcs, ckm_sha384_rsa_pkcs, ckm_sha512_rsa_pkcs,
  ckm_sha256_rsa_pkcs_pss, ckm_sha384_rsa_pkcs_pss, ckm_sha512_rsa_pkcs_pss, ckm_ecdsa_sha256,
  ckm_ecdsa_sha384, ckm_ecdsa_sha512,
}
use infisical_pkcs.Slots.{Session, parse_object_handle, append_sign_buffer, get, put}
use infisical_pkcs.Mechanism.{
  Asn1, mechanism_to_algorithm, parse_digest_info, is_pss_mechanism, alg_ecdsa_sha256,
  alg_ecdsa_sha384, alg_ecdsa_sha512,
}
use infisical_pkcs.Scope.{client_metadata, request_scope}
use infisical_pkcs.Client.{
  Service, SignerResponse, SignRequest, ApprovalRequest, ApprovalRequestResponse, key_algorithm,
  sign, request_approval,
}
use infisical_pkcs.Backend.State.{
  Env, Backend, Method, Crypto, ◌>>=◌, ◌>>◌, pure, fail, lift, attempt, gets, require, or_fail,
  outside, get_session, write_session, set_sessions,
}
use infisical_pkcs.Backend.Auth.{get_token, with_retry_on_auth}
use infisical_pkcs.Backend.Signers.{get_signer_by_slot}

unfoldable pub clear_sign_state : Session → Session
clear_sign_state s = record s {
  sign_active = false;
  sign_mech = 0;
  sign_key_index = 0;
  sign_buffer = [];
  cached_signature = none;
}

-- `SignInit` on the session, once its guards have passed.
unfoldable pub begin_sign : ℕ → ℕ → Session → Session
begin_sign mech slot s = record s {
  sign_active = true;
  sign_mech = mech;
  sign_key_index = slot;
  sign_buffer = [];
}

unfoldable pub hash_data_for_mechanism : Crypto → ℕ → Bytes → Bytes
hash_data_for_mechanism c mech bytes =
    if mech == ckm_sha256_rsa_pkcs || mech == ckm_sha256_rsa_pkcs_pss || mech == ckm_ecdsa_sha256
    then c.sha256 bytes
    else if mech == ckm_sha384_rsa_pkcs
        || mech == ckm_sha384_rsa_pkcs_pss
        || mech == ckm_ecdsa_sha384
    then c.sha384 bytes
    else if mech == ckm_sha512_rsa_pkcs
        || mech == ckm_sha512_rsa_pkcs_pss
        || mech == ckm_ecdsa_sha512
    then c.sha512 bytes
    else bytes

-- What is sent to be signed: the algorithm, the bytes, and whether they are a digest.
pub record Payload : Type 0 where
  pub algorithm : Bytes
  pub sign_data : Bytes
  pub is_digest : Bool

abbrev ecdsa_algorithm : ℕ → Bytes
ecdsa_algorithm n =
    if n == 48 then alg_ecdsa_sha384 else if n == 64 then alg_ecdsa_sha512 else alg_ecdsa_sha256

abbrev digest_payload : Outcome (Bytes × Bytes) → Outcome Payload
digest_payload (ok (alg, digest)) =
    ok (record { algorithm = alg; sign_data = digest; is_digest = true })
digest_payload (err e) = err (plain "invalid DigestInfo for CKM_RSA_PKCS")
digest_payload panic = panic

abbrev with_algorithm : Outcome Bytes → Bytes → Bool → Outcome Payload
with_algorithm (ok alg) bytes digest =
    ok (record { algorithm = alg; sign_data = bytes; is_digest = digest })
with_algorithm (err e) bytes digest = err e
with_algorithm panic bytes digest = panic

-- The first half of `signInternal`.
unfoldable pub make_payload : Asn1 → Crypto → ℕ → Bytes → Outcome Payload
make_payload asn1 c mech bytes =
    if mech == ckm_rsa_pkcs
    then digest_payload (parse_digest_info asn1 bytes)
    else if mech == ckm_ecdsa
    then ok
        (record { algorithm = ecdsa_algorithm (length bytes); sign_data = bytes; is_digest = true })
    else if is_pss_mechanism mech
    then with_algorithm (mechanism_to_algorithm mech) bytes false
    else with_algorithm (mechanism_to_algorithm mech) (hash_data_for_mechanism c mech bytes) true

unfoldable pub approval_justification : Bytes → Bytes
approval_justification hostname =
    if is_empty hostname
    then text "Auto-requested by the Infisical PKCS#11 module"
    else text "Auto-requested by the Infisical PKCS#11 module on " ++ hostname

module _ (e : Env) where
  open e use {service, library, asn1, crypto, context}

  unfoldable pub ask_approval :
      SignerResponse → Bytes → Method service.World ApprovalRequestResponse
  ask_approval signer data_hash = do
    c ← gets (λ b. b.config)
    token ← get_token service
    outside (
        request_approval service token signer.id (record {
          justification = approval_justification context.hostname;
          requested_signings =
              if ltb_ℤ (pos 0) c.approval.signing_count then c.approval.signing_count else pos 0;
          requested_window_duration = c.approval.signing_duration;
          scope =
              request_scope crypto.marshal_text context data_hash c.approval.exclude_scope_fields
                c.approval.ip_address;
        }))

  -- Asks for an approval if the denial is one that an approval resolves, none is pending, and the
  -- configuration wants it. Its own failure is only logged.
  unfoldable pub report_denied_call : SignerResponse → Bytes → ApiError → Method service.World Bool
  report_denied_call signer sign_data a b =
      let c = b.config.approval in
      (if not (is_approval_required a)
          then pure false
          else if a.has_pending_request
          then pure true
          else if is_zero_ℤ c.signing_count && is_empty c.signing_duration
          then pure true
          else (attempt (ask_approval signer (crypto.hex_encode (crypto.sha256 sign_data)))
              >>= λ answer. pure true))
        b

  unfoldable pub report_approval_denial :
      SignerResponse → Bytes → GoError → Method service.World Bool
  report_approval_denial signer sign_data sign_err = elim (as_api sign_err) [
    | none ↦ pure false
    | some a ↦ report_denied_call signer sign_data a
  ]

  unfoldable pub after_sign_call :
      SignerResponse → Payload → Outcome Bytes → Method service.World Bytes
  after_sign_call signer p (ok signature) =
      or_fail (crypto.base64_decode signature) (plain "failed to decode signature")
  after_sign_call signer p (err failure) =
      report_approval_denial signer p.sign_data failure >>= λ reported. fail failure
  after_sign_call signer p panic = lift panic

  -- `signInternal`, given the fields of the session that it reads.
  unfoldable pub sign_internal : ℕ → ℕ → Bytes → Method service.World Bytes
  sign_internal key_index mech bytes = do
    signer ← get_signer_by_slot service key_index
    p ← lift (make_payload asn1 crypto mech bytes)
    answer ← attempt (
        with_retry_on_auth service (λ token. sign service token signer.id (record {
          payload = crypto.base64_encode p.sign_data;
          signing_algorithm = p.algorithm;
          is_digest = p.is_digest;
          client_metadata = client_metadata context;
        })))
    after_sign_call signer p answer

  -- `SignInit` on a session, up to the guards; each `_on` is a method after its `sessions.get`.
  unfoldable pub sign_init_on : ℕ → List ℕ → ℕ → Session → Method service.World (Unit {0})
  sign_init_on sh [] key sess = do
    require sess.logged_in (sentinel not_logged_in)
    require (not sess.sign_active) (sentinel sign_already_active)
    fail (plain "no mechanism provided")
  sign_init_on sh (mech ∷ mechs) key sess = do
    require sess.logged_in (sentinel not_logged_in)
    require (not sess.sign_active) (sentinel sign_already_active)
    write_session sh (begin_sign mech (parse_object_handle key).1 sess)

  unfoldable pub sign_init : ℕ → List ℕ → ℕ → Method service.World (Unit {0})
  sign_init sh mechs key = get_session sh >>= sign_init_on sh mechs key

  -- After `signInternal`: an error ends the operation, a signature leaves it active.
  unfoldable pub finish_sign : ℕ → Session → Outcome Bytes → Method service.World Bytes
  finish_sign sh sess (ok signature) = pure signature
  finish_sign sh sess (err failure) = write_session sh (clear_sign_state sess) >>= λ _. fail failure
  finish_sign sh sess panic = lift panic

  -- The part that `Sign` and `SignFinal` share; the last argument is the session's cached signature.
  unfoldable pub sign_or_cached : ℕ → Session → Bytes → Option Bytes → Method service.World Bytes
  sign_or_cached sh sess bytes (some signature) =
      write_session sh (clear_sign_state sess) >>= λ _. pure signature
  sign_or_cached sh sess bytes none =
      attempt (sign_internal sess.sign_key_index sess.sign_mech bytes) >>= λ r.
      finish_sign sh sess r

  unfoldable pub sign_data_on : ℕ → Bytes → Session → Method service.World Bytes
  sign_data_on sh bytes sess = do
    require sess.sign_active (sentinel sign_not_active)
    sign_or_cached sh sess bytes sess.cached_signature

  -- `Sign`
  unfoldable pub sign_data : ℕ → Bytes → Method service.World Bytes
  sign_data sh bytes = get_session sh >>= sign_data_on sh bytes

  unfoldable pub sign_final : ℕ → Method service.World Bytes
  sign_final sh = get_session sh >>= λ sess. sign_data_on sh sess.sign_buffer sess

  abbrev appended : ℕ → Option GoError × Session → Method service.World (Unit {0})
  appended sh (none, s) = write_session sh s
  appended sh (some failure, s) = fail failure

  unfoldable pub sign_update_on : ℕ → Bytes → Session → Method service.World (Unit {0})
  sign_update_on sh bytes sess = do
    require sess.sign_active (sentinel sign_not_active)
    appended sh (append_sign_buffer bytes sess)

  unfoldable pub sign_update : ℕ → Bytes → Method service.World (Unit {0})
  sign_update sh bytes = get_session sh >>= sign_update_on sh bytes

  abbrev on_session : ℕ → (Session → Session) → Method service.World (Unit {0})
  on_session sh f b = elim (get sh b.sessions) [
    | none ↦ (ok tt, b)
    | some s ↦ (ok tt, set_sessions (put sh (f s) b.sessions) b)
  ]

  unfoldable pub clear_sign_state_by_handle : ℕ → Method service.World (Unit {0})
  clear_sign_state_by_handle sh = on_session sh clear_sign_state

  unfoldable pub cache_sign_result : ℕ → Bytes → Method service.World (Unit {0})
  cache_sign_result sh signature =
      on_session sh (λ s. record s { cached_signature = some signature })

  abbrev size_for : Bytes → ℕ
  size_for key_alg =
      if contains key_alg (text "4096")
      then 512
      else if contains key_alg (text "3072")
      then 384
      else if contains key_alg (text "2048")
      then 256
      else if contains key_alg (text "ec") || contains key_alg (text "ecdsa")
      then 132
      else 512

  abbrev size_or_default : Outcome SignerResponse → ℕ
  size_or_default (ok signer) = size_for (key_algorithm library.unicode_lower signer)
  size_or_default _ = 512

  unfoldable pub estimate_signature_size : ℕ → Method service.World ℕ
  estimate_signature_size sh b = elim (get sh b.sessions) [
    | none ↦ (ok 512, b)
    | some sess ↦
        (attempt (get_signer_by_slot service sess.sign_key_index) >>= λ r. pure (size_or_default r))
          b
  ]
