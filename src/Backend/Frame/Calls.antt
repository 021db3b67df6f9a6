-- ===== src/Backend/Frame/Calls.antt =====
-- The frame of the methods that fetch certificates and sign.
use infisical_pkcs.Base.{ℕ, arith, Bytes, Bool, true, false, Option-cases, inl, inr}
use infisical_pkcs.Base.Map.{bytes_key}
use infisical_pkcs.Errors.{GoError, ApiError, as_api}
use infisical_pkcs.Outcome.{Outcome, ok, err, panic}
use infisical_pkcs.Client.{SignerResponse}
use infisical_pkcs.Backend.State.{Env, Backend, PublicKey, ec_key}
use infisical_pkcs.Backend.Keys.{
  fetch_certificate, get_certificate_data, parsed_certificate, read_rsa_key, get_public_key_data,
  ec_of, read_ec_key, get_ec_public_key_data, store_pub_key,
}
use infisical_pkcs.Backend.Find.{
  Query, signer_matches, subject_matches, subject_matches_if, search_objects,
}
use infisical_pkcs.Backend.Signing.{
  ask_approval, report_denied_call, report_approval_denial, after_sign_call, sign_internal, Payload,
}
use infisical_pkcs.Backend.Frame.{
  Frame, with_retry_on_auth-Frame, get_token-Frame, get_signer_by_slot-Frame,
  get_signer_by_signer_id-Frame,
}

module _ (e : Env) where
  open e use {service}

  fetch_certificate-Frame :
      (id : Bytes) (b : Backend service.World) → Frame b (fetch_certificate e id b).1
  unfolding fetch_certificate
  fetch_certificate-Frame id b =
      grind (arith, get_signer_by_signer_id-Frame service id b, with_retry_on_auth-Frame)

  pub get_certificate_data-Frame :
      (id : Bytes) (b : Backend service.World) → Frame b (get_certificate_data e id b).1
  unfolding get_certificate_data
  get_certificate_data-Frame id b = ground (arith, fetch_certificate-Frame id b)

  pub parsed_certificate-Frame :
      (id : Bytes) (b : Backend service.World) → Frame b (parsed_certificate e id b).1
  unfolding parsed_certificate
  parsed_certificate-Frame id b = ground (arith, get_certificate_data-Frame id b)

  read_rsa_key-Frame : (id : Bytes) (b : Backend service.World) → Frame b (read_rsa_key e id b).1
  unfolding read_rsa_key store_pub_key
  read_rsa_key-Frame id b = ground (arith, parsed_certificate-Frame id b)

  pub get_public_key_data-Frame :
      (id : Bytes) (b : Backend service.World) → Frame b (get_public_key_data e id b).1
  unfolding get_public_key_data
  get_public_key_data-Frame id b = ground (arith, read_rsa_key-Frame id b)

  ec_of-Frame : (key : PublicKey) (b : Backend service.World) → Frame b (ec_of e key b).1
  unfolding ec_of
  ec_of-Frame (ec_key curve x y) b = ground arith
  ec_of-Frame _ b = ground arith

  read_ec_key-Frame : (id : Bytes) (b : Backend service.World) → Frame b (read_ec_key e id b).1
  unfolding read_ec_key store_pub_key
  read_ec_key-Frame id b = grind (arith, parsed_certificate-Frame id b, ec_of-Frame)

  pub get_ec_public_key_data-Frame :
      (id : Bytes) (b : Backend service.World) → Frame b (get_ec_public_key_data e id b).1
  unfolding get_ec_public_key_data
  get_ec_public_key_data-Frame id b = ground (arith, read_ec_key-Frame id b)

  signer_matches-Frame :
      (slot : ℕ) (q : Query) (b : Backend service.World) → Frame b (signer_matches e slot q b).1
  unfolding signer_matches
  signer_matches-Frame slot q b = ground (arith, get_signer_by_slot-Frame service slot b)

  subject_matches-Frame :
      (slot : ℕ) (q : Query) (b : Backend service.World)
      → Frame b (subject_matches e slot q.subject b).1
  unfolding subject_matches
  subject_matches-Frame slot q b =
      grind (arith, get_signer_by_slot-Frame service slot b, get_certificate_data-Frame)

  subject_matches_if-Frame :
      (test : Bool) (slot : ℕ) (q : Query) (b : Backend service.World)
      → Frame b (subject_matches_if e test slot q.subject b).1
  unfolding subject_matches_if
  subject_matches_if-Frame true slot q b = subject_matches-Frame slot q b
  subject_matches_if-Frame false slot q b = ground arith

  pub search_objects-Frame :
      (slot : ℕ) (q : Query) (b : Backend service.World) → Frame b (search_objects e slot q b).1
  unfolding search_objects
  search_objects-Frame slot q b =
      grind (arith, signer_matches-Frame slot q b, subject_matches_if-Frame)

  ask_approval-Frame :
      (signer : SignerResponse) (hash : Bytes) (b : Backend service.World)
      → Frame b (ask_approval e signer hash b).1
  unfolding ask_approval
  ask_approval-Frame signer hash b = ground (arith, get_token-Frame service b)

  report_denied_call-Frame :
      (signer : SignerResponse) (bytes : Bytes) (a : ApiError) (b : Backend service.World)
      → Frame b (report_denied_call e signer bytes a b).1
  unfolding report_denied_call
  report_denied_call-Frame signer bytes a b =
      let hash = e.crypto.hex_encode (e.crypto.sha256 bytes) in
      ground (arith, ask_approval-Frame signer hash b)

  report_approval_denial-Frame :
      (signer : SignerResponse) (bytes : Bytes) (failure : GoError) (b : Backend service.World)
      → Frame b (report_approval_denial e signer bytes failure b).1
  unfolding report_approval_denial
  report_approval_denial-Frame signer bytes failure b = elim (Option-cases (as_api failure)) [
    | inl other ↦ rw (other, report_approval_denial) (ground arith)
    | inr (a, found) ↦
        rw (found, report_approval_denial) (report_denied_call-Frame signer bytes a b)
  ]

  after_sign_call-Frame :
      (signer : SignerResponse) (p : Payload) (r : Outcome Bytes) (b : Backend service.World)
      → Frame b (after_sign_call e signer p r b).1
  unfolding after_sign_call
  after_sign_call-Frame signer p (ok signature) b = ground arith
  after_sign_call-Frame signer p (err failure) b =
      ground (arith, report_approval_denial-Frame signer p.sign_data failure b)
  after_sign_call-Frame signer p panic b = ground arith

  -- Signing changes no session, and neither the configuration nor the flag of initialization.
  pub sign_internal-Frame :
      (key_index mech : ℕ) (bytes : Bytes) (b : Backend service.World)
      → Frame b (sign_internal e key_index mech bytes b).1
  unfolding sign_internal
  sign_internal-Frame key_index mech bytes b = grind (
    arith,
    get_signer_by_slot-Frame service key_index b,
    with_retry_on_auth-Frame,
    after_sign_call-Frame,
  )
