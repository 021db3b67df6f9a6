-- ===== src/Tests/Denial.antt =====
-- A denied signature and a login, at concrete inputs.
use infisical_pkcs.Base.{ℕ, suc, ◌≡◌, refl, true, false, [], ◌∷◌, some, text, bytes_eq}
use infisical_pkcs.Base.Map.{lookup}
use infisical_pkcs.Base.Int.{pos}
use infisical_pkcs.Errors.{ApiError, api, as_api}
use infisical_pkcs.Outcome.{ok, err}
use infisical_pkcs.Constants.{ckm_ecdsa}
use infisical_pkcs.Slots.{get, set_for_slot}
use infisical_pkcs.Cache.{get_signer_cache, is_expired}
use infisical_pkcs.Client.{Service, responded, call_api, new_api_error, sign, decimal, decimal_from}
use infisical_pkcs.Backend.State.{Env, Backend}
use infisical_pkcs.Backend.Auth.{get_token, is_unauthorized, with_retry_on_auth, after_first_call}
use infisical_pkcs.Backend.Signers.{get_signers, get_signer_by_slot}
use infisical_pkcs.Backend.Login.{login}
use infisical_pkcs.Backend.Login.Unlock.{login_unlocks_slot}
use infisical_pkcs.Backend.Signing.{Payload, make_payload, sign_internal}
use infisical_pkcs.Backend.Signing.Denial.{sign_call, denied_sign_call}
use infisical_pkcs.Tests.Demo.{demo_env, demo_service, demo_backend, demo_session, demo_signer}

-- A service that forbids everything.
abbrev denying_service : Service
denying_service = record demo_service { execute = λ req w. (responded 403 [], suc w) }

abbrev denying_env : Env
denying_env = record demo_env { service = denying_service }

abbrev cached_backend : Backend ℕ
cached_backend = record demo_backend {
  signer_cache = record {
    ttl = pos 300;
    entry = some (record { value = demo_signer ∷ []; expires_at = pos 9 });
  };
}

abbrev forbidden : ApiError
forbidden = record {
  status_code = 403;
  message = text "HTTP 403";
  operation = text "sign";
  code = [];
  has_pending_request = false;
}

abbrev five : Payload
five = record { algorithm = text "ECDSA_SHA_256"; sign_data = 5 ∷ []; is_digest = true }

finds_signer : (get_signer_by_slot denying_service 0 cached_backend).0 ≡ ok demo_signer
unfolding get_signer_by_slot get_signers get_signer_cache is_expired
finds_signer = refl

makes_five : make_payload denying_env.asn1 denying_env.crypto ckm_ecdsa (5 ∷ []) ≡ ok five
unfolding make_payload
makes_five = refl

is_denied :
    (sign_call denying_env demo_signer five
      (get_signer_by_slot denying_service 0 cached_backend).1).0
    ≡ err (api forbidden)
unfolding get_signer_by_slot get_signers get_signer_cache is_expired with_retry_on_auth get_token
    bytes_eq sign call_api after_first_call is_unauthorized as_api new_api_error decimal
    decimal_from
is_denied = refl

forbidden_api : as_api (api forbidden) ≡ some forbidden
unfolding as_api
forbidden_api = refl

denied_sign_call_example :
    (sign_internal denying_env 0 ckm_ecdsa (5 ∷ []) cached_backend).0 ≡ err (api forbidden)
denied_sign_call_example =
    (denied_sign_call denying_env 0 ckm_ecdsa (5 ∷ []) cached_backend demo_signer finds_signer five
      makes_five (api forbidden) forbidden forbidden_api is_denied).0

demo_there : get 1 demo_backend.sessions ≡ some demo_session
unfolding get lookup
demo_there = refl

login_unlocks_slot_example :
    let (r, b') = login demo_service 1 (text "tok") demo_backend in
    get 1 b'.sessions ≡ some (elim r [ ok _ ↦ set_for_slot 0 true demo_session | _ ↦ demo_session ])
login_unlocks_slot_example =
    login_unlocks_slot demo_service 1 demo_session demo_backend demo_there 1 demo_session demo_there
      (text "tok")
