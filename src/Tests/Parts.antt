-- ===== src/Tests/Parts.antt =====
-- The theorems on the smaller parts at concrete inputs.
use infisical_pkcs.Base.{
  ◌≡◌, refl, ◌≢◌, true, ◌||◌, [], ◌∷◌, ◌*◌, Option, none, some, arith, if◌then◌else◌, to_lower,
  replicate, Bytes, text, bytes_eq, length,
}
use infisical_pkcs.Base.Int.{ltb_ℤ, ◌+ℤ◌, pos}
use infisical_pkcs.Errors.{sentinel, not_logged_in, map_error_to_rv}
use infisical_pkcs.Errors.Mapping.{map_error_to_rv_lem}
use infisical_pkcs.Outcome.{ok}
use infisical_pkcs.Constants.{ckr_ok}
use infisical_pkcs.Slots.{
  obj_private_key, make_private_key_handle, parse_object_handle, get, open_session,
  new_session_manager,
}
use infisical_pkcs.Slots.Handles.{parse-make}
use infisical_pkcs.Slots.Lookup.{get-open}
use infisical_pkcs.Slots.Sessions.{IsValid}
use infisical_pkcs.Cache.{get_cert, set_cert, new_cert_data_cache}
use infisical_pkcs.Cache.Freshness.{get-set_cert}
use infisical_pkcs.Config.{
  auth_method_universal_auth, check_duration, validate_scope_exclusions, auth_method_token,
  validate, days_duration, hour,
}
use infisical_pkcs.Config.Durations.{days_duration_lem}
use infisical_pkcs.Config.Validation.{validate_lem}
use infisical_pkcs.Mechanism.{Asn1, DigestInfo, parse_digest_info, alg_rsa_pkcs1_sha256, oid_sha256}
use infisical_pkcs.Mechanism.Digests.{parse_digest_info_lem, digest_length}
use infisical_pkcs.Scope.{SigningScope, exclude_fields}
use infisical_pkcs.Scope.Exclusions.{narrowed, exclude_fields_lem}
use infisical_pkcs.Tests.Demo.{demo_config, demo_library}

parse-make_example : parse_object_handle (make_private_key_handle 5) ≡ (obj_private_key, 5)
parse-make_example = (parse-make 5 (omega arith)).0

map_error_to_rv_lem_example : map_error_to_rv (λ s. s) (sentinel not_logged_in) ≢ ckr_ok
map_error_to_rv_lem_example = (map_error_to_rv_lem (λ s. s) (sentinel not_logged_in)).0

days_duration_lem_example : days_duration (pos 30) ≡ pos (30 * (24 * hour))
days_duration_lem_example = (days_duration_lem 30).0 (omega arith)

new_manager-IsValid : IsValid new_session_manager
unfolding new_session_manager
new_manager-IsValid = record { started = omega arith; entries = tt }

get-open_example : get (open_session 4 new_session_manager).0 new_session_manager ≡ none
get-open_example = (get-open 4 1 new_session_manager new_manager-IsValid).0

get-set_cert_example :
    get_cert
      (pos 5)
      (text "a")
      (set_cert (pos 3) (text "a") (1 ∷ []) (new_cert_data_cache (pos 10)))
    ≡ (if bytes_eq (text "a") (text "a")
        then (if ltb_ℤ (pos 3 +ℤ (new_cert_data_cache (pos 10)).ttl) (pos 5)
            then none
            else some (1 ∷ []))
        else get_cert (pos 5) (text "a") (new_cert_data_cache (pos 10)))
get-set_cert_example =
    get-set_cert (pos 3) (pos 5) (text "a") (text "a") (1 ∷ []) (new_cert_data_cache (pos 10))

validates : validate demo_library demo_config ≡ ok demo_config
unfolding validate to_lower bytes_eq check_duration validate_scope_exclusions
validates = refl

validate_lem_example :
    bytes_eq demo_config.auth.method auth_method_universal_auth
      || bytes_eq demo_config.auth.method auth_method_token
    ≡ true
validate_lem_example = (validate_lem demo_library demo_config demo_config validates).2

abbrev demo_asn1 : Asn1
demo_asn1 = record {
  unmarshal_digest_info = λ s. some (record { digest_algorithm = []; digest = s }, []);
  unmarshal_algorithm = λ s. some oid_sha256;
  marshal_oid = λ s. some s;
  marshal_octets = λ s. some s;
}

abbrev demo_digest : Bytes
demo_digest = replicate 32 1

abbrev demo_decoded : Option (DigestInfo × Bytes)
demo_decoded = some (record { digest_algorithm = []; digest = replicate 32 1 }, [])

parses : parse_digest_info demo_asn1 (replicate 32 1) ≡ ok (alg_rsa_pkcs1_sha256, replicate 32 1)
unfolding parse_digest_info bytes_eq
parses = refl

parse_digest_info_lem_example :
    (di : DigestInfo) × (demo_decoded ≡ some (di, []))
    × (demo_digest ≡ di.digest)
    × (length demo_digest ≡ digest_length alg_rsa_pkcs1_sha256)
parse_digest_info_lem_example =
    parse_digest_info_lem demo_asn1 (replicate 32 1) alg_rsa_pkcs1_sha256 (replicate 32 1) parses
      demo_decoded refl

abbrev demo_scope : SigningScope
demo_scope = record {
  command = text "sign app.exe";
  signing_application = text "sign";
  signing_application_hash = [];
  hostname = text "build-1";
  os_username = text "ci";
  ip_address = [];
  data_hash = text "00";
}

exclude_fields_lem_example :
    exclude_fields (text "hostname" ∷ text "ip_address" ∷ []) demo_scope
    ≡ narrowed (text "hostname" ∷ text "ip_address" ∷ []) demo_scope
exclude_fields_lem_example =
    exclude_fields_lem (text "hostname" ∷ text "ip_address" ∷ []) demo_scope
