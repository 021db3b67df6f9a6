-- ===== src/Tests/Auth.antt =====
-- The retry with a new token, at a concrete input.
use infisical_pkcs.Base.{
  none, ℕ, suc, ◌≡◌, ◌≤◌, ◌⊎◌, List, refl, true, false, [], ◌∷◌, Bytes, text, bytes_eq,
  if◌then◌else◌,
}
use infisical_pkcs.Config.{auth_method_universal_auth}
use infisical_pkcs.Errors.{GoError, api, as_api}
use infisical_pkcs.Outcome.{Outcome, ok, err}
use infisical_pkcs.Base.Int.{pos}
use infisical_pkcs.Client.{Service, responded}
use infisical_pkcs.Backend.State.{Backend}
use infisical_pkcs.Backend.Auth.{
  get_token, after_first_call, retry_with_new_token, is_unauthorized, has_config_credentials,
  with_retry_on_auth, authenticate, get_access_token,
}
use infisical_pkcs.Backend.Auth.Course.{Event, login, call, calls, logins, Course}
use infisical_pkcs.Backend.Auth.Requests.{with_retry_on_auth-Course}
use infisical_pkcs.Tests.Demo.{demo_service, demo_backend, demo_config}

-- The world is the log, and every login changes the token.
abbrev renewing_service : Service
renewing_service = record {
  World = List Event;
  clock = λ w. pos 0;
  execute = λ req w. (responded 200 [], w);
  universal_auth_login = λ client_id client_secret w. (none, login client_id client_secret ∷ w);
  access_token = λ w. logins w ∷ [];
  decode_signers = demo_service.decode_signers;
  decode_certificate = demo_service.decode_certificate;
  decode_signature = demo_service.decode_signature;
  decode_approval = demo_service.decode_approval;
  unmarshal_error = demo_service.unmarshal_error;
}

abbrev universal_backend : Backend (List Event)
universal_backend = record {
  initialized = true;
  sdk_ready = true;
  sessions = demo_backend.sessions;
  signer_cache = demo_backend.signer_cache;
  cert_cache = demo_backend.cert_cache;
  world = [];
  config = record demo_config {
    auth = record {
      method = auth_method_universal_auth;
      client_id = text "id";
      client_secret = text "secret";
      token = [];
    };
  };
}

abbrev expired : GoError
expired = api (record {
  status_code = 401;
  message = [];
  operation = text "sign";
  code = [];
  has_pending_request = false;
})

-- A call that accepts every token but the first.
abbrev picky : Bytes → List Event → Outcome Bytes × List Event
picky token w = (if bytes_eq token (0 ∷ []) then err expired else ok token, call token ∷ w)

static_state : (get_token demo_service demo_backend).1 ≡ demo_backend
unfolding get_token bytes_eq
static_state = refl

abbrev counting : Bytes → ℕ → Outcome Bytes × ℕ
counting token w = (ok token, suc w)

-- The 401 to the first token, the login, and the call with the second token.
abbrev after_retry : Outcome Bytes × Backend (List Event)
after_retry = (
  ok (1 ∷ []),
  record universal_backend {
    world = call (1 ∷ []) ∷ login (text "id") (text "secret") ∷ call (0 ∷ []) ∷ [];
  },
)

retried : with_retry_on_auth renewing_service picky universal_backend ≡ after_retry
unfolding with_retry_on_auth after_first_call retry_with_new_token get_token get_access_token
    authenticate has_config_credentials is_unauthorized as_api bytes_eq
retried = refl

with_retry_on_auth-Course_example :
    let (got, s) = get_token renewing_service universal_backend in
    let x = with_retry_on_auth renewing_service picky universal_backend in
    (s.config ≡ universal_backend.config)
    × ((s.world ≡ []) ⊎ (s.world ≡ login (text "id") (text "secret") ∷ []))
    × Course renewing_service picky (λ w. w) got s x
    × (calls x.1.world ≤ 2)
    × (logins x.1.world ≤ 2)
with_retry_on_auth-Course_example =
    with_retry_on_auth-Course renewing_service picky (λ w. w) (λ token w. refl)
      (λ client_id client_secret w. refl) universal_backend
