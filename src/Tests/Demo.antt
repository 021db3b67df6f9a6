-- ===== src/Tests/Demo.antt =====
-- A service that answers every call, in a world that counts them, and a backend with one session
-- that is about to sign.
use infisical_pkcs.Base.{ℕ, suc, true, false, [], ◌∷◌, none, some, Bytes, text, if◌then◌else◌}
use infisical_pkcs.Base.Int.{pos}
use infisical_pkcs.Config.{Config, Library, auth_method_token}
use infisical_pkcs.Slots.{Session}
use infisical_pkcs.Constants.{ckm_ecdsa}
use infisical_pkcs.Client.{Service, SignerResponse, responded}
use infisical_pkcs.Backend.State.{Env, Backend, Crypto}

abbrev pub demo_signer : SignerResponse
demo_signer = record {
  id = text "s-1";
  name = text "release";
  status = text "active";
  certificate_id = text "c-1";
  key_algorithm_name = text "EC_prime256v1";
  approval_policy_id = none;
}

abbrev pub demo_signature : Bytes
demo_signature = 7 ∷ 8 ∷ 9 ∷ []

abbrev pub demo_service : Service
demo_service = record {
  World = ℕ;
  clock = λ w. pos 0;
  execute = λ req w. (responded 200 [], suc w);
  universal_auth_login = λ client_id client_secret w. (none, w);
  access_token = λ w. text "fresh";
  decode_signers = λ raw. demo_signer ∷ [];
  decode_certificate = λ raw. raw;
  decode_signature = λ raw. demo_signature;
  decode_approval = λ raw. record { id = raw; status = raw };
  unmarshal_error =
      λ raw. (false, record { message = []; error = []; has_pending_request = false });
}

abbrev pub demo_library : Library
demo_library = record {
  unicode_lower = λ s. s;
  parse_url = λ s. some (record { scheme = text "https"; host = s });
  is_ip = λ s. true;
  parse_duration = λ s. some (pos 3_600_000_000_000);
}

abbrev pub demo_crypto : Crypto
demo_crypto = record {
  sha256 = λ s. s;
  sha384 = λ s. s;
  sha512 = λ s. s;
  base64_encode = λ s. s;
  base64_decode = λ s. some s;
  hex_encode = λ s. s;
  marshal_text = λ s. some s;
  pem_decode = λ s. some s;
  parse_certificate = λ s. none;
  accepts_ca = λ s. true;
}

abbrev pub demo_env : Env
demo_env = record {
  service = demo_service;
  library = demo_library;
  host = record {
    goos = text "linux";
    getenv = λ name. [];
    read_file = λ path. none;
    unmarshal_config = λ s. none;
  };
  asn1 = record {
    unmarshal_digest_info = λ s. none;
    unmarshal_algorithm = λ s. none;
    marshal_oid = λ s. some s;
    marshal_octets = λ s. some s;
  };
  crypto = demo_crypto;
  context = record {
    command = text "sign app.exe";
    application = text "sign";
    application_hash = [];
    hostname = text "build-1";
    os_username = text "ci";
  };
  bool_value = λ b. (if b then 1 else 0) ∷ [];
  uint_value = λ n. n ∷ [];
}

abbrev pub demo_config : Config
demo_config = record {
  server_url = text "https://app.infisical.com";
  auth = record {
    method = auth_method_token;
    client_id = [];
    client_secret = [];
    token = text "t";
  };
  tls = record { ca_cert_path = []; skip_verify = false };
  cache = record {
    token_ttl_seconds = pos 300;
    cert_ttl_seconds = pos 3600;
    signer_ttl_seconds = pos 300;
  };
  approval = record {
    signing_count = pos 0;
    signing_duration = [];
    exclude_scope_fields = [];
    ip_address = [];
  };
  log_level = text "info";
  log_file = [];
}

-- Logged in on slot 0, with an active signing operation that has buffered nothing, and a search
-- that has given out one of its three results.
abbrev pub demo_session : Session
demo_session = record {
  slot_id = 0;
  logged_in = true;
  sign_active = true;
  sign_mech = ckm_ecdsa;
  sign_key_index = 0;
  sign_buffer = [];
  cached_signature = none;
  find_active = true;
  find_template = [];
  find_results = 0x10000000 ∷ 0x30000000 ∷ 0x20000000 ∷ [];
  find_pos = 1;
}

abbrev pub demo_backend : Backend ℕ
demo_backend = record {
  initialized = true;
  config = demo_config;
  sdk_ready = false;
  sessions = record { sessions = (1, demo_session) ∷ []; next_id = 2 };
  signer_cache = record { ttl = pos 300_000_000_000; entry = none };
  cert_cache = record { ttl = pos 3_600_000_000_000; pub_keys = []; certs = [] };
  world = 0;
}
