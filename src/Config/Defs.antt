-- ===== src/Config/Defs.antt =====
-- config.go. The packages `net/url`, `net`, `encoding/json`, `os` and `time.ParseDuration` are
-- parameters (`Library`); `strings` and `strconv.Atoi` are written out.
use infisical_pkcs.Base.{
  ℕ, ◌+◌, ◌-◌, ◌*◌, ◌^◌, Bool, true, false, not, ◌&&◌, ◌||◌, List, [], ◌∷◌, ◌++◌, Option, none,
  some, Bytes, text, is_empty, bytes_eq, has_suffix, trim_suffix, to_lower, contains_text, ltb, leb,
  ◌==◌, if◌then◌else◌,
}
use infisical_pkcs.Base.Int.{ℤ, pos, negsuc, ltb_ℤ, is_zero_ℤ, mul_64}
use infisical_pkcs.Errors.{plain}
use infisical_pkcs.Outcome.{Outcome, ok, err, ◌>>=◌, ◌>>◌, require, or_error, wrap_error}

pub record TlsConfig : Type 0 where
  pub ca_cert_path : Bytes
  pub skip_verify : Bool

pub record CacheConfig : Type 0 where
  pub token_ttl_seconds : ℤ
  pub cert_ttl_seconds : ℤ
  pub signer_ttl_seconds : ℤ

pub record AuthConfig : Type 0 where
  pub method : Bytes
  pub client_id : Bytes
  pub client_secret : Bytes
  pub token : Bytes

pub record ApprovalConfig : Type 0 where
  pub signing_count : ℤ
  pub signing_duration : Bytes
  pub exclude_scope_fields : List Bytes
  pub ip_address : Bytes

pub record Config : Type 0 where
  pub server_url : Bytes
  pub auth : AuthConfig
  pub tls : TlsConfig
  pub cache : CacheConfig
  pub approval : ApprovalConfig
  pub log_level : Bytes
  pub log_file : Bytes

abbrev pub auth_method_universal_auth : Bytes
auth_method_universal_auth = text "universal-auth"

abbrev pub auth_method_token : Bytes
auth_method_token = text "token"

pub record Url : Type 0 where
  pub scheme : Bytes
  pub host : Bytes

-- What the code takes from packages that are not part of it.
pub record Library : Type 0 where
  -- `strings.ToLower` of a text that is not ASCII
  pub unicode_lower : Bytes → Bytes
  -- `url.Parse`
  pub parse_url : Bytes → Option Url
  -- `net.ParseIP(s) != nil`
  pub is_ip : Bytes → Bool
  -- `time.ParseDuration`, in nanoseconds
  pub parse_duration : Bytes → Option ℤ

abbrev or_default : ℤ → ℤ → ℤ
or_default n d = if is_zero_ℤ n then d else n

unfoldable pub set_defaults : Config → Config
set_defaults c = record c {
  cache = record {
    token_ttl_seconds = or_default c.cache.token_ttl_seconds (pos 300);
    cert_ttl_seconds = or_default c.cache.cert_ttl_seconds (pos 3600);
    signer_ttl_seconds = or_default c.cache.signer_ttl_seconds (pos 300);
  };
  log_level = if is_empty c.log_level then text "info" else c.log_level;
}

-- `if v := os.Getenv(name); v != "" { field = v }`
abbrev override : Bytes → Bytes → Bytes
override v field = if is_empty v then field else v

-- `getenv` is `os.Getenv`.
unfoldable pub apply_env_overrides : (getenv : Bytes → Bytes) → Config → Config
apply_env_overrides getenv c =
    let token = getenv (text "INFISICAL_TOKEN") in
    record c {
      server_url = override (getenv (text "INFISICAL_SERVER_URL")) c.server_url;
      auth = record {
        method = if is_empty token then c.auth.method else auth_method_token;
        client_id = override (getenv (text "INFISICAL_UNIVERSAL_AUTH_CLIENT_ID")) c.auth.client_id;
        client_secret =
            override (getenv (text "INFISICAL_UNIVERSAL_AUTH_CLIENT_SECRET")) c.auth.client_secret;
        token = override token c.auth.token;
      };
    }

-- The digits of `strconv.Atoi`: none for another character.
unfoldable pub digits_value : ℕ → Bytes → Option ℕ
digits_value acc [] = some acc
digits_value acc (c ∷ cs) =
    let rest = digits_value (acc * 10 + (c - b'0')) cs in
    if leb b'0' c && leb c b'9' then rest else none

abbrev non_empty_digits : Bytes → Option ℕ
non_empty_digits [] = none
non_empty_digits (c ∷ cs) = digits_value 0 (c ∷ cs)

-- A magnitude as a 64-bit `int`, or the range error.
abbrev in_range : Bool → ℕ → Option ℤ
in_range true n =
    if n == 0 then some (pos 0) else if leb n (2 ^ 63) then some (negsuc (n - 1)) else none
in_range false n = if ltb n (2 ^ 63) then some (pos n) else none

abbrev signed : Bool → Option ℕ → Option ℤ
signed negative none = none
signed negative (some n) = in_range negative n

-- `strconv.Atoi`
unfoldable pub atoi : Bytes → Option ℤ
unfolding digits_value
atoi [] = none
atoi (c ∷ cs) =
    if c == b'-'
    then signed true (non_empty_digits cs)
    else if c == b'+'
    then signed false (non_empty_digits cs)
    else signed false (non_empty_digits (c ∷ cs))

-- Nanoseconds.
abbrev pub minute : ℕ
minute = 60 * 1_000_000_000

abbrev pub hour : ℕ
hour = 60 * minute

-- `time.Duration(days) * 24 * time.Hour`, in int64 arithmetic.
unfoldable pub days_duration : ℤ → ℤ
unfolding mul_64
days_duration days = mul_64 (mul_64 days 24) hour

abbrev days_or_error : Option ℤ → Outcome ℤ
days_or_error none = err (plain "invalid duration")
days_or_error (some days) = ok (days_duration days)

unfoldable pub parse_duration : Library → Bytes → Outcome ℤ
unfolding has_suffix trim_suffix atoi days_duration
parse_duration lib s =
    if has_suffix s (text "d")
    then days_or_error (atoi (trim_suffix s (text "d")))
    else or_error (lib.parse_duration s) (plain "time: invalid duration")

abbrev pub scope_field_names : List Bytes
scope_field_names =
    text "command"
    ∷ text "signing_application"
    ∷ text "signing_application_hash"
    ∷ text "hostname"
    ∷ text "os_username"
    ∷ text "ip_address"
    ∷ text "data_hash"
    ∷ []

-- signing_context.go
unfoldable pub validate_scope_exclusions : List Bytes → Outcome (Unit {0})
unfolding bytes_eq
validate_scope_exclusions [] = ok tt
validate_scope_exclusions (name ∷ names) = elim (contains_text scope_field_names name) [
  | true ↦ validate_scope_exclusions names
  | false ↦ err (plain "unknown scope field")
]

-- The method that `validate` settles on.
abbrev pub inferred_method : AuthConfig → Bytes
inferred_method a =
    if is_empty a.method
    then (if is_empty a.token then auth_method_universal_auth else auth_method_token)
    else a.method

abbrev pub in_duration_bounds : ℤ → Bool
in_duration_bounds d = not (ltb_ℤ d (pos minute) || ltb_ℤ (pos (30 * 24 * hour)) d)

-- The check of `approval.signing_duration`.
unfoldable pub check_duration : Library → Bytes → Outcome (Unit {0})
unfolding parse_duration
check_duration lib s =
    if is_empty s
    then ok tt
    else (wrap_error "invalid approval.signing_duration" (parse_duration lib s) >>= λ d.
        require (in_duration_bounds d)
          (plain "approval.signing_duration must be between 1m and 30d"))

-- `validate` sets the authentication method of the configuration that it is given.
unfoldable pub validate : Library → Config → Outcome Config
unfolding to_lower bytes_eq check_duration validate_scope_exclusions
validate lib c = do
  require (not (is_empty c.server_url)) (plain "server_url is required")
  url ← or_error (lib.parse_url c.server_url) (plain "server_url is not a valid URL")
  let scheme = to_lower lib.unicode_lower url.scheme
  require (bytes_eq scheme (text "http") || bytes_eq scheme (text "https"))
      (plain "server_url scheme must be http or https")
  require (not (is_empty url.host)) (plain "server_url must include a host")
  let method = inferred_method c.auth
  require (bytes_eq method auth_method_universal_auth || bytes_eq method auth_method_token)
      (plain "unsupported auth method")
  check_duration lib c.approval.signing_duration
  require (not (ltb_ℤ c.approval.signing_count (pos 0)))
      (plain "approval.signing_count must be a positive integer")
  wrap_error "invalid approval.exclude_scope_fields"
      (validate_scope_exclusions c.approval.exclude_scope_fields)
  require (is_empty c.approval.ip_address || lib.is_ip c.approval.ip_address)
      (plain "approval.ip_address must be an IP address")
  ok (record c {
    auth = record {
      method = method;
      client_id = c.auth.client_id;
      client_secret = c.auth.client_secret;
      token = c.auth.token;
    };
  })

unfoldable pub default_config_path_for : Bytes → Bytes → Bytes
unfolding bytes_eq
default_config_path_for goos program_data =
    if not (bytes_eq goos (text "windows"))
    then text "/etc/infisical/pkcs11.conf"
    else (if is_empty program_data then text "C:\\ProgramData" else program_data)
      ++ text "\\Infisical\\pkcs11.conf"

-- What `loadConfig` reads of the machine that it runs on.
pub record Host : Type 0 where
  pub goos : Bytes
  pub getenv : Bytes → Bytes
  -- `os.ReadFile`
  pub read_file : Bytes → Option Bytes
  -- `json.Unmarshal` into a `Config`
  pub unmarshal_config : Bytes → Option Config

-- The warning on the permissions of the file is output only.
unfoldable pub load_config : Library → Host → Outcome Config
unfolding default_config_path_for set_defaults apply_env_overrides validate
load_config lib host = do
  let named = host.getenv (text "INFISICAL_CONFIG")
  let path =
      if is_empty named
      then default_config_path_for host.goos (host.getenv (text "ProgramData"))
      else named
  contents ← or_error (host.read_file path) (plain "failed to read config file")
  parsed ← or_error (host.unmarshal_config contents) (plain "failed to parse config file")
  wrap_error "invalid config" (validate lib (apply_env_overrides host.getenv (set_defaults parsed)))
