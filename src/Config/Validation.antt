-- ===== src/Config/Validation.antt =====
-- What a configuration satisfies that `validate` accepts.
use infisical_pkcs.Base.{
  ◌≡◌, refl, sym, true, false, ◌||◌, Bytes, List, [], ◌∷◌, arith, bytes_eq, contains_text, All,
  is_empty, Option, none, some, text, to_lower,
}
use infisical_pkcs.Base.Int.{ℤ, pos, ltb_ℤ}
use infisical_pkcs.Outcome.{Outcome, ok, err, panic}
use infisical_pkcs.Config.Defs.{
  Library, Config, Url, validate, check_duration, parse_duration, validate_scope_exclusions,
  scope_field_names, in_duration_bounds, inferred_method, auth_method_universal_auth,
  auth_method_token,
}

validate_scope_exclusions-All :
    (names : List Bytes)
    → validate_scope_exclusions names ≡ ok tt
    → All (λ name. contains_text scope_field_names name ≡ true) names
unfolding validate_scope_exclusions
validate_scope_exclusions-All [] accepted = tt
validate_scope_exclusions-All (name ∷ names) accepted =
    (ground (arith, accepted), validate_scope_exclusions-All names (ground (arith, accepted)))

-- A signing duration that is accepted is one that `parseDuration` reads, between a minute and 30
-- days.
check_duration_lem :
    (lib : Library) (s : Bytes)
    → check_duration lib s ≡ ok tt
    → is_empty s ≡ false
    → (o : Outcome ℤ) → parse_duration lib s ≡ o
    → (d : ℤ) × (o ≡ ok d) × (in_duration_bounds d ≡ true)
unfolding check_duration
check_duration_lem lib s accepted given (ok d) parsed =
    (d, refl, ground (arith, accepted, given, parsed))
check_duration_lem lib s accepted given (err e) parsed =
    absurd (ground (arith, accepted, given, parsed))
check_duration_lem lib s accepted given panic parsed =
    absurd (ground (arith, accepted, given, parsed))

validate_method :
    (lib : Library) (c c' : Config)
    → validate lib c ≡ ok c'
    → (m : Bytes) → inferred_method c.auth ≡ m
    → (c'.auth.method ≡ m)
      × (bytes_eq m auth_method_universal_auth || bytes_eq m auth_method_token ≡ true)
unfolding validate
validate_method lib c c' accepted m settled =
    (ground (arith, accepted, settled), ground (arith, accepted, settled))

only_method_changes :
    (lib : Library) (c c' : Config)
    → validate lib c ≡ ok c'
    → c' ≡ record c { auth = record c.auth { method = inferred_method c.auth } }
unfolding validate
only_method_changes lib c c' accepted = ground (arith, accepted)

server_url_lem :
    (lib : Library) (c c' : Config)
    → validate lib c ≡ ok c'
    → (parsed : Option Url) → lib.parse_url c.server_url ≡ parsed
    → (url : Url) × (parsed ≡ some url)
      × (is_empty url.host ≡ false)
      × (let scheme = to_lower lib.unicode_lower url.scheme in
          bytes_eq scheme (text "http") || bytes_eq scheme (text "https") ≡ true)
unfolding validate
server_url_lem lib c c' accepted none read = absurd (ground (arith, accepted, read))
server_url_lem lib c c' accepted (some url) read =
    (url, refl, ground (arith, accepted, read), ground (arith, accepted, read))

-- What `validate` accepts has a server address that is a URL with the scheme http or https and a
-- host, one of the two authentication methods (that of the configuration, or the one inferred where
-- it names none), a signing count that is not negative, only known scope fields, and, where it gives
-- them, a signing duration between a minute and 30 days as `parseDuration` reads it and an address
-- that is an IP address. `validate` changes nothing of the configuration but the method.
pub validate_lem :
    (lib : Library) (c c' : Config)
    → validate lib c ≡ ok c'
    → (is_empty c.server_url ≡ false)
      × (c'.auth.method ≡ inferred_method c.auth)
      × (bytes_eq c'.auth.method auth_method_universal_auth
            || bytes_eq c'.auth.method auth_method_token
          ≡ true)
      × (c'.approval ≡ c.approval)
      × (c'.cache ≡ c.cache)
      × (ltb_ℤ c.approval.signing_count (pos 0) ≡ false)
      × All (λ name. contains_text scope_field_names name ≡ true) c.approval.exclude_scope_fields
      × (is_empty c.approval.signing_duration ≡ false
          → (d : ℤ) × (parse_duration lib c.approval.signing_duration ≡ ok d)
            × (in_duration_bounds d ≡ true))
      × (is_empty c.approval.ip_address ≡ false → lib.is_ip c.approval.ip_address ≡ true)
      × (c' ≡ record c { auth = record c.auth { method = inferred_method c.auth } })
      × ((url : Url) × (lib.parse_url c.server_url ≡ some url)
          × (is_empty url.host ≡ false)
          × (let scheme = to_lower lib.unicode_lower url.scheme in
              bytes_eq scheme (text "http") || bytes_eq scheme (text "https") ≡ true))
unfolding validate
validate_lem lib c c' accepted =
    let method = validate_method lib c c' accepted (inferred_method c.auth) refl in
    (
      ground (arith, accepted),
      method.0,
      rw (sym method.0) at method.1,
      ground (arith, accepted),
      ground (arith, accepted),
      ground (arith, accepted),
      validate_scope_exclusions-All c.approval.exclude_scope_fields (ground (arith, accepted)),
      λ given.
          check_duration_lem lib c.approval.signing_duration (ground (arith, accepted)) given
            (parse_duration lib c.approval.signing_duration) refl,
      λ named. ground (arith, accepted),
      only_method_changes lib c c' accepted,
      server_url_lem lib c c' accepted (lib.parse_url c.server_url) refl,
    )
