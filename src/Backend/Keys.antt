-- ===== src/Backend/Keys.antt =====
-- backend.go: the type of a key, and the certificate and public key of a signer, both cached.
use infisical_pkcs.Base.{
  ℕ, zero, suc, ◌+◌, ◌/◌, ◌%◌, ◌^◌, not, List, [], ◌∷◌, ◌++◌, Option, none, some, Bytes, text,
  is_empty, contains, bytes_eq, leb, if◌then◌else◌,
}
use infisical_pkcs.Errors.{plain}
use infisical_pkcs.Outcome.{Outcome, ok, err, panic, wrap_error}
use infisical_pkcs.Constants.{ckk_rsa, ckk_ec}
use infisical_pkcs.Config.{Library}
use infisical_pkcs.Mechanism.{rsa_mechanisms, ec_mechanisms, Oid}
use infisical_pkcs.Cache.{PubKeyEntry, get_cert, set_cert, get_pub_key, set_pub_key}
use infisical_pkcs.Client.{SignerResponse, key_algorithm, get_certificate}
use infisical_pkcs.Backend.State.{
  Env, Backend, Method, Certificate, PublicKey, rsa_key, ec_key, Curve, p256, p384, p521,
  other_curve, ◌>>=◌, ◌>>◌, pure, fail, lift, modify, require, or_fail,
}
use infisical_pkcs.Backend.Auth.{with_retry_on_auth}
use infisical_pkcs.Backend.Signers.{get_signer_by_slot, get_signer_by_signer_id}

unfoldable pub get_key_type : Library → SignerResponse → ℕ
get_key_type lib signer =
    let key_alg = key_algorithm lib.unicode_lower signer in
    if contains key_alg (text "rsa")
    then ckk_rsa
    else if contains key_alg (text "ec")
    then ckk_ec
    else ckk_rsa

unfoldable pub mechanisms_of : Library → SignerResponse → List ℕ
mechanisms_of lib signer =
    let key_alg = key_algorithm lib.unicode_lower signer in
    if contains key_alg (text "rsa")
    then rsa_mechanisms
    else if contains key_alg (text "ec")
    then ec_mechanisms
    else rsa_mechanisms ++ ec_mechanisms

pub record RsaKeyData : Type 0 where
  pub modulus : Bytes
  pub exponent : Bytes

pub record EcKeyData : Type 0 where
  pub ec_params : Bytes
  pub ec_point : Bytes

abbrev pub oid_p256 : Oid
oid_p256 = 1 ∷ 2 ∷ 840 ∷ 10045 ∷ 3 ∷ 1 ∷ 7 ∷ []

abbrev pub oid_p384 : Oid
oid_p384 = 1 ∷ 3 ∷ 132 ∷ 0 ∷ 34 ∷ []

abbrev pub oid_p521 : Oid
oid_p521 = 1 ∷ 3 ∷ 132 ∷ 0 ∷ 35 ∷ []

-- The identifier of a supported curve, and its size in bits.
abbrev curve_info : Curve → Option (Oid × ℕ)
curve_info p256 = some (oid_p256, 256)
curve_info p384 = some (oid_p384, 384)
curve_info p521 = some (oid_p521, 521)
curve_info other_curve = none

-- The `n` lowest bytes of a number, the highest of them first.
unfoldable pub big_endian : ℕ → ℕ → Bytes
big_endian zero x = []
big_endian (suc n) x = big_endian n (x / 256) ++ (x % 256) ∷ []

-- `x.FillBytes` into a buffer of `n` bytes, which panics if the number does not fit.
unfoldable pub fill_bytes : ℕ → ℕ → Outcome Bytes
fill_bytes n x = if leb (256 ^ n) x then panic else ok (big_endian n x)

module _ (e : Env) where
  open e use {service, library, crypto, asn1}

  abbrev State : Type 0
  State = Backend service.World

  unfoldable pub fetch_certificate : Bytes → Method service.World Bytes
  fetch_certificate signer_id = do
    signer ← (λ b.
        let (r, b') = get_signer_by_signer_id service signer_id b in
        (wrap_error "failed to resolve signer for certificate" r, b'))
    require (not (is_empty signer.certificate_id)) (plain "signer has no certificate")
    pem ← with_retry_on_auth service (λ token. get_certificate service token signer.id)
    der ← or_fail (crypto.pem_decode pem) (plain "failed to decode PEM certificate from API")
    modify
        (λ b. record b { cert_cache = set_cert (service.clock b.world) signer_id der b.cert_cache })
    pure der

  unfoldable pub get_certificate_data : Bytes → Method service.World Bytes
  get_certificate_data signer_id b =
      elim (get_cert (service.clock b.world) signer_id b.cert_cache) [
        | some der ↦ (ok der, b)
        | none ↦ fetch_certificate signer_id b
      ]

  unfoldable pub store_pub_key : Bytes → PubKeyEntry → State → State
  store_pub_key signer_id pk b = record b {
    cert_cache = set_pub_key (service.clock b.world) signer_id pk b.cert_cache;
  }

  unfoldable pub parsed_certificate : Bytes → Method service.World Certificate
  parsed_certificate signer_id = do
    der ← get_certificate_data signer_id
    or_fail (crypto.parse_certificate der) (plain "failed to parse certificate")

  abbrev cached_pub_key : Bytes → State → Option PubKeyEntry
  cached_pub_key signer_id b = get_pub_key (service.clock b.world) signer_id b.cert_cache

  abbrev rsa_of : PublicKey → Outcome RsaKeyData
  rsa_of (rsa_key n x) = ok (record { modulus = n; exponent = x })
  rsa_of _ = err (plain "certificate does not contain an RSA public key")

  unfoldable pub read_rsa_key : Bytes → Method service.World RsaKeyData
  read_rsa_key signer_id = do
    cert ← parsed_certificate signer_id
    found ← lift (rsa_of cert.public_key)
    modify (
        store_pub_key signer_id (record {
          public_key_der = found.modulus;
          exponent = found.exponent;
          ec_params = [];
          ec_point = [];
          algorithm = text "RSA";
        }))
    pure found

  unfoldable pub get_public_key_data : Bytes → Method service.World RsaKeyData
  get_public_key_data signer_id b = elim (cached_pub_key signer_id b) [
    | some pk ↦ (ok (record { modulus = pk.public_key_der; exponent = pk.exponent }), b)
    | none ↦ read_rsa_key signer_id b
  ]

  -- The point as `0x04 || X || Y`, each coordinate in as many bytes as the curve's size.
  unfoldable pub ec_point_bytes : ℕ → ℕ → ℕ → Outcome Bytes
  ec_point_bytes bits x y =
      let n = (bits + 7) / 8 in
      elim (fill_bytes n x) [
        | ok xs ↦ elim (fill_bytes n y) [
          | ok ys ↦ ok (0x04 ∷ xs ++ ys)
          | err z ↦ err z
          | panic ↦ panic
        ]
        | err z ↦ err z
        | panic ↦ panic
      ]

  unfoldable pub ec_of : PublicKey → Method service.World EcKeyData
  ec_of (ec_key curve x y) = do
    (oid, bits) ← or_fail (curve_info curve) (plain "unsupported EC curve")
    params ← or_fail (asn1.marshal_oid oid) (plain "failed to marshal EC params")
    point ← lift (ec_point_bytes bits x y)
    der ← or_fail (asn1.marshal_octets point) (plain "failed to marshal EC point")
    pure (record { ec_params = params; ec_point = der })
  ec_of _ = fail (plain "certificate does not contain an EC public key")

  unfoldable pub read_ec_key : Bytes → Method service.World EcKeyData
  read_ec_key signer_id = do
    cert ← parsed_certificate signer_id
    found ← ec_of cert.public_key
    modify (
        store_pub_key signer_id (record {
          public_key_der = [];
          exponent = [];
          ec_params = found.ec_params;
          ec_point = found.ec_point;
          algorithm = text "EC";
        }))
    pure found

  unfoldable pub get_ec_public_key_data : Bytes → Method service.World EcKeyData
  get_ec_public_key_data signer_id b = elim (cached_pub_key signer_id b) [
    | some pk ↦
        if bytes_eq pk.algorithm (text "EC")
        then (ok (record { ec_params = pk.ec_params; ec_point = pk.ec_point }), b)
        else read_ec_key signer_id b
    | none ↦ read_ec_key signer_id b
  ]

  unfoldable pub get_mechanism_list : ℕ → Method service.World (List ℕ)
  get_mechanism_list slot = do
    signer ← get_signer_by_slot service slot
    pure (mechanisms_of library signer)
