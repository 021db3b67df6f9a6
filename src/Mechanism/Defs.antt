-- ===== src/Mechanism/Defs.antt =====
-- mechanism.go. `asn1.Unmarshal` is a parameter: it gives the two fields of a `DigestInfo` and the
-- bytes behind it, and the identifier of an algorithm.
use infisical_pkcs.Base.{
  ℕ, Bool, true, false, List, [], ◌∷◌, ◌||◌, Option, Bytes, text, length, bytes_eq, ◌==◌,
  if◌then◌else◌,
}
use infisical_pkcs.Constants.{
  ckm_rsa_pkcs, ckm_sha256_rsa_pkcs, ckm_sha384_rsa_pkcs, ckm_sha512_rsa_pkcs,
  ckm_sha256_rsa_pkcs_pss, ckm_sha384_rsa_pkcs_pss, ckm_sha512_rsa_pkcs_pss, ckm_ecdsa,
  ckm_ecdsa_sha256, ckm_ecdsa_sha384, ckm_ecdsa_sha512,
}
use infisical_pkcs.Errors.{plain}
use infisical_pkcs.Outcome.{Outcome, ok, err, ◌>>=◌, ◌>>◌, require, or_error}

abbrev pub alg_rsa_pkcs1_sha256 : Bytes
alg_rsa_pkcs1_sha256 = text "RSASSA_PKCS1_V1_5_SHA_256"

abbrev pub alg_rsa_pkcs1_sha384 : Bytes
alg_rsa_pkcs1_sha384 = text "RSASSA_PKCS1_V1_5_SHA_384"

abbrev pub alg_rsa_pkcs1_sha512 : Bytes
alg_rsa_pkcs1_sha512 = text "RSASSA_PKCS1_V1_5_SHA_512"

abbrev pub alg_rsa_pss_sha256 : Bytes
alg_rsa_pss_sha256 = text "RSASSA_PSS_SHA_256"

abbrev pub alg_rsa_pss_sha384 : Bytes
alg_rsa_pss_sha384 = text "RSASSA_PSS_SHA_384"

abbrev pub alg_rsa_pss_sha512 : Bytes
alg_rsa_pss_sha512 = text "RSASSA_PSS_SHA_512"

abbrev pub alg_ecdsa_sha256 : Bytes
alg_ecdsa_sha256 = text "ECDSA_SHA_256"

abbrev pub alg_ecdsa_sha384 : Bytes
alg_ecdsa_sha384 = text "ECDSA_SHA_384"

abbrev pub alg_ecdsa_sha512 : Bytes
alg_ecdsa_sha512 = text "ECDSA_SHA_512"

unfoldable pub mechanism_to_algorithm : ℕ → Outcome Bytes
mechanism_to_algorithm mech =
    if mech == ckm_sha256_rsa_pkcs
    then ok alg_rsa_pkcs1_sha256
    else if mech == ckm_sha384_rsa_pkcs
    then ok alg_rsa_pkcs1_sha384
    else if mech == ckm_sha512_rsa_pkcs
    then ok alg_rsa_pkcs1_sha512
    else if mech == ckm_sha256_rsa_pkcs_pss
    then ok alg_rsa_pss_sha256
    else if mech == ckm_sha384_rsa_pkcs_pss
    then ok alg_rsa_pss_sha384
    else if mech == ckm_sha512_rsa_pkcs_pss
    then ok alg_rsa_pss_sha512
    else if mech == ckm_ecdsa_sha256
    then ok alg_ecdsa_sha256
    else if mech == ckm_ecdsa_sha384
    then ok alg_ecdsa_sha384
    else if mech == ckm_ecdsa_sha512
    then ok alg_ecdsa_sha512
    else if mech == ckm_ecdsa
    then ok alg_ecdsa_sha256
    else if mech == ckm_rsa_pkcs
    then err (plain "CKM_RSA_PKCS requires DigestInfo parsing")
    else err (plain "unsupported mechanism")

pub record DigestInfo : Type 0 where
  -- `DigestAlgorithm.FullBytes`
  pub digest_algorithm : Bytes
  pub digest : Bytes

abbrev pub Oid : Type 0
Oid = List ℕ

abbrev pub oid_sha256 : Oid
oid_sha256 = 2 ∷ 16 ∷ 840 ∷ 1 ∷ 101 ∷ 3 ∷ 4 ∷ 2 ∷ 1 ∷ []

abbrev pub oid_sha384 : Oid
oid_sha384 = 2 ∷ 16 ∷ 840 ∷ 1 ∷ 101 ∷ 3 ∷ 4 ∷ 2 ∷ 2 ∷ []

abbrev pub oid_sha512 : Oid
oid_sha512 = 2 ∷ 16 ∷ 840 ∷ 1 ∷ 101 ∷ 3 ∷ 4 ∷ 2 ∷ 3 ∷ []

pub record Asn1 : Type 0 where
  -- `asn1.Unmarshal` into a `digestInfo`, with the bytes that remain
  pub unmarshal_digest_info : Bytes → Option (DigestInfo × Bytes)
  -- `asn1.Unmarshal` into an `algorithmIdentifier`
  pub unmarshal_algorithm : Bytes → Option Oid
  -- `asn1.Marshal` of an object identifier and of a byte slice
  pub marshal_oid : Oid → Option Bytes
  pub marshal_octets : Bytes → Option Bytes

abbrev is_nil : Bytes → Bool
is_nil [] = true
is_nil (x ∷ xs) = false

unfoldable pub parse_digest_info : Asn1 → Bytes → Outcome (Bytes × Bytes)
unfolding bytes_eq
parse_digest_info asn1 bytes = do
  (di, rest) ← or_error (asn1.unmarshal_digest_info bytes) (plain "failed to parse DigestInfo")
  require (is_nil rest) (plain "trailing data after DigestInfo")
  oid ←
      or_error (asn1.unmarshal_algorithm di.digest_algorithm)
        (plain "failed to parse AlgorithmIdentifier")
  if bytes_eq oid oid_sha256
      then (require (length di.digest == 32) (plain "SHA-256 DigestInfo has wrong digest length")
          >> ok (alg_rsa_pkcs1_sha256, di.digest))
      else if bytes_eq oid oid_sha384
      then (require (length di.digest == 48) (plain "SHA-384 DigestInfo has wrong digest length")
          >> ok (alg_rsa_pkcs1_sha384, di.digest))
      else if bytes_eq oid oid_sha512
      then (require (length di.digest == 64) (plain "SHA-512 DigestInfo has wrong digest length")
          >> ok (alg_rsa_pkcs1_sha512, di.digest))
      else err (plain "unsupported hash OID in DigestInfo")

unfoldable pub is_pss_mechanism : ℕ → Bool
is_pss_mechanism mech =
    mech == ckm_sha256_rsa_pkcs_pss
    || mech == ckm_sha384_rsa_pkcs_pss
    || mech == ckm_sha512_rsa_pkcs_pss

abbrev pub rsa_mechanisms : List ℕ
rsa_mechanisms =
    ckm_rsa_pkcs ∷ ckm_sha256_rsa_pkcs ∷ ckm_sha384_rsa_pkcs ∷ ckm_sha512_rsa_pkcs
    ∷ ckm_sha256_rsa_pkcs_pss ∷ ckm_sha384_rsa_pkcs_pss ∷ ckm_sha512_rsa_pkcs_pss ∷ []

abbrev pub ec_mechanisms : List ℕ
ec_mechanisms = ckm_ecdsa ∷ ckm_ecdsa_sha256 ∷ ckm_ecdsa_sha384 ∷ ckm_ecdsa_sha512 ∷ []
