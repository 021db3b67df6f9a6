-- ===== src/Mechanism/Digests.antt =====
-- The mechanisms that a slot offers, and the digests that are sent to be signed.
use infisical_pkcs.Base.{
  ℕ, ◌≡◌, refl, [], ◌∷◌, Option, none, some, Bytes, length, arith, if◌then◌else◌, bytes_eq,
}
use infisical_pkcs.Outcome.{ok}
use infisical_pkcs.Mechanism.Defs.{
  Asn1, DigestInfo, parse_digest_info, alg_rsa_pkcs1_sha256, alg_rsa_pkcs1_sha384,
}

-- The length of the digest that an algorithm of PKCS#1 v1.5 signs.
abbrev pub digest_length : Bytes → ℕ
digest_length alg =
    if bytes_eq alg alg_rsa_pkcs1_sha256
    then 32
    else if bytes_eq alg alg_rsa_pkcs1_sha384
    then 48
    else 64

-- What `parseDigestInfo` accepts has nothing behind it, and gives the digest that was decoded, with
-- the length that belongs to the algorithm that is sent: 32, 48 or 64 bytes for SHA-256, SHA-384 or
-- SHA-512. It accepts nothing that does not decode.
pub parse_digest_info_lem :
    (asn1 : Asn1) (bytes alg digest : Bytes)
    → parse_digest_info asn1 bytes ≡ ok (alg, digest)
    → (o : Option (DigestInfo × Bytes)) → asn1.unmarshal_digest_info bytes ≡ o
    → (di : DigestInfo) × (o ≡ some (di, []))
      × (digest ≡ di.digest)
      × (length digest ≡ digest_length alg)
unfolding parse_digest_info bytes_eq
parse_digest_info_lem asn1 bytes alg digest parsed none decoded =
    absurd (ground (arith, parsed, decoded))
parse_digest_info_lem asn1 bytes alg digest parsed (some (di, x ∷ rest)) decoded =
    absurd (ground (arith, parsed, decoded))
parse_digest_info_lem asn1 bytes alg digest parsed (some (di, [])) decoded =
    (di, refl, ground (arith, parsed, decoded), ground (arith, parsed, decoded))
