-- ===== src/Backend/Signing/Payloads.antt =====
-- What is sent to be signed belongs to the algorithm that is named with it.
use infisical_pkcs.Base.{
  ℕ, ◌≡◌, ◌≢◌, ◌⊎◌, not, refl, true, false, [], ◌∷◌, ◌||◌, Option, none, some, Bytes, length, arith,
  if◌then◌else◌, bytes_eq, ◌==◌, Bool-cases, inl, inr,
}
use infisical_pkcs.Outcome.{Outcome, ok, err, panic}
use infisical_pkcs.Constants.{ckm_rsa_pkcs, ckm_ecdsa}
use infisical_pkcs.Mechanism.{
  Asn1, DigestInfo, parse_digest_info, mechanism_to_algorithm, is_pss_mechanism,
  alg_rsa_pkcs1_sha256, alg_rsa_pkcs1_sha384, alg_rsa_pss_sha256, alg_rsa_pss_sha384,
  alg_ecdsa_sha256, alg_ecdsa_sha384, alg_ecdsa_sha512,
}
use infisical_pkcs.Backend.State.{Crypto}
use infisical_pkcs.Backend.Signing.{Payload, hash_data_for_mechanism, make_payload}

-- The length of the digests of an algorithm: 32 for SHA-256, 48 for SHA-384 and 64 for SHA-512.
abbrev pub hash_length : Bytes → ℕ
hash_length alg =
    if bytes_eq alg alg_rsa_pkcs1_sha256
      || bytes_eq alg alg_rsa_pss_sha256
      || bytes_eq alg alg_ecdsa_sha256
    then 32
    else if bytes_eq alg alg_rsa_pkcs1_sha384
        || bytes_eq alg alg_rsa_pss_sha384
        || bytes_eq alg alg_ecdsa_sha384
    then 48
    else 64

-- The three hashes give digests of their lengths.
pub record HasLengths (c : Crypto) : Type 0 where
  pub sha256_length : (s : Bytes) → length (c.sha256 s) ≡ 32
  pub sha384_length : (s : Bytes) → length (c.sha384 s) ≡ 48
  pub sha512_length : (s : Bytes) → length (c.sha512 s) ≡ 64

hash_lem :
    (c : Crypto) (mech : ℕ) (bytes alg : Bytes)
    → HasLengths c
    → mech ≢ ckm_ecdsa
    → mechanism_to_algorithm mech ≡ ok alg
    → length (hash_data_for_mechanism c mech bytes) ≡ hash_length alg
unfolding mechanism_to_algorithm hash_data_for_mechanism bytes_eq
hash_lem c mech bytes alg h other named =
    ground
      (arith, named, other, h.sha256_length bytes, h.sha384_length bytes, h.sha512_length bytes)

digest_lem :
    (asn1 : Asn1) (bytes alg digest : Bytes) (o : Option (DigestInfo × Bytes))
    → parse_digest_info asn1 bytes ≡ ok (alg, digest)
    → asn1.unmarshal_digest_info bytes ≡ o
    → length digest ≡ hash_length alg
unfolding parse_digest_info bytes_eq
digest_lem asn1 bytes alg digest none parsed decoded = absurd (ground (arith, parsed, decoded))
digest_lem asn1 bytes alg digest (some (di, x ∷ rest)) parsed decoded =
    absurd (ground (arith, parsed, decoded))
digest_lem asn1 bytes alg digest (some (di, [])) parsed decoded = ground (arith, parsed, decoded)

-- What the service is told of the bytes: the message itself, or a digest of the length that belongs to
-- the algorithm.
abbrev pub IsDescribed : Bytes → Payload → Type 0
IsDescribed bytes p = elim p.is_digest [
  | true ↦ length p.sign_data ≡ hash_length p.algorithm
  | false ↦ p.sign_data ≡ bytes
]

module _ (asn1 : Asn1) (c : Crypto) (h : HasLengths c) (mech : ℕ) (bytes : Bytes)
    (p : Payload) where
  abbrev Describes : Type 0
  Describes = (p.is_digest ≡ not (is_pss_mechanism mech)) × IsDescribed bytes p

  parsed_payload :
      (r : Outcome (Bytes × Bytes))
      → mech ≡ ckm_rsa_pkcs
      → parse_digest_info asn1 bytes ≡ r
      → make_payload asn1 c mech bytes ≡ ok p
      → Describes
  unfolding make_payload is_pss_mechanism
  parsed_payload (ok (alg, digest)) kind parsed made =
      let same : p ≡ record { algorithm = alg; sign_data = digest; is_digest = true } =
        ground (arith, kind, parsed, made) in
      rw (same, kind)
        (refl, digest_lem asn1 bytes alg digest (asn1.unmarshal_digest_info bytes) parsed refl)
  parsed_payload (err f) kind parsed made = absurd (ground (arith, kind, parsed, made))
  parsed_payload panic kind parsed made = absurd (ground (arith, kind, parsed, made))

  raw_payload :
      mech ≡ ckm_ecdsa
      → (length bytes ≡ 32) ⊎ ((length bytes ≡ 48) ⊎ (length bytes ≡ 64))
      → make_payload asn1 c mech bytes ≡ ok p
      → Describes
  unfolding make_payload is_pss_mechanism bytes_eq
  raw_payload kind (inl n) made =
      let same : p ≡ record { algorithm = alg_ecdsa_sha256; sign_data = bytes; is_digest = true } =
        ground (arith, kind, n, made) in
      rw (same, kind) (refl, n)
  raw_payload kind (inr (inl n)) made =
      let same : p ≡ record { algorithm = alg_ecdsa_sha384; sign_data = bytes; is_digest = true } =
        ground (arith, kind, n, made) in
      rw (same, kind) (refl, n)
  raw_payload kind (inr (inr n)) made =
      let same : p ≡ record { algorithm = alg_ecdsa_sha512; sign_data = bytes; is_digest = true } =
        ground (arith, kind, n, made) in
      rw (same, kind) (refl, n)

  named_payload :
      (r : Outcome Bytes)
      → mech ≢ ckm_rsa_pkcs
      → mech ≢ ckm_ecdsa
      → mechanism_to_algorithm mech ≡ r
      → make_payload asn1 c mech bytes ≡ ok p
      → Describes
  unfolding make_payload
  named_payload (ok alg) other other' named made = elim (Bool-cases (is_pss_mechanism mech)) [
    | inl pss ↦
        let same : p ≡ record { algorithm = alg; sign_data = bytes; is_digest = false } =
          ground (arith, other, other', named, pss, made) in
        rw (same, pss) (refl, refl)
    | inr hashed ↦
        let same : p ≡ record {
          algorithm = alg;
          sign_data = hash_data_for_mechanism c mech bytes;
          is_digest = true;
        } =
          ground (arith, other, other', named, hashed, made) in
        rw (same, hashed) (refl, hash_lem c mech bytes alg h other' named)
  ]
  named_payload (err f) other other' named made =
      absurd (ground (arith, other, other', named, made))
  named_payload panic other other' named made = absurd (ground (arith, other, other', named, made))

  -- What `signInternal` sends to be signed belongs to the algorithm it names: under a PSS mechanism
  -- the message itself, marked as no digest, and under every other mechanism bytes that are marked
  -- as a digest and have the length of the hash of that algorithm. Under CKM_ECDSA, which passes on
  -- a digest that the caller made, that is so if the caller's data has the length of a hash. The
  -- hashes of Go give 32, 48 and 64 bytes.
  pub make_payload_lem :
      (mech ≡ ckm_ecdsa → (length bytes ≡ 32) ⊎ ((length bytes ≡ 48) ⊎ (length bytes ≡ 64)))
      → make_payload asn1 c mech bytes ≡ ok p
      → (p.is_digest ≡ not (is_pss_mechanism mech)) × IsDescribed bytes p
  make_payload_lem hashed made = elim (Bool-cases (mech == ckm_rsa_pkcs)) [
    | inl kind ↦ parsed_payload (parse_digest_info asn1 bytes) (ground (arith, kind)) refl made
    | inr other ↦ elim (Bool-cases (mech == ckm_ecdsa)) [
      | inl kind ↦
          let raw : mech ≡ ckm_ecdsa = ground (arith, kind) in raw_payload raw (hashed raw) made
      | inr other' ↦
          named_payload (mechanism_to_algorithm mech) (ground (arith, other))
            (ground (arith, other')) refl made
    ]
  ]
