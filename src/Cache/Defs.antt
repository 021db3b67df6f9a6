-- ===== src/Cache/Defs.antt =====
-- cache.go. A Go map of pointers to entries is an association list of entries.
use infisical_pkcs.Base.{Bool, List, [], Option, none, some, Bytes, if◌then◌else◌}
use infisical_pkcs.Base.Map.{Map, lookup, insert, bytes_key}
use infisical_pkcs.Base.Int.{ℤ, pos, ltb_ℤ, is_zero_ℤ, mul_64, ◌+ℤ◌}

pub record CacheEntry (T : Type 0) : Type 0 where
  pub value : T
  pub expires_at : ℤ

-- `time.Now().After(e.expiresAt)`
unfoldable pub is_expired : {T : Type 0} → ℤ → CacheEntry T → Bool
is_expired now e = ltb_ℤ e.expires_at now

-- `time.Duration(seconds) * time.Second`
unfoldable pub seconds_duration : ℤ → ℤ
unfolding mul_64
seconds_duration seconds = mul_64 seconds 1_000_000_000

-- The signers of a `signerCache`, generic over what a signer is.
pub record SignerCache (S : Type 0) : Type 0 where
  pub ttl : ℤ
  pub entry : Option (CacheEntry (List S))

abbrev fresh_value : {T : Type 0} → ℤ → Option (CacheEntry T) → Option T
fresh_value now none = none
fresh_value now (some e) = if is_expired now e then none else some e.value

module _ {S : Type 0} where
  unfoldable pub new_signer_cache : ℤ → SignerCache S
  unfolding seconds_duration
  new_signer_cache ttl_seconds = record {
    ttl = seconds_duration (if is_zero_ℤ ttl_seconds then pos 300 else ttl_seconds);
    entry = none;
  }

  unfoldable pub get_signer_cache : ℤ → SignerCache S → Option (List S)
  unfolding is_expired
  get_signer_cache now c = fresh_value now c.entry

  unfoldable pub set_signer_cache : ℤ → List S → SignerCache S → SignerCache S
  unfolding ◌+ℤ◌
  set_signer_cache now signers c = record c {
    entry = some (record { value = signers; expires_at = now +ℤ c.ttl });
  }

  unfoldable pub invalidate : SignerCache S → SignerCache S
  invalidate c = record c { entry = none }

pub record PubKeyEntry : Type 0 where
  pub public_key_der : Bytes
  pub exponent : Bytes
  pub ec_params : Bytes
  pub ec_point : Bytes
  pub algorithm : Bytes

pub record CertDataCache : Type 0 where
  pub ttl : ℤ
  pub pub_keys : Map Bytes (CacheEntry PubKeyEntry)
  pub certs : Map Bytes (CacheEntry Bytes)

unfoldable pub new_cert_data_cache : ℤ → CertDataCache
unfolding seconds_duration
new_cert_data_cache ttl_seconds = record {
  ttl = seconds_duration (if is_zero_ℤ ttl_seconds then pos 3600 else ttl_seconds);
  pub_keys = [];
  certs = [];
}

unfoldable pub get_pub_key : ℤ → Bytes → CertDataCache → Option PubKeyEntry
unfolding lookup is_expired
get_pub_key now signer_id c = fresh_value now (lookup signer_id c.pub_keys)

unfoldable pub set_pub_key : ℤ → Bytes → PubKeyEntry → CertDataCache → CertDataCache
unfolding insert ◌+ℤ◌
set_pub_key now signer_id pk c = record c {
  pub_keys = insert signer_id (record { value = pk; expires_at = now +ℤ c.ttl }) c.pub_keys;
}

unfoldable pub get_cert : ℤ → Bytes → CertDataCache → Option Bytes
unfolding lookup is_expired
get_cert now signer_id c = fresh_value now (lookup signer_id c.certs)

unfoldable pub set_cert : ℤ → Bytes → Bytes → CertDataCache → CertDataCache
unfolding insert ◌+ℤ◌
set_cert now signer_id cert c = record c {
  certs = insert signer_id (record { value = cert; expires_at = now +ℤ c.ttl }) c.certs;
}
