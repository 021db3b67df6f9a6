-- ===== src/Cache/Freshness.antt =====
-- How long a cached value is given out, and to whom.
use infisical_pkcs.Base.{
  ◌≡◌, refl, List, none, some, Bytes, if◌then◌else◌, bytes_eq, Bool-cases, inl, inr,
}
use infisical_pkcs.Base.Map.{lookup-insert, bytes_key}
use infisical_pkcs.Base.Int.{ℤ, ◌+ℤ◌, ltb_ℤ}
use infisical_pkcs.Cache.Defs.{
  CacheEntry, SignerCache, get_signer_cache, set_signer_cache, CertDataCache, get_cert, set_cert,
}

-- After `set` the signers are given out at every later reading of the clock that is not past the
-- time of writing plus the time to live, and at none that is.
pub get-set_signers :
    {S : Type 0} (stored now : ℤ) (signers : List S) (c : SignerCache S)
    → get_signer_cache now (set_signer_cache stored signers c)
      ≡ (if ltb_ℤ (stored +ℤ c.ttl) now then none else some signers)
unfolding get_signer_cache set_signer_cache
get-set_signers stored now signers c = refl

-- A certificate that was stored is given out for its own signer alone, until it expires; what is
-- given out for the other signers does not change.
pub get-set_cert :
    (stored now : ℤ) (id other cert : Bytes) (c : CertDataCache)
    → get_cert now other (set_cert stored id cert c) ≡ (
        if bytes_eq id other
        then (if ltb_ℤ (stored +ℤ c.ttl) now then none else some cert)
        else get_cert now other c)
unfolding get_cert set_cert
get-set_cert stored now id other cert c =
    let entry : CacheEntry Bytes = record { value = cert; expires_at = stored +ℤ c.ttl } in
    rw (lookup-insert id other entry c.certs)
      (elim (Bool-cases (bytes_eq id other)) [ inl e ↦ rw e refl | inr e ↦ rw e refl ])
