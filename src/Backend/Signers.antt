-- ===== src/Backend/Signers.antt =====
-- backend.go: the list of signers, cached, and the signer of a slot or of an identifier.
pub mod Slots
use infisical_pkcs.Base.{
  ℕ, Bool, true, false, List, [], ◌∷◌, Option, none, some, Bytes, bytes_eq, get_elem?, length, zero,
  suc, if◌then◌else◌,
}
use infisical_pkcs.Errors.{GoError, sentinel, slot_id_invalid, wrap, plain}
use infisical_pkcs.Outcome.{Outcome, ok, err, panic}
use infisical_pkcs.Cache.{get_signer_cache, set_signer_cache}
use infisical_pkcs.Client.{Service, SignerResponse, list_signers}
use infisical_pkcs.Backend.State.{Backend, Method, ◌>>=◌, ◌>>◌, pure, fail, gets, modify, or_fail}
use infisical_pkcs.Backend.Auth.{with_retry_on_auth}

-- `slots[i] = uint(i)`, from `i` on.
unfoldable pub indices : {A : Type 0} → ℕ → List A → List ℕ
indices i [] = []
indices i (x ∷ xs) = i ∷ indices (suc i) xs

unfoldable pub find_signer : Bytes → List SignerResponse → Option SignerResponse
find_signer signer_id [] = none
find_signer signer_id (s ∷ ss) =
    if bytes_eq s.id signer_id then some s else find_signer signer_id ss

module _ (v : Service) where
  open v use {World}

  abbrev cached_signers : Backend World → Option (List SignerResponse)
  cached_signers b = get_signer_cache (v.clock b.world) b.signer_cache

  unfoldable pub store_signers : List SignerResponse → Backend World → Backend World
  store_signers signers b = record b {
    signer_cache = set_signer_cache (v.clock b.world) signers b.signer_cache;
  }

  unfoldable pub fetch_signers : Method World (List SignerResponse)
  fetch_signers = do
    signers ← with_retry_on_auth v (list_signers v)
    modify (store_signers signers)
    pure signers

  unfoldable pub get_signers : Method World (List SignerResponse)
  get_signers b = elim (get_signer_cache (v.clock b.world) b.signer_cache) [
    | some signers ↦ (ok signers, b)
    | none ↦ fetch_signers b
  ]

  unfoldable pub get_signer_by_slot : ℕ → Method World SignerResponse
  get_signer_by_slot slot = do
    signers ← get_signers
    or_fail (get_elem? signers slot) (wrap "slot" (sentinel slot_id_invalid))

  unfoldable pub get_slot_list : Method World (List ℕ)
  get_slot_list = do signers ← get_signers; pure (indices 0 signers)

  unfoldable pub get_signer_by_signer_id : Bytes → Method World SignerResponse
  get_signer_by_signer_id signer_id = do
    signers ← get_signers
    or_fail (find_signer signer_id signers) (plain "signer not found")
