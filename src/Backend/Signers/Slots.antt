-- ===== src/Backend/Signers/Slots.antt =====
-- The slots are the positions of the list of signers.
use infisical_pkcs.Base.{
  ℕ, zero, suc, ◌+◌, ◌≤◌, ◌<◌, ◌≡◌, refl, ap, List, [], ◌∷◌, none, some, arith, length, get_elem?,
}
use infisical_pkcs.Errors.{sentinel, slot_id_invalid, wrap}
use infisical_pkcs.Outcome.{ok, err}
use infisical_pkcs.Client.{Service, SignerResponse}
use infisical_pkcs.Backend.State.{Backend}
use infisical_pkcs.Backend.Signers.{get_signers, get_signer_by_slot, get_slot_list, indices}

module _ {A : Type 0} where
  get_elem?-below : (xs : List A) (i : ℕ) → i < length xs → (x : A) × (get_elem? xs i ≡ some x)
  get_elem?-below [] i h = absurd (omega arith)
  get_elem?-below (x ∷ xs) zero h = (x, refl)
  get_elem?-below (x ∷ xs) (suc i) h = get_elem?-below xs i (omega arith)

  get_elem?-above : (xs : List A) (i : ℕ) → length xs ≤ i → get_elem? xs i ≡ none
  get_elem?-above [] i h = refl
  get_elem?-above (x ∷ xs) zero h = absurd (omega arith)
  get_elem?-above (x ∷ xs) (suc i) h = get_elem?-above xs i (omega arith)

  get_elem?-indices :
      (xs : List A) (start i : ℕ)
      → i < length xs
      → get_elem? (indices start xs) i ≡ some (start + i)
  unfolding indices
  get_elem?-indices [] start i h = absurd (omega arith)
  get_elem?-indices (x ∷ xs) start zero h = ap some (omega arith)
  get_elem?-indices (x ∷ xs) start (suc i) h =
      let e : start + suc i ≡ suc start + i = omega arith in
      rw e (get_elem?-indices xs (suc start) i (omega arith))

  length-indices : (xs : List A) (start : ℕ) → length (indices start xs) ≡ length xs
  unfolding indices
  length-indices [] start = refl
  length-indices (x ∷ xs) start = ap suc (length-indices xs (suc start))

-- With the same list of signers, `GetSlotList` gives one slot for each signer, numbered from 0, and
-- a slot number finds a signer exactly when it is in that list; any other gets
-- `ErrSlotIDInvalid`.
pub slot_list_complete :
    (v : Service) (b : Backend v.World) (signers : List SignerResponse)
    → (get_signers v b).0 ≡ ok signers
    → (slots : List ℕ) → (get_slot_list v b).0 ≡ ok slots
    → (length slots ≡ length signers)
      × ((i : ℕ)
          → i < length signers
          → (get_elem? slots i ≡ some i)
            × ((s : SignerResponse) × ((get_signer_by_slot v i b).0 ≡ ok s)))
      × ((i : ℕ)
          → length signers ≤ i
          → (get_signer_by_slot v i b).0 ≡ err (wrap "slot" (sentinel slot_id_invalid)))
unfolding get_slot_list get_signer_by_slot
slot_list_complete v b signers got slots listed =
    let e : slots ≡ indices 0 signers = ground (arith, got, listed) in
    (
      rw e (length-indices signers 0),
      λ i h.
          let zero_add : 0 + i ≡ i = omega arith in
          let (x, found) = get_elem?-below signers i h in
          (
            rw e (rw zero_add at (get_elem?-indices signers 0 i h)),
            (x, ground (arith, got, found)),
          ),
      λ i h. ground (arith, got, get_elem?-above signers i h),
    )
