-- ===== src/Main/Search/Bounds.antt =====
-- The handles that `C_FindObjects` writes are no more than the caller asked for.
use infisical_pkcs.Base.{
  ℕ, ◌-◌, ◌≤◌, ◌≡◌, refl, true, List, some, arith, length, take, drop, if◌then◌else◌, Bool-cases,
  inl, inr, subst, length-take,
}
use infisical_pkcs.Base.Int.{of_bits}
use infisical_pkcs.Outcome.{Outcome, ok, err, panic}
use infisical_pkcs.Backend.State.{Env, Backend, Method, pure, lift, get_session, write_session}
use infisical_pkcs.Backend.Find.{find_objects, find_objects_on, page_size}
use infisical_pkcs.Slots.{Session}
use infisical_pkcs.Errors.{sentinel, find_not_active}
use infisical_pkcs.Constants.{ckr_ok}
use infisical_pkcs.Main.Ensures.{
  Ensures, bind-Ensures, catch_error-Ensures, when_initialized-Ensures,
}
use infisical_pkcs.Main.Search.{FindReply, find_rv, c_find_objects, slice_panics}

-- The handles that were written fit into an array of `room`.
abbrev pub FitsFind : ℕ → FindReply → Type 0
FitsFind room reply = length reply.objects ≤ room

module _ (e : Env) where
  open e use {service}

  page_size_lem :
      (max remaining count : ℕ) → page_size (of_bits max) remaining ≡ ok count → count ≤ max
  unfolding page_size of_bits
  page_size_lem max remaining count h = ground (arith, h)

  find_objects_on-Fits :
      (sh max : ℕ) (s : Session) (b : Backend service.World) (page : Outcome ℕ)
      → page_size (of_bits max) (length s.find_results - s.find_pos) ≡ page
      → Ensures
          (λ (objects : List ℕ). length objects ≤ max)
          (find_objects_on e sh (of_bits max) s b).0
  unfolding find_objects_on write_session
  find_objects_on-Fits sh max s b (ok count) met =
      let objects = take count (drop s.find_pos s.find_results) in
      let few : length objects ≤ max = omega (
        arith,
        page_size_lem max (length s.find_results - s.find_pos) count met,
        length-take count (drop s.find_pos s.find_results),
      ) in
      elim (Bool-cases s.find_active) [
        | inl on ↦
            let same : (find_objects_on e sh (of_bits max) s b).0 ≡ ok objects =
              ground (arith, on, met) in
            rw same few
        | inr off ↦
            let same : (find_objects_on e sh (of_bits max) s b).0 ≡ err (sentinel find_not_active) =
              ground (arith, off) in
            rw same tt
      ]
  find_objects_on-Fits sh max s b (err failure) met = elim (Bool-cases s.find_active) [
    | inl on ↦
        let same : (find_objects_on e sh (of_bits max) s b).0 ≡ err failure =
          ground (arith, on, met) in
        rw same tt
    | inr off ↦
        let same : (find_objects_on e sh (of_bits max) s b).0 ≡ err (sentinel find_not_active) =
          ground (arith, off) in
        rw same tt
  ]
  find_objects_on-Fits sh max s b panic met = elim (Bool-cases s.find_active) [
    | inl on ↦
        let same : (find_objects_on e sh (of_bits max) s b).0 ≡ panic = ground (arith, on, met) in
        rw same tt
    | inr off ↦
        let same : (find_objects_on e sh (of_bits max) s b).0 ≡ err (sentinel find_not_active) =
          ground (arith, off) in
        rw same tt
  ]

  find_objects-Fits :
      (sh max : ℕ) (b : Backend service.World)
      → Ensures (λ (objects : List ℕ). length objects ≤ max) (find_objects e sh (of_bits max) b).0
  unfolding find_objects
  find_objects-Fits sh max b =
      bind-Ensures _ (get_session sh) (find_objects_on e sh (of_bits max)) b _ refl
        λ s r. find_objects_on-Fits sh max s (get_session sh b).1 _ refl

  pub c_find_objects-Fits :
      (sh address max : ℕ) (b : Backend service.World)
      → Ensures (FitsFind max) (c_find_objects e sh (some address) max true b).0
  unfolding c_find_objects
  c_find_objects-Fits sh address max b =
      let ending : List ℕ → Method service.World FindReply = λ objects.
        if slice_panics address (of_bits max)
        then lift panic
        else pure
            (record { rv = ckr_ok; objects = objects; object_count = some (length objects) }) in
      when_initialized-Ensures e (FitsFind max) find_rv (λ rv. omega arith) _ b
        (catch_error-Ensures e (FitsFind max) find_rv (λ rv. omega arith) _ b _ refl
          (bind-Ensures (FitsFind max) (find_objects e sh (of_bits max)) ending b _ refl
            λ objects found.
              let few =
                subst (Ensures (λ (l : List ℕ). length l ≤ max)) found
                  (find_objects-Fits sh max b) in
              elim (Bool-cases (slice_panics address (of_bits max))) [
                | inl wild ↦ simp wild tt
                | inr fine ↦ simp fine few
              ]))
