-- ===== src/Backend/Find/Results.antt =====
-- Which objects a search finds.
use infisical_pkcs.Base.{
  ℕ, ◌<◌, ◌^◌, ◌≡◌, refl, ap, true, List, [], Option, none, some, arith, All, ◌⊎◌, inl, inr,
  Bool-cases, ◌==◌, if◌then◌else◌,
}
use infisical_pkcs.Outcome.{Outcome, ok, err, panic}
use infisical_pkcs.Slots.{
  Session, Attribute, get, parse_object_handle, obj_private_key, obj_certificate, obj_public_key,
}
use infisical_pkcs.Slots.Handles.{parse-make}
use infisical_pkcs.Slots.Lookup.{get-put}
use infisical_pkcs.Constants.{cko_private_key, cko_certificate, cko_public_key}
use infisical_pkcs.Backend.State.{Env, Backend, get_session, write_session}
use infisical_pkcs.Backend.Find.{
  Query, objects_for, read_template, empty_query, search_objects, set_find_result,
  find_objects_init, find_objects_init_on,
}

-- The type in a handle of an object of this class.
abbrev object_type : ℕ → ℕ
object_type class =
    if class == cko_private_key
    then obj_private_key
    else if class == cko_certificate
    then obj_certificate
    else obj_public_key

-- A handle of an object of this slot and, if a class is asked for, of this class.
abbrev pub Belongs : Option ℕ → ℕ → ℕ → Type 0
Belongs none slot handle = (parse_object_handle handle).1 ≡ slot
Belongs (some class) slot handle = parse_object_handle handle ≡ (object_type class, slot)

objects_for-Belongs :
    (class : Option ℕ) (slot : ℕ)
    → slot < 2 ^ 28
    → All (Belongs class slot) (objects_for class slot)
unfolding objects_for
objects_for-Belongs none slot small =
    let h = parse-make slot small in
    (ap (λ r. r.1) h.0, (ap (λ r. r.1) h.2, (ap (λ r. r.1) h.1, tt)))
objects_for-Belongs (some class) slot small =
    let h = parse-make slot small in
    elim (Bool-cases (class == cko_private_key)) [
      | inl c ↦ rw c (ground (arith, c, h.0), tt)
      | inr c ↦ elim (Bool-cases (class == cko_certificate)) [
        | inl c' ↦ rw (c, c') (ground (arith, c, c', h.1), tt)
        | inr c' ↦ elim (Bool-cases (class == cko_public_key)) [
          | inl c'' ↦ rw (c, c', c'') (ground (arith, c, c', h.2), tt)
          | inr c'' ↦ rw (c, c', c'') tt
        ]
      ]
    ]

module _ (e : Env) (sh : ℕ) where
  open e use {service}

  search_objects_lem :
      (slot : ℕ) (q : Query) (b : Backend service.World) (results : List ℕ)
      → (search_objects e slot q b).0 ≡ ok results
      → (results ≡ []) ⊎ (results ≡ objects_for q.class slot)
  unfolding search_objects
  search_objects_lem slot q b results found = ground (arith, found)

  search_objects-Belongs :
      (slot : ℕ) (q : Query) (b : Backend service.World) (results : List ℕ)
      → slot < 2 ^ 28
      → (search_objects e slot q b).0 ≡ ok results
      → All (Belongs q.class slot) results
  search_objects-Belongs slot q b results small found =
      elim (search_objects_lem slot q b results found) [
        | inl none_found ↦ rw none_found tt
        | inr all ↦ rw all (objects_for-Belongs q.class slot small)
      ]

  begun_results :
      (s : Session) (b : Backend service.World) (template : List Attribute)
      → get sh b.sessions ≡ some s
      → (find_objects_init e sh template b).0 ≡ ok tt
      → (r : Outcome (List ℕ))
      → (search_objects e s.slot_id (read_template template empty_query) b).0 ≡ r
      → (results : List ℕ) × (r ≡ ok results)
  unfolding find_objects_init find_objects_init_on get_session
  begun_results s b template there begun (ok results) found = (results, refl)
  begun_results s b template there begun (err failure) found =
      absurd (ground (arith, there, begun, found))
  begun_results s b template there begun panic found = absurd (ground (arith, there, begun, found))

  -- A search that begins without an error starts at its first result, and every result is a handle
  -- that reads back as an object of the session's own slot and, if the template asks for a class, as
  -- the type of object of that class. The slot number must have 28 bits.
  pub find_objects_init_lem :
      (s : Session) (b : Backend service.World) (template : List Attribute)
      → get sh b.sessions ≡ some s
      → s.slot_id < 2 ^ 28
      → (find_objects_init e sh template b).0 ≡ ok tt
      → let b' = (find_objects_init e sh template b).1 in
        (t : Session) × (get sh b'.sessions ≡ some t)
        × (t.find_active ≡ true)
        × (t.find_pos ≡ 0)
        × All (Belongs (read_template template empty_query).class s.slot_id) t.find_results
  unfolding find_objects_init find_objects_init_on get_session write_session set_find_result
  find_objects_init_lem s b template there small begun =
      let q = read_template template empty_query in
      let (results, found) =
        begun_results s b template there begun (search_objects e s.slot_id q b).0 refl in
      (
        set_find_result template results s,
        ground (
          arith,
          there,
          begun,
          found,
          get-put sh (set_find_result template results s)
              (search_objects e s.slot_id q b).1.sessions,
        ),
        refl,
        refl,
        search_objects-Belongs s.slot_id q b results small found,
      )
