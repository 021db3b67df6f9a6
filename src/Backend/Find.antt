-- ===== src/Backend/Find.antt =====
-- backend.go: the search for objects, `FindObjectsInit`, `FindObjects` and `FindObjectsFinal`.
pub mod Pages
pub mod Drain
pub mod Results
use Prim.Native.Nat.{bit_or}
use infisical_pkcs.Base.{
  ℕ, zero, suc, ◌+◌, ◌-◌, ◌*◌, ◌^◌, Bool, true, false, not, List, [], ◌∷◌, Option, none, some,
  Bytes, length, take, drop, bytes_eq, leb, ltb, ◌==◌, if◌then◌else◌,
}
use infisical_pkcs.Base.Int.{ℤ, pos, negsuc}
use infisical_pkcs.Errors.{GoError, sentinel, find_already_active, find_not_active}
use infisical_pkcs.Outcome.{Outcome, ok, err, panic}
use infisical_pkcs.Constants.{
  cka_class, cka_id, cka_label, cka_subject, cko_private_key, cko_certificate, cko_public_key,
}
use infisical_pkcs.Slots.{
  Session, Attribute, make_private_key_handle, make_certificate_handle, make_public_key_handle,
}
use infisical_pkcs.Client.{Service, SignerResponse}
use infisical_pkcs.Backend.State.{
  Env, Method, ◌>>=◌, ◌>>◌, pure, fail, lift, attempt, require, get_session, write_session,
}
use infisical_pkcs.Backend.Signers.{get_signer_by_slot}
use infisical_pkcs.Backend.Keys.{get_certificate_data}

-- What a template asks for.
pub record Query : Type 0 where
  pub class : Option ℕ
  pub id : Option Bytes
  pub label : Option Bytes
  pub subject : Option Bytes

-- The first four bytes, the lowest first; a shorter value is no filter.
unfoldable pub read_class : Bytes → Option ℕ
read_class (a ∷ b ∷ c ∷ d ∷ rest) =
    some (bit_or (bit_or (bit_or a (b * 2 ^ 8)) (c * 2 ^ 16)) (d * 2 ^ 24))
read_class _ = none

abbrev class_or : Option ℕ → Option Bytes → Option ℕ
class_or before none = before
class_or before (some value) = elim (read_class value) [ none ↦ before | some c ↦ some c ]

-- One round of the loop over the template.
unfoldable pub read_attribute : Attribute → Query → Query
read_attribute attr q =
    if attr.kind == cka_class
    then record q { class = class_or q.class attr.value }
    else if attr.kind == cka_id
    then record q { id = attr.value }
    else if attr.kind == cka_label
    then record q { label = attr.value }
    else if attr.kind == cka_subject
    then record q { subject = attr.value }
    else q

unfoldable pub read_template : List Attribute → Query → Query
read_template [] q = q
read_template (attr ∷ attrs) q = read_template attrs (read_attribute attr q)

abbrev pub empty_query : Query
empty_query = record { class = none; id = none; label = none; subject = none }

unfoldable pub truncate : ℕ → Bytes → Bytes
truncate max_len s = if leb (length s) max_len then s else take max_len s

-- A filter that is not there lets every object through.
abbrev matches : Option Bytes → Bytes → Bool
matches none value = true
matches (some wanted) value = bytes_eq wanted value

unfoldable pub objects_for : Option ℕ → ℕ → List ℕ
objects_for none slot =
    make_private_key_handle slot ∷ make_public_key_handle slot ∷ make_certificate_handle slot ∷ []
objects_for (some class) slot =
    if class == cko_private_key
    then make_private_key_handle slot ∷ []
    else if class == cko_certificate
    then make_certificate_handle slot ∷ []
    else if class == cko_public_key
    then make_public_key_handle slot ∷ []
    else []

-- `setEmptyFindResult` with no results; the last lines of `FindObjectsInit` with those found.
unfoldable pub set_find_result : List Attribute → List ℕ → Session → Session
set_find_result template results s = record s {
  find_active = true;
  find_template = template;
  find_results = results;
  find_pos = 0;
}

-- How many of the remaining results to give. A negative `max` is taken for the length of a slice,
-- which panics, unless nothing remains.
unfoldable pub page_size : ℤ → ℕ → Outcome ℕ
page_size max remaining =
    if leb remaining 0
    then ok 0
    else elim max [ pos n ↦ ok (if ltb remaining n then remaining else n) | negsuc n ↦ panic ]

unfoldable pub end_search : Session → Session
end_search sess = record sess { find_active = false; find_results = []; find_pos = 0 }

module _ (e : Env) where
  open e use {service, crypto}

  abbrev filters_signer : Query → Bool
  filters_signer q = elim q.id [
    | some i ↦ true
    | none ↦ elim q.label [ some l ↦ true | none ↦ false ]
  ]

  -- Whether the signer of the slot has the identifier and the label that are asked for.
  unfoldable pub signer_matches : ℕ → Query → Method service.World Bool
  signer_matches slot q =
      if filters_signer q
      then (get_signer_by_slot service slot >>= λ signer.
          pure
            (if matches q.id (truncate 20 signer.id) then matches q.label signer.name else false))
      else pure true

  abbrev subject_is : Bytes → Outcome Bytes → Bool
  subject_is wanted (ok der) = elim (crypto.parse_certificate der) [
    | none ↦ false
    | some cert ↦ bytes_eq wanted cert.raw_subject
  ]
  subject_is wanted _ = false

  -- Whether the certificate of the slot has the subject that is asked for. A certificate that
  -- cannot be had or read does not match.
  unfoldable pub subject_matches : ℕ → Option Bytes → Method service.World Bool
  subject_matches slot none = pure true
  subject_matches slot (some wanted) = do
    signer ← get_signer_by_slot service slot
    der ← attempt (get_certificate_data e signer.id)
    pure (subject_is wanted der)

  -- The subject is looked at only if the other filters match.
  unfoldable pub subject_matches_if : Bool → ℕ → Option Bytes → Method service.World Bool
  subject_matches_if false slot wanted = pure false
  subject_matches_if true slot wanted = subject_matches slot wanted

  -- The results of a search, with the filters in the order of the source.
  unfoldable pub search_objects : ℕ → Query → Method service.World (List ℕ)
  search_objects slot q = do
    by_signer ← signer_matches slot q
    by_subject ← subject_matches_if by_signer slot q.subject
    pure (if by_subject then objects_for q.class slot else [])

  -- Each `_on` is a method after its `sessions.get`.
  unfoldable pub find_objects_init_on :
      ℕ → List Attribute → Session → Method service.World (Unit {0})
  find_objects_init_on sh template sess = do
    require (not sess.find_active) (sentinel find_already_active)
    results ← search_objects sess.slot_id (read_template template empty_query)
    write_session sh (set_find_result template results sess)

  unfoldable pub find_objects_init : ℕ → List Attribute → Method service.World (Unit {0})
  find_objects_init sh template = get_session sh >>= find_objects_init_on sh template

  unfoldable pub find_objects_on : ℕ → ℤ → Session → Method service.World (List ℕ)
  find_objects_on sh max sess = do
    require sess.find_active (sentinel find_not_active)
    count ← lift (page_size max (length sess.find_results - sess.find_pos))
    write_session sh (record sess { find_pos = sess.find_pos + count })
    pure (take count (drop sess.find_pos sess.find_results))

  unfoldable pub find_objects : ℕ → ℤ → Method service.World (List ℕ)
  find_objects sh max = get_session sh >>= find_objects_on sh max

  unfoldable pub find_objects_final : ℕ → Method service.World (Unit {0})
  find_objects_final sh = get_session sh >>= λ sess. write_session sh (end_search sess)
