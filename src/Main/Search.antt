-- ===== src/Main/Search.antt =====
-- main.go: `C_FindObjectsInit`, `C_FindObjects` and `C_FindObjectsFinal`.
pub mod Bounds
use infisical_pkcs.Base.{
  ℕ, ◌+◌, ◌*◌, ◌^◌, Bool, true, false, List, [], Option, none, some, length, take, ltb, is_empty,
  map, if◌then◌else◌,
}
use infisical_pkcs.Base.Int.{ℤ, pos, negsuc, of_bits}
use infisical_pkcs.Outcome.{panic}
use infisical_pkcs.Constants.{ckr_ok, ckr_arguments_bad}
use infisical_pkcs.Slots.{Attribute}
use infisical_pkcs.Backend.State.{Env, Method, ◌>>=◌, pure, lift}
use infisical_pkcs.Backend.Find.{find_objects_init, find_objects, find_objects_final}
use infisical_pkcs.Main.Reply.{catch_error, when_initialized, plain_call, rv_only}

abbrev pub max_template_attrs : ℕ
max_template_attrs = 256

-- An attribute of the caller's template: a null value, or one of no bytes, is nil.
unfoldable pub read_c_attribute : Attribute → Attribute
read_c_attribute a = record {
  kind = a.kind;
  value = elim a.value [ none ↦ none | some v ↦ if is_empty v then none else some v ];
}

-- What was written to `phObject` and to `*pulObjectCount`.
pub record FindReply : Type 0 where
  pub rv : ℕ
  pub objects : List ℕ
  pub object_count : Option ℕ

abbrev pub find_rv : ℕ → FindReply
find_rv rv = record { rv = rv; objects = []; object_count = none }

-- `unsafe.Slice(p, n)` of 8-byte elements at a pointer that is not null panics for a negative length
-- and for one that reaches past the end of the address space.
unfoldable pub slice_panics : (address : ℕ) → ℤ → Bool
slice_panics address (negsuc n) = true
slice_panics address (pos n) = ltb (2 ^ 64) (address + n * 8)

module _ (e : Env) where
  open e use {service}

  -- `count` is `ulCount`, and `template` what `pTemplate` points to.
  unfoldable pub c_find_objects_init :
      ℕ → (count : ℕ) → Option (List Attribute) → Method service.World ℕ
  c_find_objects_init sh count template =
      if ltb max_template_attrs count
      then when_initialized e rv_only (pure ckr_arguments_bad)
      else plain_call e (
          find_objects_init e sh
            (elim template [ none ↦ [] | some attrs ↦ map read_c_attribute (take count attrs) ]))

  -- `address` is `phObject`, and `none` if that is null; `max` is a 64-bit `CK_ULONG`, turned into an
  -- `int`. The search has already moved on when the slice over the caller's array panics.
  unfoldable pub c_find_objects :
      ℕ → (address : Option ℕ) → (max : ℕ) → (has_count : Bool) → Method service.World FindReply
  c_find_objects sh none max has_count =
      when_initialized e find_rv (pure (find_rv ckr_arguments_bad))
  c_find_objects sh (some address) max false =
      when_initialized e find_rv (pure (find_rv ckr_arguments_bad))
  c_find_objects sh (some address) max true = when_initialized e find_rv (
      catch_error e find_rv (
        find_objects e sh (of_bits max) >>= λ objects.
        if slice_panics address (of_bits max)
        then lift panic
        else pure
            (record { rv = ckr_ok; objects = objects; object_count = some (length objects) })))

  unfoldable pub c_find_objects_final : ℕ → Method service.World ℕ
  c_find_objects_final sh = plain_call e (find_objects_final e sh)
