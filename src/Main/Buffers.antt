-- ===== src/Main/Buffers.antt =====
-- pkcs11_types.h and main.go: how texts, lists and attributes get into the memory of the caller.
pub mod Padding
pub mod Values
use infisical_pkcs.Base.{
  ℕ, ◌-◌, true, false, List, [], ◌∷◌, ◌++◌, Option, none, some, Bytes, length, take, replicate, ltb,
  leb, is_empty, ◌==◌, if◌then◌else◌,
}
use infisical_pkcs.Constants.{ckr_ok, ckr_buffer_too_small}
use infisical_pkcs.Slots.{Attribute}

-- The bytes that `strlen` counts: those in front of the first zero.
unfoldable pub c_string : Bytes → Bytes
c_string [] = []
c_string (c ∷ cs) = elim (c == 0) [ true ↦ [] | false ↦ c ∷ c_string cs ]

-- `copyPaddedString` and `copyBytes`, which do the same: what stands in a field of `n` bytes.
unfoldable pub copy_padded_string : Bytes → ℕ → Bytes
copy_padded_string s n = let src = c_string s in take n src ++ replicate (n - length src) b' '

-- The return value, the elements written to the caller's array, and what was stored as the count.
pub record ListReply : Type 0 where
  pub rv : ℕ
  pub written : Option (List ℕ)
  pub stored_count : Option ℕ

abbrev pub list_rv : ℕ → ListReply
list_rv rv = record { rv = rv; written = none; stored_count = none }

-- The end of `C_GetSlotList` and `C_GetMechanismList`. `room` is `none` for a null array, and else
-- what `pulCount` holds.
unfoldable pub deliver_list : Option ℕ → List ℕ → ListReply
deliver_list none items = record { rv = ckr_ok; written = none; stored_count = some (length items) }
deliver_list (some room) items =
    if ltb room (length items)
    then record { rv = ckr_buffer_too_small; written = none; stored_count = some (length items) }
    else record { rv = ckr_ok; written = some items; stored_count = some (length items) }

-- An attribute of the caller's template: its type, and the length of its buffer if there is one.
pub record AttributeBuffer : Type 0 where
  pub kind : ℕ
  pub room : Option ℕ

-- What became of an attribute: the bytes copied and the length stored, if any.
pub record AttributeReply : Type 0 where
  pub copied : Option Bytes
  pub stored_length : Option ℕ

abbrev pub untouched : AttributeReply
untouched = record { copied = none; stored_length = none }

abbrev pub sized : ℕ → AttributeReply
sized n = record { copied = none; stored_length = some n }

abbrev pub filled : Bytes → AttributeReply
filled v = record { copied = some v; stored_length = some (length v) }

abbrev pub value_of : Attribute → Bytes
value_of r = elim r.value [ none ↦ [] | some v ↦ v ]

abbrev all_untouched : List AttributeBuffer → List AttributeReply
all_untouched [] = []
all_untouched (slot ∷ slots) = untouched ∷ all_untouched slots

-- The loop over the results in `C_GetAttributeValue`, which stops at a buffer that is too small.
unfoldable pub write_attributes : List AttributeBuffer → List Attribute → ℕ × List AttributeReply
write_attributes [] results = (ckr_ok, [])
write_attributes (slot ∷ slots) [] = (ckr_ok, all_untouched (slot ∷ slots))
write_attributes (slot ∷ slots) (r ∷ rs) =
    let v = value_of r in
    let (rv, rest) = write_attributes slots rs in
    elim slot.room [
      | none ↦ (rv, sized (length v) ∷ rest)
      | some room ↦
          if is_empty v
          then (rv, sized 0 ∷ rest)
          else if leb (length v) room
          then (rv, filled v ∷ rest)
          else (ckr_buffer_too_small, sized (length v) ∷ all_untouched slots)
    ]
