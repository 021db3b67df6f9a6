-- ===== src/Main/Buffers/Values.antt =====
-- The loop of `C_GetAttributeValue`: what reaches the caller's buffers.
use infisical_pkcs.Base.{
  ℕ, ◌≤◌, ◌<◌, ◌≡◌, refl, List, [], ◌∷◌, ◌++◌, arith, Bytes, length, none, some, false, leb, map,
  is_empty, if◌then◌else◌, Bool-cases, inl, inr, Option-cases,
}
use infisical_pkcs.Slots.{Attribute}
use infisical_pkcs.Constants.{ckr_ok, ckr_buffer_too_small}
use infisical_pkcs.Main.Buffers.{
  AttributeBuffer, AttributeReply, sized, filled, value_of, all_untouched, write_attributes,
}

-- A template that asks for sizes, and one with buffers of the lengths that were stored.
abbrev pub ask_sizes : List ℕ → List AttributeBuffer
ask_sizes = map (λ (kind : ℕ). record { kind = kind; room = none })

abbrev pub ask_values : List ℕ → List AttributeReply → List AttributeBuffer
ask_values [] replies = []
ask_values (kind ∷ kinds) [] = []
ask_values (kind ∷ kinds) (reply ∷ replies) =
    record { kind = kind; room = reply.stored_length } ∷ ask_values kinds replies

-- Each value with its length, or the length 0 alone where there is no value.
abbrev pub delivered : Attribute → AttributeReply
delivered r = if is_empty (value_of r) then sized 0 else filled (value_of r)

abbrev pub Fits : List AttributeBuffer → List Attribute → Type 0
Fits [] rs = Unit
Fits (slot ∷ slots) [] = Unit
Fits (slot ∷ slots) (r ∷ rs) =
    ((room : ℕ) → slot.room ≡ some room → length (value_of r) ≤ room) × Fits slots rs

sizes_lem :
    (kinds : List ℕ) (rs : List Attribute)
    → length kinds ≡ length rs
    → write_attributes (ask_sizes kinds) rs
      ≡ (ckr_ok, map (λ (r : Attribute). sized (length (value_of r))) rs)
unfolding write_attributes
sizes_lem [] [] h = refl
sizes_lem [] (r ∷ rs) h = absurd (omega (arith, h))
sizes_lem (kind ∷ kinds) [] h = absurd (omega (arith, h))
sizes_lem (kind ∷ kinds) (r ∷ rs) h = ground (arith, sizes_lem kinds rs (omega (arith, h)))

values_lem :
    (kinds : List ℕ) (rs : List Attribute)
    → length kinds ≡ length rs
    → write_attributes
        (ask_values kinds (map (λ (r : Attribute). sized (length (value_of r))) rs))
        rs
      ≡ (ckr_ok, map delivered rs)
unfolding write_attributes
values_lem [] [] h = refl
values_lem [] (r ∷ rs) h = absurd (omega (arith, h))
values_lem (kind ∷ kinds) [] h = absurd (omega (arith, h))
values_lem (kind ∷ kinds) (r ∷ rs) h = ground (arith, values_lem kinds rs (omega (arith, h)))

-- Asking first for the sizes and then with buffers of exactly those sizes, for the same values, one
-- for each attribute that is asked for, succeeds both times and delivers every value that is not
-- empty in whole, with its length.
pub two_calls_deliver :
    (kinds : List ℕ) (rs : List Attribute)
    → length kinds ≡ length rs
    → let (rv, replies) = write_attributes (ask_sizes kinds) rs in
      (rv ≡ ckr_ok) × (write_attributes (ask_values kinds replies) rs ≡ (ckr_ok, map delivered rs))
two_calls_deliver kinds rs h = rw (sizes_lem kinds rs h) (refl, values_lem kinds rs h)

-- What was copied fits into the buffer that the caller gave for it.
abbrev pub IsWithin : List AttributeBuffer → List AttributeReply → Type 0
IsWithin [] replies = Unit
IsWithin (slot ∷ slots) [] = Unit
IsWithin (slot ∷ slots) (reply ∷ replies) =
    ((v : Bytes) → reply.copied ≡ some v → (room : ℕ) × (slot.room ≡ some room) × (length v ≤ room))
    × IsWithin slots replies

is_empty_of_length : (v : Bytes) → 0 < length v → is_empty v ≡ false
is_empty_of_length [] h = absurd (omega (arith, h))
is_empty_of_length (c ∷ cs) h = refl

all_untouched-IsWithin : (slots : List AttributeBuffer) → IsWithin slots (all_untouched slots)
all_untouched-IsWithin [] = tt
all_untouched-IsWithin (slot ∷ slots) =
    (λ v h. absurd (ground (arith, h)), all_untouched-IsWithin slots)

-- Whatever the template and the results, nothing is written past the end of a buffer of the caller,
-- and nothing at all where there is no buffer.
pub write_attributes-IsWithin :
    (slots : List AttributeBuffer) (rs : List Attribute)
    → IsWithin slots (write_attributes slots rs).1
unfolding write_attributes
write_attributes-IsWithin [] rs = tt
write_attributes-IsWithin (slot ∷ slots) [] = all_untouched-IsWithin (slot ∷ slots)
write_attributes-IsWithin (slot ∷ slots) (r ∷ rs) =
    let rest = write_attributes-IsWithin slots rs in
    elim (Option-cases slot.room) [
      | inl e ↦ rw e (λ v h. absurd (ground (arith, h)), rest)
      | inr (room, e) ↦ elim (Bool-cases (is_empty (value_of r))) [
        | inl none_there ↦ rw (e, none_there) (λ v h. absurd (ground (arith, h)), rest)
        | inr there ↦ elim (Bool-cases (leb (length (value_of r)) room)) [
          | inl fits ↦ rw (e, there, fits) (λ u h. (room, refl, ground (arith, fits, h)), rest)
          | inr small ↦
              rw (e, there, small) (λ v h. absurd (ground (arith, h)), all_untouched-IsWithin slots)
        ]
      ]
    ]

-- At the first buffer that is too small for its value the loop stops: the values in front of it are
-- as they would be without it, its own length is stored, and what follows is not touched.
pub stops_at_small :
    (slots : List AttributeBuffer) (rs : List Attribute)
    → length slots ≡ length rs
    → Fits slots rs
    → (slot : AttributeBuffer) (later : List AttributeBuffer) (r : Attribute)
      (more : List Attribute) (room : ℕ)
    → slot.room ≡ some room
    → room < length (value_of r)
    → write_attributes (slots ++ (slot ∷ later)) (rs ++ (r ∷ more)) ≡ (
      ckr_buffer_too_small,
      (write_attributes slots rs).1 ++ (sized (length (value_of r)) ∷ all_untouched later),
    )
unfolding write_attributes
stops_at_small [] [] same fits slot later r more room e small =
    ground (arith, e, small, is_empty_of_length (value_of r))
stops_at_small [] (r' ∷ rs) same fits slot later r more room e small = absurd (omega (arith, same))
stops_at_small (slot' ∷ slots) [] same fits slot later r more room e small =
    absurd (omega (arith, same))
stops_at_small (slot' ∷ slots) (r' ∷ rs) same (fit, fits) slot later r more room e small =
    let rest = stops_at_small slots rs (omega (arith, same)) fits slot later r more room e small in
    elim (Option-cases slot'.room) [
      | inl e' ↦ rw (e', rest)
      | inr (room', e') ↦ let enough = fit room' e' in ground (arith, e', rest, enough)
    ]
