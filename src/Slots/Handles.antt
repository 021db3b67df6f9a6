-- ===== src/Slots/Handles.antt =====
-- The object handles: what `parseObjectHandle` reads back from what the three makers write.
use Prim.Native.Nat.{bit_or, bit_and}
use infisical_pkcs.Base.{ℕ, ◌+◌, ◌*◌, ◌/◌, ◌%◌, ◌^◌, ◌<◌, ◌≡◌, refl, arith}
use infisical_pkcs.Base.Bits.{
  bit_and-fields, bit_or-fields, bit_and-zero, zero-bit_or, bit_and-ones, bit_and_fifteen,
}
use infisical_pkcs.Slots.Defs.{
  obj_private_key, obj_certificate, obj_public_key, make_private_key_handle,
  make_certificate_handle, make_public_key_handle, parse_object_handle,
}

or-field : (t s : ℕ) → s < 2 ^ 28 → bit_or t 0 ≡ t → bit_or (t * 2 ^ 28) s ≡ t * 2 ^ 28 + s
or-field t s h z =
    let left : t * 2 ^ 28 + 0 ≡ t * 2 ^ 28 = omega arith in
    let right : 0 * 2 ^ 28 + s ≡ s = omega arith in
    let e : bit_or (t * 2 ^ 28 + 0) (0 * 2 ^ 28 + s) ≡ bit_or t 0 * 2 ^ 28 + bit_or 0 s =
      bit_or-fields 28 t 0 0 s (omega arith) h in
    rw (left, right, z, zero-bit_or s) at e

-- The two halves of a handle, as arithmetic.
parse-field :
    (t s : ℕ) → t < 16 → s < 2 ^ 28 → parse_object_handle (t * 2 ^ 28 + s) ≡ (t * 2 ^ 28, s)
unfolding parse_object_handle
parse-field t s ht hs =
    let high : bit_and (t * 2 ^ 28 + s) (15 * 2 ^ 28 + 0) ≡ bit_and t 15 * 2 ^ 28 + bit_and s 0 =
      bit_and-fields 28 t 15 s 0 hs (omega arith) in
    let low : bit_and (t * 2 ^ 28 + s) (0 * 2 ^ 28 + 0x0fffffff)
        ≡ bit_and t 0 * 2 ^ 28 + bit_and s 0x0fffffff =
      bit_and-fields 28 t 0 s 0x0fffffff hs (omega arith) in
    let kind : bit_and (t * 2 ^ 28 + s) 0xf0000000 ≡ t * 2 ^ 28 =
      omega (arith, high, bit_and_fifteen t, bit_and-zero s) in
    let index : bit_and (t * 2 ^ 28 + s) 0x0fffffff ≡ s =
      omega (arith, low, bit_and-zero t, bit_and-ones 28 s 0x0fffffff hs refl) in
    λ i. (kind i, index i)

-- For a slot index of 28 bits each of the three makers writes a handle that `parseObjectHandle`
-- reads back as that maker's object type and that slot index.
pub parse-make :
    (slot : ℕ)
    → slot < 2 ^ 28
    → (parse_object_handle (make_private_key_handle slot) ≡ (obj_private_key, slot))
      × (parse_object_handle (make_certificate_handle slot) ≡ (obj_certificate, slot))
      × (parse_object_handle (make_public_key_handle slot) ≡ (obj_public_key, slot))
unfolding make_private_key_handle make_certificate_handle make_public_key_handle
parse-make slot h = (
  rw (or-field 1 slot h refl) (parse-field 1 slot (omega arith) h),
  rw (or-field 2 slot h refl) (parse-field 2 slot (omega arith) h),
  rw (or-field 3 slot h refl) (parse-field 3 slot (omega arith) h),
)

-- Whatever a caller hands in as an object handle, the slot index read from it has 28 bits.
pub parse-lt : (handle : ℕ) → (parse_object_handle handle).1 < 2 ^ 28
unfolding parse_object_handle
parse-lt handle =
    let split : handle / 2 ^ 28 * 2 ^ 28 + handle % 2 ^ 28 ≡ handle = omega arith in
    let e : bit_and (handle / 2 ^ 28 * 2 ^ 28 + handle % 2 ^ 28) (0 * 2 ^ 28 + 0x0fffffff)
        ≡ bit_and (handle / 2 ^ 28) 0 * 2 ^ 28 + bit_and (handle % 2 ^ 28) 0x0fffffff =
      bit_and-fields 28 (handle / 2 ^ 28) 0 (handle % 2 ^ 28) 0x0fffffff (omega arith)
        (omega arith) in
    let whole : bit_and handle 0x0fffffff
        ≡ bit_and (handle / 2 ^ 28) 0 * 2 ^ 28 + bit_and (handle % 2 ^ 28) 0x0fffffff =
      rw split at e in
    omega (
      arith,
      whole,
      bit_and-zero (handle / 2 ^ 28),
      bit_and-ones 28 (handle % 2 ^ 28) 0x0fffffff (omega arith) refl,
    )

-- Past 28 bits the type and the index run into one another: the private key of slot 2 ^ 28 has the
-- handle of the private key of slot 0.
handles_collide : make_private_key_handle (2 ^ 28) ≡ make_private_key_handle 0
unfolding make_private_key_handle
handles_collide = refl
