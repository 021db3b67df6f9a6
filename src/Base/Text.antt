-- ===== src/Base/Text.antt =====
-- Go strings and byte slices as lists of bytes, and what the source uses of the packages `strings`
-- and `bytes`.
use Prim.Native.Nat.{ℕ, suc, ◌+◌, ◌-◌}
use Prim.Native.Char.{code}
use Prim.Native.String.{String}
use mathlib.Core.Path.{◌≡◌, refl}
use mathlib.Core.Logic.{◌≢◌, inl, inr}
use mathlib.Core.Bool.{Bool, true, false, ◌&&◌, ◌||◌}
use mathlib.Core.List.{List, [], ◌∷◌, ◌++◌, map}
use mathlib.Core.Option.{Option, none, some}
use native.Mathlib.Omega.{arith}
use infisical_pkcs.Base.Tests.{leb, ◌==◌, if◌then◌else◌, ==_refl, Option-cases}
use infisical_pkcs.Base.Lists.{length, take, drop, any, All}

abbrev pub Bytes : Type 0
Bytes = List ℕ

-- The bytes of an ASCII literal.
abbrev pub text : String → Bytes
text String.[] = []
text (String.◌∷◌ c s) = code c ∷ text s

unfoldable pub bytes_eq : Bytes → Bytes → Bool
bytes_eq [] [] = true
bytes_eq (x ∷ xs) (y ∷ ys) = x == y && bytes_eq xs ys
bytes_eq _ _ = false

pub bytes_eq→eq : (s t : Bytes) → bytes_eq s t ≡ true → s ≡ t
unfolding bytes_eq
bytes_eq→eq [] [] h = refl
bytes_eq→eq (x ∷ xs) (y ∷ ys) h = ground (arith, bytes_eq→eq xs ys)
bytes_eq→eq (x ∷ xs) [] h = cc
bytes_eq→eq [] (y ∷ ys) h = cc

pub bytes_eq-sym : (s t : Bytes) → bytes_eq s t ≡ bytes_eq t s
unfolding bytes_eq
bytes_eq-sym [] [] = refl
bytes_eq-sym (x ∷ xs) (y ∷ ys) = ground (arith, bytes_eq-sym xs ys)
bytes_eq-sym (x ∷ xs) [] = refl
bytes_eq-sym [] (y ∷ ys) = refl

pub bytes_eq_refl : (s : Bytes) → bytes_eq s s ≡ true
unfolding bytes_eq
bytes_eq_refl [] = refl
bytes_eq_refl (x ∷ xs) = rw (==_refl x) (bytes_eq_refl xs)

pub ruleset bytes_tests = (bytes_eq→eq, bytes_eq_refl)

-- A byte string with no zero byte.
abbrev pub IsText : Bytes → Type 0
IsText = All (λ (c : ℕ). c ≢ 0)

-- `s == ""`
abbrev pub is_empty : Bytes → Bool
is_empty [] = true
is_empty (x ∷ xs) = false

-- `slices.Contains`
abbrev pub contains_text : List Bytes → Bytes → Bool
contains_text names s = any (bytes_eq s) names

unfoldable pub has_prefix : Bytes → Bytes → Bool
has_prefix s [] = true
has_prefix [] (p ∷ ps) = false
has_prefix (x ∷ xs) (p ∷ ps) = x == p && has_prefix xs ps

unfoldable pub has_suffix : Bytes → Bytes → Bool
unfolding bytes_eq
has_suffix s p = leb (length p) (length s) && bytes_eq (drop (length s - length p) s) p

-- `strings.TrimSuffix`
unfoldable pub trim_suffix : Bytes → Bytes → Bytes
unfolding has_suffix
trim_suffix s p = if has_suffix s p then take (length s - length p) s else s

-- `strings.Contains`
unfoldable pub contains : Bytes → Bytes → Bool
unfolding has_prefix
contains [] p = has_prefix [] p
contains (x ∷ xs) p = has_prefix (x ∷ xs) p || contains xs p

-- `strings.IndexByte`: the offset of the first occurrence.
unfoldable pub index_byte : ℕ → Bytes → Option ℕ
index_byte c [] = none
index_byte c (x ∷ xs) = elim (x == c) [
  | true ↦ some 0
  | false ↦ elim (index_byte c xs) [ none ↦ none | some i ↦ some (suc i) ]
]

-- `strings.Cut` at one byte: what stands before and behind it, and whether it was found.
unfoldable pub cut : ℕ → Bytes → Option (Bytes × Bytes)
cut c [] = none
cut c (x ∷ xs) = elim (x == c) [
  | true ↦ some ([], xs)
  | false ↦ elim (cut c xs) [ none ↦ none | some (a, b) ↦ some (x ∷ a, b) ]
]

-- A cut loses nothing but the separator, and the first part does not hold it.
pub append-cut :
    (c : ℕ) (s : Bytes) {a b : Bytes}
    → cut c s ≡ some (a, b)
    → (s ≡ a ++ c ∷ b) × (index_byte c a ≡ none)
unfolding cut index_byte
append-cut c [] h = cc
append-cut c (x ∷ xs) {a} {b} h = elim (Option-cases (cut c xs)) [
  | inl e ↦ ground (arith, e)
  | inr ((a', b'), e) ↦ ground (arith, e, append-cut c xs e)
]

-- What stands behind the last byte that passes the test, or all of the text.
unfoldable pub after_last : (ℕ → Bool) → Bytes → Bytes
unfolding any
after_last p [] = []
after_last p (x ∷ xs) = elim (any p xs) [
  | true ↦ after_last p xs
  | false ↦ elim (p x) [ true ↦ xs | false ↦ x ∷ xs ]
]

-- `strings.ToLower`: byte by byte on ASCII text. `unicode` is the mapping of any other text.
abbrev pub lower_byte : ℕ → ℕ
lower_byte c = if leb b'A' c && leb c b'Z' then c + 32 else c

unfoldable pub to_lower : (unicode : Bytes → Bytes) → Bytes → Bytes
unfolding any
to_lower unicode s = if any (leb 128) s then unicode s else map lower_byte s
