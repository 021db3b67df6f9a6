-- ===== src/Main/Buffers/Padding.antt =====
-- The padded text fields: `padString` of the backend, and `copyPaddedString` behind it.
use infisical_pkcs.Base.{
  ℕ, zero, suc, ◌-◌, ◌≡◌, refl, ap, [], ◌∷◌, ◌++◌, arith, Bytes, length, IsText, take, replicate,
  length-append, length-take, length-replicate, leb, Bool-cases, inl, inr,
}
use infisical_pkcs.Main.Buffers.{c_string, copy_padded_string}
use infisical_pkcs.Backend.Info.{pad_string}

c_string-IsText : (s : Bytes) → IsText s → c_string s ≡ s
unfolding c_string
c_string-IsText [] h = refl
c_string-IsText (c ∷ cs) (h, hs) = ground (arith, h, c_string-IsText cs hs)

take-IsText : (n : ℕ) (s : Bytes) → IsText s → IsText (take n s)
take-IsText zero s h = tt
take-IsText (suc n) [] h = tt
take-IsText (suc n) (c ∷ cs) (h, hs) = (h, take-IsText n cs hs)

append-IsText : (s t : Bytes) → IsText s → IsText t → IsText (s ++ t)
append-IsText [] t h ht = ht
append-IsText (c ∷ cs) t (h, hs) ht = (h, append-IsText cs t hs ht)

replicate-IsText : (n : ℕ) → IsText (replicate n b' ')
replicate-IsText zero = tt
replicate-IsText (suc n) = (omega arith, replicate-IsText n)

take_all : (n : ℕ) (s : Bytes) → length s ≡ n → take n s ≡ s
take_all zero [] h = refl
take_all zero (c ∷ cs) h = absurd (omega (arith, h))
take_all (suc n) [] h = refl
take_all (suc n) (c ∷ cs) h = ap (λ r. c ∷ r) (take_all n cs (omega (arith, h)))

length_spaces : (n : ℕ) → length (replicate {A = ℕ} n b' ') ≡ n
length_spaces n = length-replicate {A = ℕ} n b' '

length-pad_string : (s : Bytes) (n : ℕ) → length (pad_string s n) ≡ n
unfolding pad_string
length-pad_string s n = ground (
  arith,
  length-take n s,
  length-append s (replicate (n - length s) b' '),
  length_spaces (n - length s),
)

pad_string-IsText : (s : Bytes) (n : ℕ) → IsText s → IsText (pad_string s n)
unfolding pad_string
pad_string-IsText s n h = elim (Bool-cases (leb n (length s))) [
  | inl e ↦ rw e (take-IsText n s h)
  | inr e ↦
      rw e (append-IsText s (replicate (n - length s) b' ') h (replicate-IsText (n - length s)))
]

append_empty : (s : Bytes) → s ++ [] ≡ s
append_empty [] = refl
append_empty (c ∷ cs) = ap (λ r. c ∷ r) (append_empty cs)

copy_full : (s : Bytes) (n : ℕ) → IsText s → length s ≡ n → copy_padded_string s n ≡ s
unfolding copy_padded_string
copy_full s n h e =
    let none_left : n - length s ≡ 0 = omega (arith, e) in
    rw (c_string-IsText s h, none_left, take_all n s e) (append_empty s)

-- A padded field of a structure is filled to its last byte, whatever the text, longer texts and
-- those with a zero byte included; and of a text with no zero byte it holds exactly what
-- `padString` makes of that text, so that padding it twice is padding it once.
pub padding_lem :
    (s : Bytes) (n : ℕ)
    → (length (copy_padded_string s n) ≡ n)
      × (IsText s → copy_padded_string (pad_string s n) n ≡ pad_string s n)
unfolding copy_padded_string
padding_lem s n =
    let c = c_string s in
    (
      ground (
        arith,
        length-take n c,
        length-append (take n c) (replicate (n - length c) b' '),
        length_spaces (n - length c),
      ),
      λ h. copy_full (pad_string s n) n (pad_string-IsText s n h) (length-pad_string s n),
    )
