-- ===== src/Scope/Truncation.antt =====
-- Where a long command line is cut.
use infisical_pkcs.Base.{
  ℕ, zero, suc, ◌≤◌, ◌<◌, ◌≡◌, refl, true, [], ◌∷◌, none, some, Bytes, arith, length, take,
  get_elem?, Option-cases, Bool-cases, inl, inr, ◌⊎◌,
}
use infisical_pkcs.Scope.Command.{max_command_len, rune_start, rune_cut, truncate_command}

-- A position that does not split a rune.
abbrev pub IsBoundary : Bytes → ℕ → Type 0
IsBoundary s n = (n ≡ 0) ⊎ (c : ℕ) × (get_elem? s n ≡ some c) × (rune_start c ≡ true)

none-length : (s : Bytes) (i : ℕ) → get_elem? s i ≡ none → length s ≤ i
none-length [] i e = omega arith
none-length (x ∷ xs) zero e = absurd (ground (arith, e))
none-length (x ∷ xs) (suc i) e = omega (arith, none-length xs i e)

rune_cut_lem : (s : Bytes) (n : ℕ) → n < length s → (rune_cut s n ≤ n) × IsBoundary s (rune_cut s n)
unfolding rune_cut
rune_cut_lem s zero below = (omega arith, inl refl)
rune_cut_lem s (suc n) below =
    let rest = rune_cut_lem s n (omega arith) in
    elim (Option-cases (get_elem? s (suc n))) [
      | inl e ↦ absurd (omega (arith, none-length s (suc n) e))
      | inr (c, e) ↦ elim (Bool-cases (rune_start c)) [
        | inl starts ↦
            let same : rune_cut s (suc n) ≡ suc n = ground (arith, e, starts) in
            rw same (omega arith, inr (c, e, starts))
        | inr continues ↦
            let same : rune_cut s (suc n) ≡ rune_cut s n = ground (arith, e, continues) in
            rw same (omega (arith, rest.0), rest.1)
      ]
    ]

-- A command line of at most 32767 bytes stays as it is. Of a longer one a beginning stays, of at
-- most 32767 bytes, that is empty or ends where the next byte starts a rune.
pub truncate_command_lem :
    (command : Bytes)
    → (length command ≤ max_command_len → truncate_command command ≡ command)
      × (max_command_len < length command
          → (n : ℕ) × (truncate_command command ≡ take n command)
            × (n ≤ max_command_len)
            × IsBoundary command n)
unfolding truncate_command
truncate_command_lem command = (
  λ short. ground (arith, short),
  λ long.
      let cut_at = rune_cut_lem command max_command_len long in
      (rune_cut command max_command_len, ground (arith, long), cut_at.0, cut_at.1),
)
