-- ===== src/Config/Durations.antt =====
-- Durations given in days.
use infisical_pkcs.Base.{
  ℕ, ◌+◌, ◌-◌, ◌*◌, ◌^◌, ◌≤◌, ◌<◌, ◌≡◌, refl, text, arith, has_suffix, trim_suffix, bytes_eq,
}
use infisical_pkcs.Base.Int.{pos, negsuc, mul_64, to_bits, of_bits}
use infisical_pkcs.Outcome.{ok}
use infisical_pkcs.Config.Defs.{
  Library, hour, days_duration, check_duration, parse_duration, atoi, digits_value,
}

-- A number of days up to 106751 becomes exactly that many times 24 hours; from 106752 to 213503 days
-- the product has left int64 and the duration is negative; and 2 ^ 48 days more give the same
-- duration again.
pub days_duration_lem :
    (n : ℕ)
    → (n ≤ 106751 → days_duration (pos n) ≡ pos (n * (24 * hour)))
      × (106751 < n → n ≤ 213503 → days_duration (pos n) ≡ negsuc (2 ^ 64 - n * (24 * hour) - 1))
      × (days_duration (pos (n + 2 ^ 48)) ≡ days_duration (pos n))
unfolding days_duration mul_64 to_bits of_bits
days_duration_lem n = (λ h. ground arith, λ h h'. ground arith, ground arith)

-- 213504 days, more than 584 years, pass the check that a signing duration has at most 30 days.
overflow_accepted : (lib : Library) → check_duration lib (text "213504d") ≡ ok tt
unfolding check_duration parse_duration has_suffix trim_suffix bytes_eq atoi digits_value
    days_duration mul_64 to_bits of_bits
overflow_accepted lib = refl
