-- ===== src/Base/Bits.antt =====
-- Laws of `bit_and` and `bit_or` at variables, for masks and for fields that do not overlap.
use Prim.Native.Nat.{max, bit_and, bit_or, digits, bit_and-bitwise, bit_or-bitwise}
use native.Mathlib.Nat.{pow-suc}
use infisical_pkcs.Base.{ℕ, zero, suc, ◌+◌, ◌*◌, ◌/◌, ◌%◌, ◌^◌, ◌≤◌, ◌<◌, min, ◌≡◌, refl, arith}

-- The digit recursion does not depend on its fuel, once that covers the first argument.
digits_fuel :
    (f : ℕ → ℕ) (g : ℕ → ℕ → ℕ) (n m a b : ℕ) → a ≤ n → a ≤ m → digits f g n a b ≡ digits f g m a b
digits_fuel f g zero zero a b p q = refl
digits_fuel f g zero (suc m) zero b p q = refl
digits_fuel f g zero (suc m) (suc a) b p q = absurd (omega arith)
digits_fuel f g (suc n) zero zero b p q = refl
digits_fuel f g (suc n) zero (suc a) b p q = absurd (omega arith)
digits_fuel f g (suc n) (suc m) zero b p q = refl
digits_fuel f g (suc n) (suc m) (suc a) b p q =
    omega (arith, digits_fuel f g n m (suc a / 2) (b / 2) (omega arith) (omega arith))

bit_and-step : (a b : ℕ) → bit_and a b ≡ bit_and (a / 2) (b / 2) * 2 + min (a % 2) (b % 2)
bit_and-step zero b = omega (arith, bit_and-bitwise 0 b, bit_and-bitwise 0 (b / 2))
bit_and-step (suc a) b = omega (
  arith,
  bit_and-bitwise (suc a) b,
  bit_and-bitwise (suc a / 2) (b / 2),
  digits_fuel (λ c. zero) min a (suc a / 2) (suc a / 2) (b / 2) (omega arith) (omega arith),
)

bit_or-step : (a b : ℕ) → bit_or a b ≡ bit_or (a / 2) (b / 2) * 2 + max (a % 2) (b % 2)
bit_or-step zero b = omega (arith, bit_or-bitwise 0 b, bit_or-bitwise 0 (b / 2))
bit_or-step (suc a) b = omega (
  arith,
  bit_or-bitwise (suc a) b,
  bit_or-bitwise (suc a / 2) (b / 2),
  digits_fuel (λ c. c) max a (suc a / 2) (suc a / 2) (b / 2) (omega arith) (omega arith),
)

half-field : (p q r : ℕ) → (q * (p * 2) + r) / 2 ≡ q * p + r / 2
half-field p q r = omega arith

parity-field : (p q r : ℕ) → (q * (p * 2) + r) % 2 ≡ r % 2
parity-field p q r = omega arith

-- Both operations work on the fields above and below bit `k` apart.
pub bit_and-fields :
    (k q m r s : ℕ)
    → r < 2 ^ k
    → s < 2 ^ k
    → bit_and (q * 2 ^ k + r) (m * 2 ^ k + s) ≡ bit_and q m * 2 ^ k + bit_and r s
bit_and-fields zero q m zero zero p t =
    let e : q * 2 ^ zero + zero ≡ q = omega arith in
    let f : m * 2 ^ zero + zero ≡ m = omega arith in rw (e, f) (omega arith)
bit_and-fields zero q m zero (suc s) p t = absurd (omega arith)
bit_and-fields zero q m (suc r) s p t = absurd (omega arith)
bit_and-fields (suc k) q m r s p t =
    let below : (n : ℕ) → n < 2 ^ suc k → n / 2 < 2 ^ k = λ n h. omega (arith, pow-suc 2 k) in
    rw
      (
        pow-suc 2 k,
        bit_and-step (q * (2 ^ k * 2) + r) (m * (2 ^ k * 2) + s),
        half-field (2 ^ k) q r,
        half-field (2 ^ k) m s,
        parity-field (2 ^ k) q r,
        parity-field (2 ^ k) m s,
      )
      (omega
        (arith, bit_and-step r s, bit_and-fields k q m (r / 2) (s / 2) (below r p) (below s t)))

pub bit_or-fields :
    (k q m r s : ℕ)
    → r < 2 ^ k
    → s < 2 ^ k
    → bit_or (q * 2 ^ k + r) (m * 2 ^ k + s) ≡ bit_or q m * 2 ^ k + bit_or r s
bit_or-fields zero q m zero zero p t =
    let e : q * 2 ^ zero + zero ≡ q = omega arith in
    let f : m * 2 ^ zero + zero ≡ m = omega arith in rw (e, f) (omega arith)
bit_or-fields zero q m zero (suc s) p t = absurd (omega arith)
bit_or-fields zero q m (suc r) s p t = absurd (omega arith)
bit_or-fields (suc k) q m r s p t =
    let below : (n : ℕ) → n < 2 ^ suc k → n / 2 < 2 ^ k = λ n h. omega (arith, pow-suc 2 k) in
    rw
      (
        pow-suc 2 k,
        bit_or-step (q * (2 ^ k * 2) + r) (m * (2 ^ k * 2) + s),
        half-field (2 ^ k) q r,
        half-field (2 ^ k) m s,
        parity-field (2 ^ k) q r,
        parity-field (2 ^ k) m s,
      )
      (omega (arith, bit_or-step r s, bit_or-fields k q m (r / 2) (s / 2) (below r p) (below s t)))

bit_and-zero_below : (n a : ℕ) → a ≤ n → bit_and a 0 ≡ 0
bit_and-zero_below n zero h = refl
bit_and-zero_below zero (suc a) h = absurd (omega arith)
bit_and-zero_below (suc n) (suc a) h =
    omega (arith, bit_and-step (suc a) 0, bit_and-zero_below n (suc a / 2) (omega arith))

pub bit_and-zero : (a : ℕ) → bit_and a 0 ≡ 0
bit_and-zero a = bit_and-zero_below a a (omega arith)

pub zero-bit_or : (a : ℕ) → bit_or 0 a ≡ a
zero-bit_or a = bit_or-bitwise 0 a

-- A mask of `k` ones keeps every number of `k` bits.
pub bit_and-ones : (k r m : ℕ) → r < 2 ^ k → m + 1 ≡ 2 ^ k → bit_and r m ≡ r
bit_and-ones zero r m h e = let z : r ≡ 0 = omega arith in rw z (omega (arith, bit_and-bitwise 0 m))
bit_and-ones (suc k) r m h e = omega (
  arith,
  pow-suc 2 k,
  bit_and-step r m,
  bit_and-ones k (r / 2) (m / 2) (omega (arith, pow-suc 2 k)) (omega (arith, pow-suc 2 k)),
)

pub bit_and_fifteen : (q : ℕ) → bit_and q 15 ≡ q % 16
bit_and_fifteen q = omega (
  arith,
  bit_and-step q 15,
  bit_and-step (q / 2) 7,
  bit_and-step (q / 2 / 2) 3,
  bit_and-step (q / 2 / 2 / 2) 1,
  bit_and-zero (q / 2 / 2 / 2 / 2),
)
