-- ===== src/Base/Map.antt =====
-- Go maps as association lists, over any type of keys with a Boolean equality.
pub mod Unique
use Prim.Native.Nat.{ℕ}
use mathlib.Core.Path.{◌≡◌, refl}
use mathlib.Core.Logic.{◌≢◌, inl, inr}
use mathlib.Core.Bool.{Bool, true, not}
use mathlib.Core.List.{List, [], ◌∷◌}
use mathlib.Core.Option.{Option, none, some}
use native.Mathlib.Omega.{arith}
use infisical_pkcs.Base.Tests.{◌==◌, if◌then◌else◌, Bool-cases, Option-cases, ==→eq, ==_refl}
use infisical_pkcs.Base.Text.{Bytes, bytes_eq, bytes_eq→eq, bytes_eq_refl}

pub record Key (K : Type 0) : Type 0 where
  pub same : K → K → Bool
  pub same_eq : (a b : K) → same a b ≡ true → a ≡ b
  pub same_refl : (a : K) → same a a ≡ true

instance abbrev pub nat_key : Key ℕ
nat_key = record { same = ◌==◌; same_eq = ==→eq; same_refl = ==_refl }

instance abbrev pub bytes_key : Key Bytes
bytes_key = record { same = bytes_eq; same_eq = bytes_eq→eq; same_refl = bytes_eq_refl }

abbrev pub Map : Type 0 → Type 0 → Type 0
Map K V = List (K × V)

module _ {K V : Type 0} ⦃key : Key K⦄ where
  -- `v, ok := m[k]`
  unfoldable pub lookup : K → Map K V → Option V
  lookup k [] = none
  lookup k ((j, v) ∷ m) = if key.same j k then some v else lookup k m

  -- `m[k] = v`
  unfoldable pub insert : K → V → Map K V → Map K V
  insert k v [] = (k, v) ∷ []
  insert k v ((j, w) ∷ m) = if key.same j k then (j, v) ∷ m else (j, w) ∷ insert k v m

  -- Keeps the entries that pass the test, as `delete` in a loop over the map does.
  unfoldable pub retain : (K → V → Bool) → Map K V → Map K V
  retain p [] = []
  retain p ((j, w) ∷ m) = if p j w then (j, w) ∷ retain p m else retain p m

  -- `delete(m, k)`
  abbrev pub erase : K → Map K V → Map K V
  erase k = retain (λ j _. not (key.same j k))

  -- Rewrites every value.
  unfoldable pub update_all : (V → V) → Map K V → Map K V
  update_all f [] = []
  update_all f ((j, w) ∷ m) = (j, f w) ∷ update_all f m

  pub lookup-insert :
      (k j : K) (v : V) (m : Map K V)
      → lookup j (insert k v m) ≡ (if key.same k j then some v else lookup j m)
  unfolding lookup insert
  lookup-insert k j v [] = refl
  lookup-insert k j v ((i, w) ∷ m) = ground (
    arith,
    key.same_eq i k,
    key.same_eq k j,
    key.same_eq i j,
    key.same_refl i,
    lookup-insert k j v m,
  )

  pub lookup-insert_self : (k : K) (v : V) (m : Map K V) → lookup k (insert k v m) ≡ some v
  lookup-insert_self k v m = rw (lookup-insert k k v m, key.same_refl k)

  pub lookup-update_all :
      (f : V → V) (k : K) (m : Map K V)
      → lookup k (update_all f m) ≡ elim (lookup k m) [ none ↦ none | some v ↦ some (f v) ]
  unfolding lookup update_all
  lookup-update_all f k [] = refl
  lookup-update_all f k ((j, w) ∷ m) = ground (arith, lookup-update_all f k m)

  pub lookup-erase_self : (k : K) (m : Map K V) → lookup k (erase k m) ≡ none
  unfolding lookup retain
  lookup-erase_self k [] = refl
  lookup-erase_self k ((j, w) ∷ m) = ground (arith, lookup-erase_self k m)

  pub lookup-erase_ne : (k j : K) (m : Map K V) → k ≢ j → lookup j (erase k m) ≡ lookup j m
  unfolding lookup retain
  lookup-erase_ne k j [] h = refl
  lookup-erase_ne k j ((i, w) ∷ m) h =
      ground (arith, key.same_eq i k, key.same_eq i j, lookup-erase_ne k j m h)

  -- Every entry satisfies `P`.
  abbrev pub Every {κ} : (K → V → Type κ) → Map K V → Type κ
  Every P [] = Unit
  Every P ((k, v) ∷ m) = P k v × Every P m

  pub lookup-Every {κ} :
      (P : K → V → Type κ) (k : K) {v : V} (m : Map K V) → Every P m → lookup k m ≡ some v → P k v
  unfolding lookup
  lookup-Every P k [] h e = cc
  lookup-Every P k ((j, w) ∷ m) h e = elim (Bool-cases (key.same j k)) [
    | inl hit ↦ ground (arith, hit, key.same_eq j k hit, h.0)
    | inr miss ↦ lookup-Every P k m h.1 (ground (arith, miss))
  ]

  pub insert-Every {κ} :
      (P : K → V → Type κ) (k : K) (v : V) (m : Map K V)
      → Every P m
      → P k v
      → Every P (insert k v m)
  unfolding insert
  insert-Every P k v [] h p = (p, tt)
  insert-Every P k v ((j, w) ∷ m) h p = elim (Bool-cases (key.same j k)) [
    | inl hit ↦ rw hit (let e : j ≡ k = key.same_eq j k hit in rw e (p, h.1))
    | inr miss ↦ rw miss (h.0, insert-Every P k v m h.1 p)
  ]

  pub retain-Every {κ} :
      (P : K → V → Type κ) (test : K → V → Bool) (m : Map K V) → Every P m → Every P (retain test m)
  unfolding retain
  retain-Every P test [] h = tt
  retain-Every P test ((j, w) ∷ m) h = ground (arith, retain-Every P test m h.1)

  pub update_all-Every {κ} :
      (P : K → V → Type κ) (f : V → V) (m : Map K V)
      → ((k : K) (v : V) → P k v → P k (f v))
      → Every P m
      → Every P (update_all f m)
  unfolding update_all
  update_all-Every P f [] keep h = tt
  update_all-Every P f ((j, w) ∷ m) keep h = (keep j w h.0, update_all-Every P f m keep h.1)

  pub Every-mono {κ ι} :
      (P : K → V → Type κ) (Q : K → V → Type ι) (m : Map K V)
      → ((k : K) (v : V) → P k v → Q k v)
      → Every P m
      → Every Q m
  Every-mono P Q [] f h = tt
  Every-mono P Q ((j, w) ∷ m) f h = (f j w h.0, Every-mono P Q m f h.1)

  -- A key that no entry has is not found.
  pub lookup-absent {κ} :
      (P : K → V → Type κ) (k : K) (m : Map K V)
      → Every P m
      → ((v : V) → P k v → ⊥)
      → lookup k m ≡ none
  lookup-absent P k m h out = elim (Option-cases (lookup k m)) [
    | inl e ↦ e
    | inr (v, e) ↦ absurd (out v (lookup-Every P k m h e))
  ]
