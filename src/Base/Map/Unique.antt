-- ===== src/Base/Map/Unique.antt =====
-- Maps in which no key stands twice: what the operations on maps keep, and what a test on the entries
-- leaves of a lookup.
use infisical_pkcs.Base.Tests.{if◌then◌else◌, Bool-cases}
use infisical_pkcs.Base.Map.{
  Key, Map, lookup, insert, retain, update_all, lookup-insert, lookup-update_all,
}
use mathlib.Core.Path.{◌≡◌, refl}
use mathlib.Core.Logic.{inl, inr}
use mathlib.Core.Bool.{Bool, false}
use mathlib.Core.List.{[], ◌∷◌}
use mathlib.Core.Option.{none, some}
use native.Mathlib.Omega.{arith}

same_sym : {K : Type 0} (key : Key K) (j k : K) → key.same j k ≡ false → key.same k j ≡ false
same_sym key j k other = ground (arith, other, key.same_eq k j, key.same_refl k, key.same_refl j)

-- No key stands twice, as in a Go map.
module _ {K V : Type 0} ⦃key : Key K⦄ where
  abbrev pub IsUnique : Map K V → Type 0
  IsUnique [] = Unit
  IsUnique ((k, v) ∷ m) = (lookup k m ≡ none) × IsUnique m

  lookup-insert-none :
      (j k : K) (v : V) (m : Map K V)
      → key.same k j ≡ false
      → lookup j m ≡ none
      → lookup j (insert k v m) ≡ none
  lookup-insert-none j k v m other absent = ground (arith, other, absent, lookup-insert k j v m)

  pub insert-IsUnique : (k : K) (v : V) (m : Map K V) → IsUnique m → IsUnique (insert k v m)
  unfolding insert
  insert-IsUnique k v [] u = (unfold lookup in refl, tt)
  insert-IsUnique k v ((j, w) ∷ m) u = elim (Bool-cases (key.same j k)) [
    | inl hit ↦ rw hit u
    | inr miss ↦
        rw miss (lookup-insert-none j k v m (same_sym key j k miss) u.0, insert-IsUnique k v m u.1)
  ]

  lookup-retain-none :
      (p : K → V → Bool) (k : K) (m : Map K V) → lookup k m ≡ none → lookup k (retain p m) ≡ none
  unfolding lookup retain
  lookup-retain-none p k [] absent = refl
  lookup-retain-none p k ((j, w) ∷ m) absent = ground (arith, absent, lookup-retain-none p k m)

  pub retain-IsUnique : (p : K → V → Bool) (m : Map K V) → IsUnique m → IsUnique (retain p m)
  unfolding retain
  retain-IsUnique p [] u = tt
  retain-IsUnique p ((j, w) ∷ m) u = elim (Bool-cases (p j w)) [
    | inl kept ↦ rw kept (lookup-retain-none p j m u.0, retain-IsUnique p m u.1)
    | inr gone ↦ rw gone (retain-IsUnique p m u.1)
  ]

  pub lookup-retain :
      (p : K → V → Bool) (k : K) (m : Map K V)
      → IsUnique m
      → lookup k (retain p m)
        ≡ elim (lookup k m) [ none ↦ none | some v ↦ if p k v then some v else none ]
  unfolding lookup retain
  lookup-retain p k [] u = refl
  lookup-retain p k ((j, w) ∷ m) u =
      ground (arith, key.same_eq j k, u.0, lookup-retain p k m u.1, lookup-retain-none p j m u.0)

  pub update_all-IsUnique : (f : V → V) (m : Map K V) → IsUnique m → IsUnique (update_all f m)
  unfolding update_all
  update_all-IsUnique f [] u = tt
  update_all-IsUnique f ((j, w) ∷ m) u =
      (ground (arith, u.0, lookup-update_all f j m), update_all-IsUnique f m u.1)
