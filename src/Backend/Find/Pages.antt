-- ===== src/Backend/Find/Pages.antt =====
-- A search read page by page.
use infisical_pkcs.Base.{
  ℕ, zero, suc, ◌+◌, ◌-◌, ◌≤◌, ◌≡◌, refl, ap, true, List, [], ◌∷◌, ◌++◌, some, arith, length, take,
  drop, length-drop, drop-drop, ltb, if◌then◌else◌,
}
use infisical_pkcs.Base.Int.{pos}
use infisical_pkcs.Outcome.{ok}
use infisical_pkcs.Slots.{Session, get}
use infisical_pkcs.Slots.Lookup.{get-put}
use infisical_pkcs.Backend.State.{Env, Backend, Method, ◌>>=◌, pure, get_session, write_session}
use infisical_pkcs.Backend.Find.{find_objects, find_objects_on, page_size}

module _ {ℓ} {A : Type ℓ} where
  take-append-take : (n m : ℕ) (xs : List A) → take n xs ++ take m (drop n xs) ≡ take (n + m) xs
  take-append-take zero m xs = let e : zero + m ≡ m = omega arith in rw e
  take-append-take (suc n) zero [] = let e : suc n + zero ≡ suc n = omega arith in rw e
  take-append-take (suc n) (suc m) [] =
      let e : suc n + suc m ≡ suc (n + suc m) = omega arith in rw e
  take-append-take (suc n) m (x ∷ xs) =
      let e : suc n + m ≡ suc (n + m) = omega arith in
      rw e (ap (λ r. x ∷ r) (take-append-take n m xs))

  take_all : (n : ℕ) (xs : List A) → length xs ≤ n → take n xs ≡ xs
  take_all zero [] h = refl
  take_all (suc n) [] h = refl
  take_all zero (x ∷ xs) h = absurd (omega arith)
  take_all (suc n) (x ∷ xs) h = ap (λ r. x ∷ r) (take_all n xs (omega arith))

  drop_all : (n : ℕ) (xs : List A) → length xs ≤ n → drop n xs ≡ []
  drop_all zero [] h = refl
  drop_all (suc n) [] h = refl
  drop_all zero (x ∷ xs) h = absurd (omega arith)
  drop_all (suc n) (x ∷ xs) h = drop_all n xs (omega arith)

abbrev total : List ℕ → ℕ
total [] = 0
total (n ∷ ns) = n + total ns

module _ (e : Env) (sh : ℕ) where
  open e use {service}

  -- A call of `FindObjects` for each page size, with all their results joined.
  abbrev pub find_pages : List ℕ → Method service.World (List ℕ)
  find_pages [] = pure []
  find_pages (n ∷ ns) =
      find_objects e sh (pos n) >>= λ page. find_pages ns >>= λ rest. pure (page ++ rest)

  -- How many results a page of `n` has.
  abbrev pub counted : ℕ → Session → ℕ
  counted n s =
      let remaining = length s.find_results - s.find_pos in if ltb remaining n then remaining else n

  pub find_objects_page :
      (n : ℕ) (s : Session) (b : Backend service.World)
      → get sh b.sessions ≡ some s
      → s.find_active ≡ true
      → let (r, b') = find_objects e sh (pos n) b in
        (r ≡ ok (take (counted n s) (drop s.find_pos s.find_results)))
        × (get sh b'.sessions ≡ some (record s { find_pos = s.find_pos + counted n s }))
  unfolding find_objects find_objects_on get_session page_size write_session
  find_objects_page n s b there active = ground (
    arith,
    there,
    active,
    get-put sh (record s { find_pos = s.find_pos + counted n s }) b.sessions,
  )

  take-counted :
      (n : ℕ) (s : Session)
      → take (counted n s) (drop s.find_pos s.find_results)
        ≡ take n (drop s.find_pos s.find_results)
  take-counted n s =
      let rest = drop s.find_pos s.find_results in
      let size = length-drop s.find_pos s.find_results in
      ground (arith, size, take_all n rest, take_all (length s.find_results - s.find_pos) rest)

  drop-counted :
      (n m : ℕ) (s : Session)
      → take m (drop (s.find_pos + counted n s) s.find_results)
        ≡ take m (drop n (drop s.find_pos s.find_results))
  drop-counted n m s =
      let rest = drop s.find_pos s.find_results in
      let size = length-drop s.find_pos s.find_results in
      ground (
        arith,
        size,
        drop_all n rest,
        drop_all (length s.find_results - s.find_pos) rest,
        drop-drop s.find_pos (counted n s) s.find_results,
      )

  -- In a session that searches, the pages that calls of `FindObjects` give out, joined, are the next
  -- results in order, as many as the calls ask for together or as there are: none is skipped,
  -- repeated or made up.
  pub find_pages_lem :
      (sizes : List ℕ) (s : Session) (b : Backend service.World)
      → get sh b.sessions ≡ some s
      → s.find_active ≡ true
      → (find_pages sizes b).0 ≡ ok (take (total sizes) (drop s.find_pos s.find_results))
  find_pages_lem [] s b there active = refl
  find_pages_lem (n ∷ ns) s b there active =
      let page = find_objects_page n s b there active in
      let s' : Session = record s { find_pos = s.find_pos + counted n s } in
      let rest = find_pages_lem ns s' (find_objects e sh (pos n) b).1 page.1 active in
      ground (
        arith,
        page.0,
        rest,
        take-counted n s,
        drop-counted n (total ns) s,
        take-append-take n (total ns) (drop s.find_pos s.find_results),
      )
