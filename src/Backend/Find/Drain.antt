-- ===== src/Backend/Find/Drain.antt =====
-- A caller that asks for pages until one is empty.
use infisical_pkcs.Base.{
  ℕ, zero, suc, ◌+◌, ◌<◌, ◌≡◌, refl, ap, sym, ◌∙◌, true, List, [], ◌∷◌, ◌++◌, Option, none, some,
  arith, length, take, drop, length-drop, length-take, drop-drop, take-append-drop,
}
use infisical_pkcs.Base.Int.{pos}
use infisical_pkcs.Outcome.{ok}
use infisical_pkcs.Slots.{Session, get}
use infisical_pkcs.Backend.State.{Env, Backend, Method, ◌>>=◌, pure}
use infisical_pkcs.Backend.Find.{find_objects}
use infisical_pkcs.Backend.Find.Pages.{counted, find_objects_page}

abbrev prepend_page : List ℕ → Option (List ℕ) → Option (List ℕ)
prepend_page page none = none
prepend_page page (some rest) = some (page ++ rest)

module _ (e : Env) (sh : ℕ) where
  open e use {service}

  -- Pages of `n` results each, up to the first empty one, in at most `rounds` calls; `none` if there
  -- is no empty page among these.
  abbrev pub drain : (rounds n : ℕ) → Method service.World (Option (List ℕ))
  drain zero n = pure none
  drain (suc rounds) n = find_objects e sh (pos n) >>= λ page. elim page [
    | [] ↦ pure (some [])
    | x ∷ xs ↦ drain rounds n >>= λ rest. pure (prepend_page (x ∷ xs) rest)
  ]

  drain_step :
      (rounds n : ℕ) (b : Backend service.World) (x : ℕ) (xs rest : List ℕ)
      → (find_objects e sh (pos n) b).0 ≡ ok (x ∷ xs)
      → (drain rounds n (find_objects e sh (pos n) b).1).0 ≡ ok (some rest)
      → (drain (suc rounds) n b).0 ≡ ok (some ((x ∷ xs) ++ rest))
  drain_step rounds n b x xs rest page ih = ground (arith, page, ih)

  drain_end :
      (rounds n : ℕ) (b : Backend service.World)
      → (find_objects e sh (pos n) b).0 ≡ ok []
      → (drain (suc rounds) n b).0 ≡ ok (some [])
  drain_end rounds n b page = ground (arith, page)

  drain_page :
      (rounds n : ℕ) (b : Backend service.World) (rest left page : List ℕ)
      → (find_objects e sh (pos n) b).0 ≡ ok page
      → page ++ left ≡ rest
      → (length page ≡ 0 → length rest ≡ 0)
      → (0 < length page → (drain rounds n (find_objects e sh (pos n) b).1).0 ≡ ok (some left))
      → (drain (suc rounds) n b).0 ≡ ok (some rest)
  drain_page rounds n b [] left [] found split stops goes_on = drain_end rounds n b found
  drain_page rounds n b (y ∷ ys) left [] found split stops goes_on =
      absurd (omega (arith, stops refl))
  drain_page rounds n b rest left (x ∷ xs) found split stops goes_on =
      drain_step rounds n b x xs left found (goes_on (omega arith)) ∙ ap (λ r. ok (some r)) split

  -- In a session that searches, a caller that asks for pages of any size but 0 until one is empty is
  -- done after at most one call more than there are results left, and has all of them in order.
  pub drain_lem :
      (rounds n : ℕ) (s : Session) (b : Backend service.World)
      → get sh b.sessions ≡ some s
      → s.find_active ≡ true
      → 0 < n
      → length (drop s.find_pos s.find_results) < rounds
      → (drain rounds n b).0 ≡ ok (some (drop s.find_pos s.find_results))
  drain_lem zero n s b there active some_n enough = absurd (omega (arith, enough))
  drain_lem (suc rounds) n s b there active some_n enough =
      let page = find_objects_page e sh n s b there active in
      let s' : Session = record s { find_pos = s.find_pos + counted e sh n s } in
      let rest = drop s.find_pos s.find_results in
      let size = length-drop s.find_pos s.find_results in
      let taken = length-take (counted e sh n s) rest in
      let split : take (counted e sh n s) rest ++ drop s'.find_pos s.find_results ≡ rest =
        ap (λ r. take (counted e sh n s) rest ++ r)
          (sym (drop-drop s.find_pos (counted e sh n s) s.find_results))
        ∙ take-append-drop (counted e sh n s) rest in
      let fewer = length-drop s'.find_pos s.find_results in
      drain_page rounds n b rest (drop s'.find_pos s.find_results) (take (counted e sh n s) rest)
        page.0 split (λ none_taken. ground (arith, size, taken, none_taken, some_n))
        (λ taken_some.
          drain_lem rounds n s' (find_objects e sh (pos n) b).1 page.1 active some_n
            (ground (arith, size, taken, fewer, enough, taken_some)))
