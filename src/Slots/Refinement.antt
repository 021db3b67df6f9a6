-- ===== src/Slots/Refinement.antt =====
-- The session manager as a table: what a history of its operations leaves, seen through `get`.
use mathlib.Core.Path.{fun_ext}
use infisical_pkcs.Base.{
  ℕ, ◌+◌, ◌%◌, ◌^◌, ◌≡◌, refl, ap, ◌∙◌, Bool, not, List, [], ◌∷◌, Option, none, some, arith, ◌==◌,
  if◌then◌else◌, Option-cases, inl, inr,
}
use infisical_pkcs.Base.Map.{nat_key, lookup, lookup-insert}
use infisical_pkcs.Base.Map.Unique.{
  IsUnique, insert-IsUnique, retain-IsUnique, update_all-IsUnique, lookup-retain,
}
use infisical_pkcs.Slots.Defs.{
  Session, SessionManager, new_session, open_session, get, put, close, close_all_for_slot,
  set_logged_in, set_all_logged_in_for_slot, set_for_slot,
}
use infisical_pkcs.Slots.Lookup.{get-close, get-set_all}

-- `writes` is what the backend does through the pointer that `get` returned.
pub data Operation : Type 0 where
  opens closes closes_slot : ℕ → Operation
  sets sets_slot : ℕ → Bool → Operation
  writes : ℕ → Session → Operation

unfoldable pub perform : Operation → SessionManager → SessionManager
perform (opens slot) m = (open_session slot m).1
perform (closes h) m = (close h m).1
perform (closes_slot slot) m = close_all_for_slot slot m
perform (sets h on) m = set_logged_in h on m
perform (sets_slot slot on) m = set_all_logged_in_for_slot slot on m
perform (writes h s) m = elim (get h m) [ none ↦ m | some _ ↦ put h s m ]

unfoldable pub perform_all : List Operation → SessionManager → SessionManager
perform_all [] m = m
perform_all (op ∷ ops) m = perform_all ops (perform op m)

-- The table that the manager stands for: which session has a handle, and the next handle.
pub record Table : Type 0 where
  pub at : ℕ → Option Session
  pub next : ℕ

abbrev pub table : SessionManager → Table
table m = record { at = λ h. get h m; next = m.next_id }

-- A change of the sessions that are there, each by its handle.
abbrev pub changed : (ℕ → Session → Option Session) → Table → Table
changed f t = record t { at = λ h. elim (t.at h) [ none ↦ none | some s ↦ f h s ] }

-- What each operation means for the table.
unfoldable pub meaning : Operation → Table → Table
meaning (opens slot) t = record {
  at = λ h. if t.next == h then some (new_session slot) else t.at h;
  next = (t.next + 1) % 2 ^ 64;
}
meaning (closes k) t = changed (λ h s. if k == h then none else some s) t
meaning (closes_slot slot) t = changed (λ h s. if s.slot_id == slot then none else some s) t
meaning (sets k on) t =
    changed (λ h s. if k == h then some (record s { logged_in = on }) else some s) t
meaning (sets_slot slot on) t =
    changed (λ h s. if s.slot_id == slot then some (record s { logged_in = on }) else some s) t
meaning (writes k s') t = changed (λ h s. if k == h then some s' else some s) t

unfoldable pub meaning_all : List Operation → Table → Table
meaning_all [] t = t
meaning_all (op ∷ ops) t = meaning_all ops (meaning op t)

perform-IsUnique :
    (op : Operation) (m : SessionManager) → IsUnique m.sessions → IsUnique (perform op m).sessions
unfolding perform open_session close close_all_for_slot set_logged_in set_all_logged_in_for_slot put
perform-IsUnique (opens slot) m u = insert-IsUnique m.next_id (new_session slot) m.sessions u
perform-IsUnique (closes h) m u = ground (arith, retain-IsUnique (λ j s. not (j == h)) m.sessions u)
perform-IsUnique (closes_slot slot) m u = retain-IsUnique _ m.sessions u
perform-IsUnique (sets h on) m u = elim (Option-cases (lookup h m.sessions)) [
  | inl e ↦ rw (e, set_logged_in) u
  | inr (s, e) ↦
      rw (e, set_logged_in) (insert-IsUnique h (record s { logged_in = on }) m.sessions u)
]
perform-IsUnique (sets_slot slot on) m u = update_all-IsUnique (set_for_slot slot on) m.sessions u
perform-IsUnique (writes h s) m u = elim (Option-cases (get h m)) [
  | inl e ↦ rw (e, perform) u
  | inr (t, e) ↦ rw (e, perform) (insert-IsUnique h s m.sessions u)
]

next-perform :
    (op : Operation) (m : SessionManager) → (perform op m).next_id ≡ (meaning op (table m)).next
unfolding perform meaning open_session close close_all_for_slot set_logged_in
    set_all_logged_in_for_slot put
next-perform (opens slot) m = refl
next-perform (closes h) m = ground arith
next-perform (closes_slot slot) m = refl
next-perform (sets h on) m = ground arith
next-perform (sets_slot slot on) m = refl
next-perform (writes h s) m = ground arith

get-perform :
    (op : Operation) (m : SessionManager) (j : ℕ)
    → IsUnique m.sessions
    → get j (perform op m) ≡ (meaning op (table m)).at j
unfolding perform meaning
get-perform (opens slot) m j u =
    unfold open_session get in lookup-insert m.next_id j (new_session slot) m.sessions
get-perform (closes h) m j u = ground (arith, get-close h j m)
get-perform (closes_slot slot) m j u =
    unfold close_all_for_slot get in
    ground (arith, lookup-retain (λ h s. not (s.slot_id == slot)) j m.sessions u)
get-perform (sets h on) m j u =
    unfold set_logged_in get in
    elim (Option-cases (lookup h m.sessions)) [
      | inl e ↦ ground (arith, e)
      | inr (s, e) ↦ ground (arith, e, lookup-insert h j (record s { logged_in = on }) m.sessions)
    ]
get-perform (sets_slot slot on) m j u = ground (arith, get-set_all slot j on m)
get-perform (writes h s) m j u =
    unfold put get in
    elim (Option-cases (lookup h m.sessions)) [
      | inl e ↦ ground (arith, e)
      | inr (t, e) ↦ ground (arith, e, lookup-insert h j s m.sessions)
    ]

-- Seen through `get`, every operation of the manager is its meaning for the table.
perform-meaning :
    (op : Operation) (m : SessionManager)
    → IsUnique m.sessions
    → table (perform op m) ≡ meaning op (table m)
perform-meaning op m u =
    let same_at = fun_ext (λ j. get-perform op m j u) in
    let same_next = next-perform op m in λ i. record { at = same_at i; next = same_next i }

-- Every history of operations of the session manager, from a manager in which no handle stands
-- twice, leaves the table that the meanings of the operations leave: opening adds a new session under
-- the next handle, closing removes one session or all of a slot, a login state is set in one session
-- or in all of a slot, a write through a pointer changes its own session, and nothing else changes.
pub perform_all-refines :
    (ops : List Operation) (m : SessionManager)
    → IsUnique m.sessions
    → table (perform_all ops m) ≡ meaning_all ops (table m)
unfolding perform_all meaning_all
perform_all-refines [] m u = refl
perform_all-refines (op ∷ ops) m u =
    perform_all-refines ops (perform op m) (perform-IsUnique op m u)
    ∙ ap (meaning_all ops) (perform-meaning op m u)
