-- ===== src/Slots/Lookup.antt =====
-- What a look at a session finds after each operation of the manager.
use infisical_pkcs.Base.{ℕ, ◌≡◌, ◌≢◌, Bool, none, some, arith, ◌==◌, if◌then◌else◌}
use infisical_pkcs.Base.Map.{
  nat_key, lookup-insert, lookup-insert_self, lookup-update_all, lookup-erase_self, lookup-erase_ne,
  lookup-absent,
}
use infisical_pkcs.Slots.Defs.{
  Session, SessionManager, new_session, open_session, get, put, close, set_all_logged_in_for_slot,
  set_for_slot,
}
use infisical_pkcs.Slots.Sessions.{IsValid, IsEntry}

pub get-put : (h : ℕ) (s : Session) (m : SessionManager) → get h (put h s m) ≡ some s
unfolding get put
get-put h s m = lookup-insert_self h s m.sessions

pub get-put_ne : (h j : ℕ) (s : Session) (m : SessionManager) → h ≢ j → get j (put h s m) ≡ get j m
unfolding get put
get-put_ne h j s m ne = ground (arith, lookup-insert h j s m.sessions)

-- Closing a session forgets it, and no other.
pub get-close :
    (h j : ℕ) (m : SessionManager) → get j (close h m).1 ≡ (if h == j then none else get j m)
unfolding get close
get-close h j m = ground (arith, lookup-erase_self h m.sessions, lookup-erase_ne h j m.sessions)

-- With valid sessions, opening one gives a handle that was free, with a new session, and touches no
-- other.
pub get-open :
    (slot j : ℕ) (m : SessionManager)
    → IsValid m
    → let (h, m') = open_session slot m in
      (get h m ≡ none) × (get j m' ≡ (if h == j then some (new_session slot) else get j m))
unfolding get open_session
get-open slot j m v = (
  lookup-absent (IsEntry m.next_id) m.next_id m.sessions v.entries (λ s h. omega (arith, h.1)),
  lookup-insert m.next_id j (new_session slot) m.sessions,
)

-- Setting the login state of a slot sets it in the sessions of that slot, and changes nothing else.
pub get-set_all :
    (slot j : ℕ) (on : Bool) (m : SessionManager)
    → get j (set_all_logged_in_for_slot slot on m)
      ≡ elim (get j m) [ none ↦ none | some s ↦ some (set_for_slot slot on s) ]
unfolding get set_all_logged_in_for_slot
get-set_all slot j on m = lookup-update_all (set_for_slot slot on) j m.sessions
