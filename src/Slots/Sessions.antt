-- ===== src/Slots/Sessions.antt =====
-- What holds of every session that the manager keeps, and that its operations preserve it.
use infisical_pkcs.Base.{
  ℕ, ◌+◌, ◌%◌, ◌^◌, ◌≤◌, ◌<◌, ◌≡◌, refl, Bool, true, false, [], some, arith, Bytes, length,
  length-append, Option-cases, inl, inr, not, ◌==◌,
}
use infisical_pkcs.Base.Map.{
  Every, nat_key, lookup, lookup-Every, insert-Every, retain-Every, update_all-Every, Every-mono,
}
use infisical_pkcs.Slots.Defs.{
  Session, SessionManager, new_session, open_session, get, put, close, close_all_for_slot,
  set_logged_in, set_all_logged_in_for_slot, set_for_slot, append_sign_buffer, max_sign_buffer,
}

-- A session reads its search results within their bounds, buffers at most 16 MiB and only while it
-- signs, and has a key of 28 bits.
pub record IsSound (s : Session) : Type 0 where
  pub page : s.find_pos ≤ length s.find_results
  pub small : length s.sign_buffer ≤ max_sign_buffer
  pub idle : s.sign_active ≡ false → s.sign_buffer ≡ []
  pub key : s.sign_key_index < 2 ^ 28

abbrev pub IsEntry : ℕ → ℕ → Session → Type 0
IsEntry next handle s = (0 < handle) × (handle < next) × IsSound s

-- Handles are positive and below the next one, and every session is sound.
pub record IsValid (m : SessionManager) : Type 0 where
  pub started : 0 < m.next_id
  pub entries : Every (IsEntry m.next_id) m.sessions

pub new_session-IsSound : (slot : ℕ) → IsSound (new_session slot)
unfolding new_session
new_session-IsSound slot = record {
  page = omega arith;
  small = omega arith;
  idle = λ h. refl;
  key = omega arith;
}

pub open_session-IsValid :
    (slot : ℕ) (m : SessionManager)
    → m.next_id + 1 < 2 ^ 64
    → IsValid m
    → IsValid (open_session slot m).1
unfolding open_session
open_session-IsValid slot m room v =
    let e : (m.next_id + 1) % 2 ^ 64 ≡ m.next_id + 1 = omega arith in
    record {
      started = rw e (omega arith);
      entries = rw e (
          insert-Every (IsEntry (m.next_id + 1)) m.next_id (new_session slot) m.sessions
            (Every-mono (IsEntry m.next_id) (IsEntry (m.next_id + 1)) m.sessions
              (λ k s h. (h.0, omega (arith, h.1), h.2)) v.entries)
            (v.started, omega arith, new_session-IsSound slot));
    }

pub put-IsValid :
    (handle : ℕ) (s s' : Session) (m : SessionManager)
    → IsValid m
    → get handle m ≡ some s
    → IsSound s'
    → IsValid (put handle s' m)
unfolding get put
put-IsValid handle s s' m v e sound =
    let old = lookup-Every (IsEntry m.next_id) handle m.sessions v.entries e in
    record {
      started = v.started;
      entries =
          insert-Every (IsEntry m.next_id) handle s' m.sessions v.entries (old.0, old.1, sound);
    }

pub get-IsSound :
    (handle : ℕ) {s : Session} (m : SessionManager) → IsValid m → get handle m ≡ some s → IsSound s
unfolding get
get-IsSound handle m v e = (lookup-Every (IsEntry m.next_id) handle m.sessions v.entries e).2

pub close-IsValid : (handle : ℕ) (m : SessionManager) → IsValid m → IsValid (close handle m).1
unfolding close
close-IsValid handle m v =
    ground (arith, retain-Every (IsEntry m.next_id) (λ k s. not (k == handle)) m.sessions v.entries)

pub close_all_for_slot-IsValid :
    (slot : ℕ) (m : SessionManager) → IsValid m → IsValid (close_all_for_slot slot m)
unfolding close_all_for_slot
close_all_for_slot-IsValid slot m v = record {
  started = v.started;
  entries = retain-Every (IsEntry m.next_id) _ m.sessions v.entries;
}

set_for_slot-IsSound :
    (slot : ℕ) (on : Bool) (s : Session) → IsSound s → IsSound (set_for_slot slot on s)
set_for_slot-IsSound slot on s h = ground (arith, h.idle)

pub set_all_logged_in_for_slot-IsValid :
    (slot : ℕ) (on : Bool) (m : SessionManager)
    → IsValid m
    → IsValid (set_all_logged_in_for_slot slot on m)
unfolding set_all_logged_in_for_slot
set_all_logged_in_for_slot-IsValid slot on m v = record {
  started = v.started;
  entries =
      update_all-Every (IsEntry m.next_id) (set_for_slot slot on) m.sessions
        (λ k s h. (h.0, h.1, set_for_slot-IsSound slot on s h.2)) v.entries;
}

pub set_logged_in-IsValid :
    (handle : ℕ) (on : Bool) (m : SessionManager) → IsValid m → IsValid (set_logged_in handle on m)
unfolding set_logged_in
set_logged_in-IsValid handle on m v = elim (Option-cases (lookup handle m.sessions)) [
  | inl e ↦ rw (e, set_logged_in) v
  | inr (s, e) ↦
      rw (e, set_logged_in)
        (unfold get put in
          put-IsValid handle s (record s { logged_in = on }) m v e
            (let h = get-IsSound handle m v e in
              record { page = h.page; small = h.small; idle = h.idle; key = h.key }))
]

pub append_sign_buffer-IsSound :
    (bytes : Bytes) (s : Session)
    → s.sign_active ≡ true
    → IsSound s
    → IsSound (append_sign_buffer bytes s).1
unfolding append_sign_buffer
append_sign_buffer-IsSound bytes s active h =
    ground (arith, h.idle, length-append s.sign_buffer bytes)
