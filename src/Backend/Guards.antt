-- ===== src/Backend/Guards.antt =====
-- What the methods of a session refuse, and that a refusal changes nothing.
use infisical_pkcs.Base.{ℕ, ◌≡◌, refl, true, false, List, [], ◌∷◌, none, some, arith, Bytes}
use infisical_pkcs.Base.Int.{ℤ}
use infisical_pkcs.Errors.{
  sentinel, session_handle_invalid, not_logged_in, sign_already_active, sign_not_active,
  find_already_active, find_not_active,
}
use infisical_pkcs.Outcome.{Outcome, ok, err}
use infisical_pkcs.Slots.{Session, Attribute, get, close}
use infisical_pkcs.Slots.Lookup.{get-set_all}
use infisical_pkcs.Backend.State.{Env, Backend, get_session}
use infisical_pkcs.Backend.Login.{close_session, login, logout, logout_on, get_session_info}
use infisical_pkcs.Backend.Find.{
  find_objects_init, find_objects, find_objects_on, find_objects_final, find_objects_init_on,
}
use infisical_pkcs.Backend.Signing.{
  sign_init, sign_init_on, sign_data, sign_data_on, sign_update, sign_update_on, sign_final,
}

module _ (e : Env) (sh : ℕ) where
  open e use {service}

  abbrev invalid_handle : {A : Type 0} → Backend service.World → Outcome A × Backend service.World
  invalid_handle b = (err (sentinel session_handle_invalid), b)

  -- `CloseSession`, `Login`, `Logout`, `GetSessionInfo`, the three methods of a search and the four of
  -- a signature answer an unknown session handle with `ErrSessionHandleInvalid`, and leave the whole
  -- state as it was.
  pub unknown_session :
      (b : Backend service.World)
      → get sh b.sessions ≡ none
      → (pin bytes : Bytes) (template : List Attribute) (max : ℤ) (mechs : List ℕ) (key : ℕ)
      → (close_session service sh b ≡ invalid_handle b)
        × (login service sh pin b ≡ invalid_handle b)
        × (logout service sh b ≡ invalid_handle b)
        × (get_session_info service sh b ≡ invalid_handle b)
        × (find_objects_init e sh template b ≡ invalid_handle b)
        × (find_objects e sh max b ≡ invalid_handle b)
        × (find_objects_final e sh b ≡ invalid_handle b)
        × (sign_init e sh mechs key b ≡ invalid_handle b)
        × (sign_data e sh bytes b ≡ invalid_handle b)
        × (sign_update e sh bytes b ≡ invalid_handle b)
        × (sign_final e sh b ≡ invalid_handle b)
  unfolding close_session close get login logout get_session_info find_objects_init find_objects
      find_objects_final sign_init sign_data sign_update sign_final get_session
  unknown_session b unknown pin bytes template max mechs key = ground (arith, unknown)

  -- A second `SignInit`, a second `FindObjectsInit`, and a `Sign`, `SignUpdate`, `SignFinal` or
  -- `FindObjects` with no operation begun are refused, each with its own error, and change nothing.
  pub out_of_order :
      (s : Session) (b : Backend service.World)
      → get sh b.sessions ≡ some s
      → (bytes : Bytes) (template : List Attribute) (max : ℤ) (mechs : List ℕ) (key : ℕ)
      → (s.logged_in ≡ true
          → s.sign_active ≡ true
          → sign_init e sh mechs key b ≡ (err (sentinel sign_already_active), b))
        × (s.find_active ≡ true
            → find_objects_init e sh template b ≡ (err (sentinel find_already_active), b))
        × (s.sign_active ≡ false
            → (sign_data e sh bytes b ≡ (err (sentinel sign_not_active), b))
              × (sign_update e sh bytes b ≡ (err (sentinel sign_not_active), b))
              × (sign_final e sh b ≡ (err (sentinel sign_not_active), b)))
        × (s.find_active ≡ false → find_objects e sh max b ≡ (err (sentinel find_not_active), b))
  unfolding find_objects_init find_objects sign_init sign_data sign_update sign_final get_session
      find_objects_init_on find_objects_on sign_init_on sign_data_on sign_update_on
  out_of_order s b there bytes template max [] key = (
    λ a c. ground (arith, a, c),
    λ a. ground (arith, a),
    λ a. (ground (arith, a), ground (arith, a), ground (arith, a)),
    λ a. ground (arith, a),
  )
  out_of_order s b there bytes template max (mech ∷ mechs) key = (
    λ a c. ground (arith, a, c),
    λ a. ground (arith, a),
    λ a. (ground (arith, a), ground (arith, a), ground (arith, a)),
    λ a. ground (arith, a),
  )

  -- `SignInit` in a session that is not logged in is refused with `ErrNotLoggedIn`, whatever the
  -- mechanism and the key, and changes nothing.
  sign_init_locked :
      (s : Session) (b : Backend service.World) (mechs : List ℕ) (key : ℕ)
      → get sh b.sessions ≡ some s
      → s.logged_in ≡ false
      → sign_init e sh mechs key b ≡ (err (sentinel not_logged_in), b)
  unfolding sign_init sign_init_on get_session
  sign_init_locked s b [] key there out = ground (arith, out)
  sign_init_locked s b (mech ∷ mechs) key there out = ground (arith, out)

-- A logout in one session succeeds, locks every session of the same slot out of `SignInit`, and
-- leaves the sessions of other slots as they were.
pub logout_locks_slot :
    (e : Env) (sh : ℕ) (s : Session) (b : Backend e.service.World)
    → get sh b.sessions ≡ some s
    → (other : ℕ) (t : Session) → get other b.sessions ≡ some t
    → (mechs : List ℕ) (key : ℕ)
    → let (r, b') = logout e.service sh b in
      (r ≡ ok tt)
      × (t.slot_id ≡ s.slot_id
          → sign_init e other mechs key b' ≡ (err (sentinel not_logged_in), b'))
      × (¬ (t.slot_id ≡ s.slot_id) → get other b'.sessions ≡ some t)
unfolding logout logout_on get_session
logout_locks_slot e sh s b there other t found mechs key = (
  ground (arith, there),
  λ same.
      let locked : Session = record t { logged_in = false } in
      sign_init_locked e other locked (logout e.service sh b).1 mechs key
        (ground (arith, there, found, same, get-set_all s.slot_id other false b.sessions)) refl,
  λ ne. ground (arith, there, found, ne, get-set_all s.slot_id other false b.sessions),
)
