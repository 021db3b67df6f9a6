-- ===== src/Backend/Invariant.antt =====
-- The invariant of the sessions under every method of the backend.
pub mod Handles
pub mod Login
pub mod History
use infisical_pkcs.Base.{
  ℕ, suc, ◌+◌, ◌-◌, ◌^◌, ◌≤◌, ◌<◌, ◌≡◌, refl, Bool, true, false, List, [], ◌∷◌, none, some, arith,
  Bytes, length, Option, Option-cases, Bool-cases, inl, inr, subst, if◌then◌else◌, ◌%◌, length-take,
  length-drop,
}
use infisical_pkcs.Base.Int.{ℤ}
use infisical_pkcs.Outcome.{Outcome, ok, err, panic}
use infisical_pkcs.Slots.{
  Session, SessionManager, open_session, get, put, close, set_logged_in, Attribute,
  set_all_logged_in_for_slot, parse_object_handle, append_sign_buffer,
}
use infisical_pkcs.Slots.Handles.{parse-lt}
use infisical_pkcs.Slots.Sessions.{
  IsSound, IsValid, open_session-IsValid, put-IsValid, get-IsSound, close-IsValid,
  close_all_for_slot-IsValid, set_all_logged_in_for_slot-IsValid, set_logged_in-IsValid,
  append_sign_buffer-IsSound,
}
use infisical_pkcs.Backend.State.{
  Env, Backend, Method, get_session, write_session, set_sessions, ◌>>=◌,
}
use infisical_pkcs.Backend.Auth.{authenticate}
use infisical_pkcs.Backend.Signers.{get_signer_by_slot}
use infisical_pkcs.Backend.Login.{
  add_session, open_session_on, close_session, close_all_sessions, mark_logged_in, login_with_pin,
  login_without_pin, login, logout, split_client_creds,
}
use infisical_pkcs.Backend.Find.{
  set_find_result, read_template, empty_query, search_objects, find_objects_init, page_size,
  find_objects, find_objects_final, find_objects_init_on, find_objects_on, end_search,
}
use infisical_pkcs.Backend.Signing.{
  clear_sign_state, begin_sign, sign_init, sign_init_on, sign_data_on, sign_update_on, finish_sign,
  sign_or_cached, sign_data, sign_final, sign_update, clear_sign_state_by_handle, cache_sign_result,
  sign_internal,
}
use infisical_pkcs.Backend.Frame.{Frame, authenticate-Frame, get_signer_by_slot-Frame}
use infisical_pkcs.Backend.Frame.Calls.{sign_internal-Frame, search_objects-Frame}

pub clear_sign_state-IsSound : (s : Session) → IsSound s → IsSound (clear_sign_state s)
unfolding clear_sign_state
clear_sign_state-IsSound s h = record {
  page = h.page;
  small = omega arith;
  idle = λ x. refl;
  key = omega arith;
}

begin_sign-IsSound :
    (mech handle : ℕ) (s : Session)
    → IsSound s
    → IsSound (begin_sign mech (parse_object_handle handle).1 s)
unfolding begin_sign
begin_sign-IsSound mech handle s h = record {
  page = h.page;
  small = omega arith;
  idle = λ x. refl;
  key = parse-lt handle;
}

set_find_result-IsSound :
    (template : List Attribute) (results : List ℕ) (s : Session)
    → IsSound s
    → IsSound (set_find_result template results s)
unfolding set_find_result
set_find_result-IsSound template results s h = record {
  page = omega arith;
  small = h.small;
  idle = h.idle;
  key = h.key;
}

module _ {W : Type 0} where
  -- A write through the pointer to a session that was read before, with a frame in between.
  write_session-IsValid :
      (sh : ℕ) (s s' : Session) (b c : Backend W)
      → IsValid b.sessions
      → get sh b.sessions ≡ some s
      → c.sessions ≡ b.sessions
      → IsSound s'
      → IsValid (write_session sh s' c).1.sessions
  unfolding write_session
  write_session-IsValid sh s s' b c v e same sound =
      rw same (put-IsValid sh s s' b.sessions v e sound)

module _ (e : Env) where
  open e use {service}

  abbrev pub State : Type 0
  State = Backend service.World

  finish_sign-IsValid :
      (sh : ℕ) (s : Session) (r : Outcome Bytes) (b c : State)
      → IsValid b.sessions
      → get sh b.sessions ≡ some s
      → c.sessions ≡ b.sessions
      → IsValid (finish_sign e sh s r c).1.sessions
  unfolding finish_sign
  finish_sign-IsValid sh s (ok signature) b c v f same = rw same v
  finish_sign-IsValid sh s (err failure) b c v f same =
      unfold write_session in
      write_session-IsValid sh s (clear_sign_state s) b c v f same
        (clear_sign_state-IsSound s (get-IsSound sh b.sessions v f))
  finish_sign-IsValid sh s panic b c v f same = rw same v

  sign_or_cached-IsValid :
      (sh : ℕ) (s : Session) (bytes : Bytes) (cached : Option Bytes) (b : State)
      → IsValid b.sessions
      → get sh b.sessions ≡ some s
      → IsValid (sign_or_cached e sh s bytes cached b).1.sessions
  unfolding sign_or_cached
  sign_or_cached-IsValid sh s bytes (some signature) b v f =
      unfold write_session in
      write_session-IsValid sh s (clear_sign_state s) b b v f refl
        (clear_sign_state-IsSound s (get-IsSound sh b.sessions v f))
  sign_or_cached-IsValid sh s bytes none b v f =
      grind (arith, sign_internal-Frame e s.sign_key_index s.sign_mech bytes b, finish_sign-IsValid)

  -- A method that starts with a look at the session: `f` is the rest.
  pub with_session-IsValid :
      {A : Type 0} (sh : ℕ) (f : Session → Method service.World A) (b : State)
      → IsValid b.sessions
      → ((s : Session) → get sh b.sessions ≡ some s → IsValid (f s b).1.sessions)
      → IsValid ((get_session sh >>= f) b).1.sessions
  unfolding get_session
  with_session-IsValid sh f b v k = elim (Option-cases (get sh b.sessions)) [
    | inl e ↦ ground (arith, e)
    | inr (s, e) ↦ ground (arith, e, k s e)
  ]

  sign_data_on-IsValid :
      (sh : ℕ) (bytes : Bytes) (b : State) (s : Session)
      → IsValid b.sessions
      → get sh b.sessions ≡ some s
      → IsValid (sign_data_on e sh bytes s b).1.sessions
  unfolding sign_data_on
  sign_data_on-IsValid sh bytes b s v f =
      ground (arith, sign_or_cached-IsValid sh s bytes s.cached_signature b v f)

  pub sign_data-IsValid :
      (sh : ℕ) (bytes : Bytes) (b : State)
      → IsValid b.sessions
      → IsValid (sign_data e sh bytes b).1.sessions
  unfolding sign_data
  sign_data-IsValid sh bytes b v =
      with_session-IsValid sh (sign_data_on e sh bytes) b v
        λ s f. sign_data_on-IsValid sh bytes b s v f

  pub sign_final-IsValid :
      (sh : ℕ) (b : State) → IsValid b.sessions → IsValid (sign_final e sh b).1.sessions
  unfolding sign_final
  sign_final-IsValid sh b v =
      with_session-IsValid sh (λ s. sign_data_on e sh s.sign_buffer s) b v
        λ s f. sign_data_on-IsValid sh s.sign_buffer b s v f

  pub sign_update-IsValid :
      (sh : ℕ) (bytes : Bytes) (b : State)
      → IsValid b.sessions
      → IsValid (sign_update e sh bytes b).1.sessions
  unfolding sign_update
  sign_update-IsValid sh bytes b v = with_session-IsValid sh (sign_update_on e sh bytes) b v λ s f.
      unfold sign_update_on write_session append_sign_buffer in
      ground (
        arith,
        append_sign_buffer-IsSound bytes s,
        put-IsValid sh s (append_sign_buffer bytes s).1 b.sessions v f,
        get-IsSound sh b.sessions v f,
      )

  pub sign_init-IsValid :
      (sh : ℕ) (mechs : List ℕ) (key : ℕ) (b : State)
      → IsValid b.sessions
      → IsValid (sign_init e sh mechs key b).1.sessions
  unfolding sign_init sign_init_on write_session
  sign_init-IsValid sh [] key b v =
      with_session-IsValid sh (sign_init_on e sh [] key) b v λ s f. ground arith
  sign_init-IsValid sh (mech ∷ mechs) key b v =
      with_session-IsValid sh (sign_init_on e sh (mech ∷ mechs) key) b v λ s f.
        let good = begin_sign-IsSound mech key s (get-IsSound sh b.sessions v f) in
        let s' = begin_sign mech (parse_object_handle key).1 s in
        ground (arith, put-IsValid sh s s' b.sessions v f good)

  pub find_objects_init-IsValid :
      (sh : ℕ) (template : List Attribute) (b : State)
      → IsValid b.sessions
      → IsValid (find_objects_init e sh template b).1.sessions
  unfolding find_objects_init find_objects_init_on
  find_objects_init-IsValid sh template b v =
      with_session-IsValid sh (find_objects_init_on e sh template) b v λ s f.
        let good = get-IsSound sh b.sessions v f in
        let call = search_objects e s.slot_id (read_template template empty_query) b in
        grind (
          arith,
          search_objects-Frame e s.slot_id (read_template template empty_query) b,
          λ (results : List ℕ) (same : call.1.sessions ≡ b.sessions).
              write_session-IsValid sh s (set_find_result template results s) b call.1 v f same
                (set_find_result-IsSound template results s good),
        )

  pub find_objects_final-IsValid :
      (sh : ℕ) (b : State) → IsValid b.sessions → IsValid (find_objects_final e sh b).1.sessions
  unfolding find_objects_final write_session end_search
  find_objects_final-IsValid sh b v =
      with_session-IsValid sh (λ s. write_session sh (end_search s)) b v
        λ s f.
          let good = get-IsSound sh b.sessions v f in
          put-IsValid sh s (end_search s) b.sessions v f
            (record { page = omega arith; small = good.small; idle = good.idle; key = good.key })

  turn_page-IsSound :
      (max : ℤ) (n : ℕ) (s : Session)
      → IsSound s
      → page_size max (length s.find_results - s.find_pos) ≡ ok n
      → IsSound (record s { find_pos = s.find_pos + n })
  unfolding page_size
  turn_page-IsSound max n s h p = ground (arith, h.idle)

  pub find_objects-IsValid :
      (sh : ℕ) (max : ℤ) (b : State)
      → IsValid b.sessions
      → IsValid (find_objects e sh max b).1.sessions
  unfolding find_objects find_objects_on write_session
  find_objects-IsValid sh max b v = with_session-IsValid sh (find_objects_on e sh max) b v λ s f.
      let good = get-IsSound sh b.sessions v f in
      grind (
        arith,
        λ (n : ℕ) (p : page_size max (length s.find_results - s.find_pos) ≡ ok n).
            put-IsValid sh s (record s { find_pos = s.find_pos + n }) b.sessions v f
              (turn_page-IsSound max n s good p),
      )
