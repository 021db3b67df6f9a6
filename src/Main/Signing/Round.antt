-- ===== src/Main/Signing/Round.antt =====
-- A whole signing operation, from `C_SignInit` to the answer of `C_Sign`.
use infisical_pkcs.Base.{ℕ, ◌≤◌, ◌<◌, ◌≡◌, ◌≢◌, refl, true, false, none, some, arith, Bytes, length}
use infisical_pkcs.Errors.{GoError, map_error_to_rv}
use infisical_pkcs.Outcome.{Outcome, ok, err, panic}
use infisical_pkcs.Constants.{ckr_ok}
use infisical_pkcs.Slots.{Session, parse_object_handle}
use infisical_pkcs.Slots.Lookup.{get-put}
use infisical_pkcs.Backend.State.{Env, Backend, get_session, write_session}
use infisical_pkcs.Backend.Signing.{
  clear_sign_state, begin_sign, sign_internal, sign_init, sign_init_on, sign_data, sign_data_on,
  sign_or_cached, finish_sign,
}
use infisical_pkcs.Backend.Signing.Calm.{sign_internal-returns}
use infisical_pkcs.Backend.Frame.Calls.{sign_internal-Frame}
use infisical_pkcs.Main.Reply.{catch_error, when_initialized, plain_call}
use infisical_pkcs.Main.Signing.{SignReply, rv_reply, c_sign, c_sign_init, deliver}
use infisical_pkcs.Main.Signing.Protocol.{Has, delivered, sign_fresh, c_sign_large}

-- Logged in, with no operation and no signature kept.
pub record IsReady (s : Session) : Type 0 where
  pub logged_in : s.logged_in ≡ true
  pub idle : s.sign_active ≡ false
  pub fresh : s.cached_signature ≡ none

-- A signature, if it is one, has bytes and fits into `room`.
abbrev pub IsDeliverable : ℕ → Outcome Bytes → Type 0
IsDeliverable room (ok signature) = (0 < length signature) × (length signature ≤ room)
IsDeliverable room (err failure) = Unit
IsDeliverable room panic = Unit

module _ (e : Env) (sh : ℕ) where
  open e use {service, library}

  -- The signature, or the return value of the error.
  abbrev pub reply_for : Outcome Bytes → Outcome SignReply
  reply_for (ok signature) = ok (delivered signature)
  reply_for (err failure) = ok (rv_reply (map_error_to_rv library.unicode_lower failure))
  reply_for panic = panic

  begun :
      (mech key : ℕ) (s : Session) (w : service.World) (b : Backend service.World)
      → Has sh s w b
      → IsReady s
      → let (r, b') = c_sign_init e sh (some mech) key b in
        (r ≡ ok ckr_ok) × Has sh (begin_sign mech (parse_object_handle key).1 s) w b'
  unfolding c_sign_init plain_call when_initialized catch_error sign_init sign_init_on get_session
      write_session
  begun mech key s w b h ready = ground (
    arith,
    h.there,
    h.started,
    ready.logged_in,
    ready.idle,
    get-put sh (begin_sign mech (parse_object_handle key).1 s) b.sessions,
  )

  -- `C_Sign` in an active operation whose call of the service fails.
  sign_fails :
      (bytes : Bytes) (room : ℕ) (failure : GoError) (s : Session) (w : service.World)
      (b : Backend service.World)
      → Has sh s w b
      → s.sign_active ≡ true
      → s.cached_signature ≡ none
      → (sign_internal e s.sign_key_index s.sign_mech bytes b).0 ≡ err failure
      → let (r, b') = c_sign e sh (some bytes) true (some room) b in
        (r ≡ ok (rv_reply (map_error_to_rv library.unicode_lower failure)))
        × Has sh
            (clear_sign_state s)
            (sign_internal e s.sign_key_index s.sign_mech bytes b).1.world
            b'
  unfolding c_sign when_initialized deliver catch_error sign_data sign_data_on get_session
      sign_or_cached finish_sign write_session
  sign_fails bytes room failure s w b h active fresh failed =
      let c = (sign_internal e s.sign_key_index s.sign_mech bytes b).1 in
      ground (
        arith,
        h.there,
        h.started,
        active,
        fresh,
        failed,
        sign_internal-Frame e s.sign_key_index s.sign_mech bytes b,
        get-put sh (clear_sign_state s) c.sessions,
      )

  ended :
      (bytes : Bytes) (room : ℕ) (r : Outcome Bytes) (s : Session) (w : service.World)
      (b : Backend service.World)
      → Has sh s w b
      → s.sign_active ≡ true
      → s.cached_signature ≡ none
      → (sign_internal e s.sign_key_index s.sign_mech bytes b).0 ≡ r
      → IsDeliverable room r
      → let (reply, b') = c_sign e sh (some bytes) true (some room) b in
        (reply ≡ reply_for r)
        × Has sh
            (clear_sign_state s)
            (sign_internal e s.sign_key_index s.sign_mech bytes b).1.world
            b'
  ended bytes room (ok signature) s w b h active fresh signed (some_bytes, fits) =
      let sign = sign_fresh e sh bytes s w b h active fresh signed in
      c_sign_large e sh bytes room signature s
        (sign_internal e s.sign_key_index s.sign_mech bytes b).1.world b h.started sign.0 sign.1
        fits some_bytes
  ended bytes room (err failure) s w b h active fresh signed answer =
      sign_fails bytes room failure s w b h active fresh signed
  ended bytes room panic s w b h active fresh signed answer =
      absurd (sign_internal-returns e s.sign_key_index s.sign_mech bytes b signed)

  -- A signing operation always ends. Take an initialized module, a session that is logged in, does not
  -- sign and keeps no signature, and a service whose signature, if it gives one, has bytes and fits
  -- into the buffer. Then `C_SignInit` succeeds for any mechanism and any key, and the `C_Sign` after
  -- it, with data and the buffer, gives the signature of the service or the return value of the error
  -- of signing, which does not panic; in both cases the session is then again logged in, does not sign
  -- and keeps no signature.
  pub round_ends :
      (mech key room : ℕ) (bytes : Bytes) (s : Session) (w : service.World)
      (b : Backend service.World)
      → Has sh s w b
      → IsReady s
      → let (started, b') = c_sign_init e sh (some mech) key b in
        let (r, c) = sign_internal e (parse_object_handle key).1 mech bytes b' in
        IsDeliverable room r
        → let (reply, b'') = c_sign e sh (some bytes) true (some room) b' in
          (started ≡ ok ckr_ok)
          × (reply ≡ reply_for r)
          × ((t : Session) × IsReady t × Has sh t c.world b'')
          × (r ≢ panic)
  unfolding begin_sign clear_sign_state
  round_ends mech key room bytes s w b h ready answer =
      let init = begun mech key s w b h ready in
      let b' = (c_sign_init e sh (some mech) key b).1 in
      let active = begin_sign mech (parse_object_handle key).1 s in
      let r = (sign_internal e (parse_object_handle key).1 mech bytes b').0 in
      let done = ended bytes room r active w b' init.1 refl ready.fresh refl answer in
      (
        init.0,
        done.0,
        (
          clear_sign_state active,
          record { logged_in = ready.logged_in; idle = refl; fresh = refl },
          done.1,
        ),
        sign_internal-returns e (parse_object_handle key).1 mech bytes b',
      )
