-- ===== src/Main/Signing/Protocol.antt =====
-- The signing protocol as a caller sees it: a buffer that is too small, the retry, and what is left
-- behind.
use infisical_pkcs.Base.{ℕ, ◌≤◌, ◌<◌, ◌≡◌, refl, true, [], ◌∷◌, none, some, arith, Bytes, length}
use infisical_pkcs.Outcome.{ok}
use infisical_pkcs.Constants.{ckr_ok, ckr_buffer_too_small}
use infisical_pkcs.Slots.{Session, get}
use infisical_pkcs.Slots.Lookup.{get-put}
use infisical_pkcs.Backend.State.{Env, Backend, get_session, write_session}
use infisical_pkcs.Backend.Signing.{
  clear_sign_state, sign_internal, finish_sign, sign_or_cached, sign_data, sign_data_on,
  clear_sign_state_by_handle, cache_sign_result,
}
use infisical_pkcs.Backend.Frame.Calls.{sign_internal-Frame}
use infisical_pkcs.Main.Reply.{catch_error, when_initialized}
use infisical_pkcs.Main.Signing.{SignReply, c_sign, deliver, copy_signature}

-- The module is initialized, the world is `w`, and the handle `sh` has the session `s`.
pub record Has {W : Type 0} (sh : ℕ) (s : Session) (w : W) (b : Backend W) : Type 0 where
  pub there : get sh b.sessions ≡ some s
  pub outside : b.world ≡ w
  pub started : b.initialized ≡ true

abbrev pub too_small : Bytes → SignReply
too_small signature = record {
  rv = ckr_buffer_too_small;
  copied = none;
  stored_length = some (length signature);
}

abbrev pub delivered : Bytes → SignReply
delivered signature = record {
  rv = ckr_ok;
  copied = some signature;
  stored_length = some (length signature);
}

abbrev pub with_cached : Bytes → Session → Session
with_cached signature s = record s { cached_signature = some signature }

module _ (e : Env) (sh : ℕ) where
  open e use {service}

  -- The state after `copy_signature` into a buffer that is too small, and into one that is not.
  copy_small :
      (room : ℕ) (signature : Bytes) (s : Session) (w : service.World) (b : Backend service.World)
      → Has sh s w b
      → room < length signature
      → let (r, b') = copy_signature e sh room signature b in
        (r ≡ ok (too_small signature)) × Has sh (with_cached signature s) w b'
  unfolding copy_signature cache_sign_result
  copy_small room signature s w b h small =
      ground (arith, h.there, get-put sh (with_cached signature s) b.sessions)

  copy_large :
      (room : ℕ) (signature : Bytes) (s : Session) (w : service.World) (b : Backend service.World)
      → Has sh s w b
      → length signature ≤ room
      → 0 < length signature
      → let (r, b') = copy_signature e sh room signature b in
        (r ≡ ok (delivered signature)) × Has sh (clear_sign_state s) w b'
  unfolding copy_signature clear_sign_state_by_handle
  copy_large room [] s w b h large pos = absurd (omega arith)
  copy_large room (x ∷ xs) s w b h large pos =
      ground (arith, h.there, get-put sh (clear_sign_state s) b.sessions)

  -- `Sign` on an active session that has no cached signature.
  pub sign_fresh :
      (bytes : Bytes) {signature : Bytes} (s : Session) (w : service.World)
      (b : Backend service.World)
      → Has sh s w b
      → s.sign_active ≡ true
      → s.cached_signature ≡ none
      → (sign_internal e s.sign_key_index s.sign_mech bytes b).0 ≡ ok signature
      → let (r, b') = sign_data e sh bytes b in
        (r ≡ ok signature)
        × Has sh s (sign_internal e s.sign_key_index s.sign_mech bytes b).1.world b'
  unfolding sign_data sign_data_on get_session sign_or_cached finish_sign
  sign_fresh bytes s w b h active fresh signed =
      ground (arith, h.there, h.started, sign_internal-Frame e s.sign_key_index s.sign_mech bytes b)

  -- `Sign` on an active session that has one: the argument is not looked at.
  pub sign_cached :
      (bytes signature : Bytes) (s : Session) (w : service.World) (b : Backend service.World)
      → Has sh s w b
      → s.sign_active ≡ true
      → s.cached_signature ≡ some signature
      → let (r, b') = sign_data e sh bytes b in
        (r ≡ ok signature) × Has sh (clear_sign_state s) w b'
  unfolding sign_data sign_data_on get_session sign_or_cached write_session
  sign_cached bytes signature s w b h active cached =
      ground (arith, h.there, get-put sh (clear_sign_state s) b.sessions)

  -- `C_Sign` after its checks, in terms of `Sign` and of the copy.
  c_sign_after :
      (bytes : Bytes) (room : ℕ) (signature : Bytes) (b : Backend service.World)
      → b.initialized ≡ true
      → (sign_data e sh bytes b).0 ≡ ok signature
      → (r : SignReply)
      → let b' = (sign_data e sh bytes b).1 in
        (copy_signature e sh room signature b').0 ≡ ok r
        → c_sign e sh (some bytes) true (some room) b
          ≡ (ok r, (copy_signature e sh room signature b').1)
  unfolding c_sign when_initialized deliver catch_error
  c_sign_after bytes room signature b started signed r copied = ground arith

  pub c_sign_small :
      (bytes : Bytes) (room : ℕ) (signature : Bytes) (s : Session) (w : service.World)
      (b : Backend service.World)
      → b.initialized ≡ true
      → (sign_data e sh bytes b).0 ≡ ok signature
      → Has sh s w (sign_data e sh bytes b).1
      → room < length signature
      → let (r, b') = c_sign e sh (some bytes) true (some room) b in
        (r ≡ ok (too_small signature)) × Has sh (with_cached signature s) w b'
  c_sign_small bytes room signature s w b started signed h small =
      let copy = copy_small room signature s w (sign_data e sh bytes b).1 h small in
      let whole = c_sign_after bytes room signature b started signed (too_small signature) copy.0 in
      rw whole (refl, copy.1)

  pub c_sign_large :
      (bytes : Bytes) (room : ℕ) (signature : Bytes) (s : Session) (w : service.World)
      (b : Backend service.World)
      → b.initialized ≡ true
      → (sign_data e sh bytes b).0 ≡ ok signature
      → Has sh s w (sign_data e sh bytes b).1
      → length signature ≤ room
      → 0 < length signature
      → let (r, b') = c_sign e sh (some bytes) true (some room) b in
        (r ≡ ok (delivered signature)) × Has sh (clear_sign_state s) w b'
  c_sign_large bytes room signature s w b started signed h large pos =
      let copy = copy_large room signature s w (sign_data e sh bytes b).1 h large pos in
      let whole = c_sign_after bytes room signature b started signed (delivered signature) copy.0 in
      rw whole (refl, copy.1)
