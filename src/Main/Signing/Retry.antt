-- ===== src/Main/Signing/Retry.antt =====
-- What a caller gets who retries `C_Sign` with another buffer.
use infisical_pkcs.Base.{
  ℕ, ◌≤◌, ◌<◌, ◌≡◌, refl, sym, ◌∙◌, true, false, none, some, arith, Bytes, length,
}
use infisical_pkcs.Outcome.{ok}
use infisical_pkcs.Constants.{ckr_ok}
use infisical_pkcs.Slots.{Session, parse_object_handle}
use infisical_pkcs.Slots.Lookup.{get-put}
use infisical_pkcs.Backend.State.{Env, Backend, get_session, write_session}
use infisical_pkcs.Backend.Signing.{
  clear_sign_state, begin_sign, sign_internal, sign_init, sign_init_on,
}
use infisical_pkcs.Main.Reply.{catch_error, when_initialized, plain_call}
use infisical_pkcs.Main.Signing.{c_sign, c_sign_init}
use infisical_pkcs.Main.Signing.Protocol.{
  Has, too_small, delivered, with_cached, sign_fresh, sign_cached, c_sign_small, c_sign_large,
}

module _ (e : Env) (sh : ℕ) (s : Session) (w : e.service.World) (b : Backend e.service.World)
    (h : Has sh s w b) (active : s.sign_active ≡ true) where
  open e use {service}

  module _ (fresh : s.cached_signature ≡ none) (bytes : Bytes) {signature : Bytes}
      (signed : (sign_internal e s.sign_key_index s.sign_mech bytes b).0 ≡ ok signature) (room : ℕ)
      (small : room < length signature) where
    -- The world after the service has signed.
    abbrev signed_world : service.World
    signed_world = (sign_internal e s.sign_key_index s.sign_mech bytes b).1.world

    -- The first call with a buffer that is too small.
    first_call :
        let (r, b') = c_sign e sh (some bytes) true (some room) b in
        (r ≡ ok (too_small signature)) × Has sh (with_cached signature s) signed_world b'
    first_call =
        let fresh_sign = sign_fresh e sh bytes s w b h active fresh signed in
        c_sign_small e sh bytes room signature s signed_world b h.started fresh_sign.0 fresh_sign.1
          small

    module _ (bytes' : Bytes) (room' : ℕ) where
      -- In an active operation that has no signature yet, a `C_Sign` whose buffer is too small for
      -- the signature gets `CKR_BUFFER_TOO_SMALL` and the size. A second call with a large enough
      -- buffer gets that same signature, whatever data it passes, without another call of the
      -- service (the world stays as it was), and ends the operation.
      pub retry_delivers :
          length signature ≤ room'
          → let (r, b') = c_sign e sh (some bytes) true (some room) b in
            let (r', b'') = c_sign e sh (some bytes') true (some room') b' in
            (r ≡ ok (too_small signature))
            × (r' ≡ ok (delivered signature))
            × Has sh (clear_sign_state s) signed_world b''
      unfolding clear_sign_state
      retry_delivers large =
          let first = first_call in
          let b' = (c_sign e sh (some bytes) true (some room) b).1 in
          let s' = with_cached signature s in
          let again = sign_cached e sh bytes' signature s' signed_world b' first.1 active refl in
          let second =
            c_sign_large e sh bytes' room' signature (clear_sign_state s') signed_world b'
              first.1.started again.0 again.1 large (omega arith) in
          (first.0, second.0, second.1)

      -- The second call again with a buffer that is too small.
      second_call :
          room' < length signature
          → let b' = (c_sign e sh (some bytes) true (some room) b).1 in
            let (r, b'') = c_sign e sh (some bytes') true (some room') b' in
            (r ≡ ok (too_small signature))
            × Has sh (with_cached signature (clear_sign_state s)) signed_world b''
      unfolding clear_sign_state
      second_call small' =
          let first = first_call in
          let b' = (c_sign e sh (some bytes) true (some room) b).1 in
          let s' = with_cached signature s in
          let again = sign_cached e sh bytes' signature s' signed_world b' first.1 active refl in
          c_sign_small e sh bytes' room' signature (clear_sign_state s') signed_world b'
            first.1.started again.0 again.1 small'

      -- The state after `C_SignInit` in a session that has kept a signature.
      restart :
          (mech key : ℕ) (t : Session) (c : Backend service.World)
          → Has sh t signed_world c
          → t.logged_in ≡ true
          → t.sign_active ≡ false
          → let (r, c') = c_sign_init e sh (some mech) key c in
            (r ≡ ok ckr_ok) × Has sh (begin_sign mech (parse_object_handle key).1 t) signed_world c'
      unfolding c_sign_init plain_call when_initialized catch_error sign_init sign_init_on
          get_session write_session
      restart mech key t c k logged_in idle = ground (
        arith,
        k.there,
        k.started,
        get-put sh (begin_sign mech (parse_object_handle key).1 t) c.sessions,
      )

      -- In a session that is logged in, after two buffers too small in a row the signature outlives
      -- its operation: the next `C_SignInit` succeeds, for any mechanism and any key, and the
      -- `C_Sign` after it delivers the old signature for any data, without a call of the service.
      pub stale_signature :
          room' < length signature
          → s.logged_in ≡ true
          → (mech key : ℕ) (other : Bytes) (room'' : ℕ) → length signature ≤ room''
          → let b₁ = (c_sign e sh (some bytes) true (some room) b).1 in
            let b₂ = (c_sign e sh (some bytes') true (some room') b₁).1 in
            let (started, b₃) = c_sign_init e sh (some mech) key b₂ in
            let (r, b₄) = c_sign e sh (some other) true (some room'') b₃ in
            (started ≡ ok ckr_ok) × (r ≡ ok (delivered signature)) × (b₄.world ≡ b₁.world)
      unfolding begin_sign clear_sign_state
      stale_signature small' logged_in mech key other room'' large =
          let b₁ = (c_sign e sh (some bytes) true (some room) b).1 in
          let second = second_call small' in
          let b₂ = (c_sign e sh (some bytes') true (some room') b₁).1 in
          let t = with_cached signature (clear_sign_state s) in
          let init = restart mech key t b₂ second.1 logged_in refl in
          let b₃ = (c_sign_init e sh (some mech) key b₂).1 in
          let t' = begin_sign mech (parse_object_handle key).1 t in
          let stale = sign_cached e sh other signature t' signed_world b₃ init.1 refl refl in
          let last =
            c_sign_large e sh other room'' signature (clear_sign_state t') signed_world b₃
              init.1.started stale.0 stale.1 large (omega arith) in
          (init.0, last.0, last.1.outside ∙ sym first_call.1.outside)
