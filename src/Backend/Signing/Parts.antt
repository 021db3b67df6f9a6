-- ===== src/Backend/Signing/Parts.antt =====
-- Signing in parts: `SignUpdate` after `SignUpdate`, and `SignFinal`.
use mathlib.Core.List.{append-nil, append_assoc}
use infisical_pkcs.Base.{
  ℕ, ◌+◌, ◌≤◌, ◌<◌, ◌≡◌, true, List, [], ◌∷◌, ◌++◌, some, arith, Bytes, length, length-append,
}
use infisical_pkcs.Outcome.{ok, err}
use infisical_pkcs.Errors.{plain}
use infisical_pkcs.Slots.{Session, get, append_sign_buffer, max_sign_buffer}
use infisical_pkcs.Slots.Lookup.{get-put}
use infisical_pkcs.Backend.State.{Env, Backend, Method, ◌>>◌, pure, get_session, write_session}
use infisical_pkcs.Backend.Signing.{sign_update, sign_update_on, sign_final, sign_data}

abbrev pub joined : List Bytes → Bytes
joined [] = []
joined (part ∷ parts) = part ++ joined parts

abbrev with_buffer : Bytes → Session → Session
with_buffer bytes s = record s { sign_buffer = bytes }

module _ (e : Env) (sh : ℕ) where
  open e use {service}

  -- A call of `SignUpdate` for each part.
  abbrev pub feed : List Bytes → Method service.World (Unit {0})
  feed [] = pure tt
  feed (part ∷ parts) = sign_update e sh part >> feed parts

  sign_update_fits :
      (part : Bytes) (s : Session) (b : Backend service.World)
      → get sh b.sessions ≡ some s
      → s.sign_active ≡ true
      → length s.sign_buffer + length part ≤ max_sign_buffer
      → let (r, b') = sign_update e sh part b in
        (r ≡ ok tt) × (get sh b'.sessions ≡ some (with_buffer (s.sign_buffer ++ part) s))
  unfolding sign_update sign_update_on get_session append_sign_buffer write_session
  sign_update_fits part s b there active fits =
      ground (arith, get-put sh (with_buffer (s.sign_buffer ++ part) s) b.sessions)

  -- A part that would take the buffer past 16 MiB is refused, and the session keeps what it had.
  pub sign_update_too_large :
      (part : Bytes) (s : Session) (b : Backend service.World)
      → get sh b.sessions ≡ some s
      → s.sign_active ≡ true
      → max_sign_buffer < length s.sign_buffer + length part
      → sign_update e sh part b ≡ (err (plain "sign buffer exceeds maximum size"), b)
  unfolding sign_update sign_update_on get_session append_sign_buffer
  sign_update_too_large part s b there active large = ground arith

  feed_lem :
      (parts : List Bytes) (s : Session) (b : Backend service.World)
      → get sh b.sessions ≡ some s
      → s.sign_active ≡ true
      → length s.sign_buffer + length (joined parts) ≤ max_sign_buffer
      → let (r, b') = feed parts b in
        (r ≡ ok tt) × (get sh b'.sessions ≡ some (with_buffer (s.sign_buffer ++ joined parts) s))
  feed_lem [] s b there active fits = ground (arith, there, append-nil s.sign_buffer)
  feed_lem (part ∷ parts) s b there active fits =
      let first =
        sign_update_fits part s b there active (omega (arith, length-append part (joined parts))) in
      let s' = with_buffer (s.sign_buffer ++ part) s in
      let b' = (sign_update e sh part b).1 in
      let rest =
        feed_lem parts s' b' first.1 active
          (omega (arith, length-append part (joined parts), length-append s.sign_buffer part)) in
      ground (arith, first.0, append_assoc s.sign_buffer part (joined parts), rest)

  -- Parts that fit into 16 MiB together with what is buffered are all accepted, and the `SignFinal`
  -- after them does exactly what `Sign` does, in that state, with the buffer and the parts joined.
  pub sign_final-feed :
      (parts : List Bytes) (s : Session) (b : Backend service.World)
      → get sh b.sessions ≡ some s
      → s.sign_active ≡ true
      → length s.sign_buffer + length (joined parts) ≤ max_sign_buffer
      → let (r, b') = feed parts b in
        (r ≡ ok tt) × (sign_final e sh b' ≡ sign_data e sh (s.sign_buffer ++ joined parts) b')
  unfolding sign_final sign_data get_session
  sign_final-feed parts s b there active fits =
      let fed = feed_lem parts s b there active fits in (fed.0, ground (arith, fed.1))
