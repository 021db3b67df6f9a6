-- ===== src/Main/Signing/Empty.antt =====
-- What an empty signature from the service does to `C_Sign`.
use infisical_pkcs.Base.{ℕ, ◌≡◌, refl, true, [], none, some, arith, Bytes}
use infisical_pkcs.Outcome.{ok, panic}
use infisical_pkcs.Slots.{Session}
use infisical_pkcs.Backend.State.{Env, Backend}
use infisical_pkcs.Backend.Signing.{sign_internal, sign_data}
use infisical_pkcs.Main.Reply.{catch_error, when_initialized}
use infisical_pkcs.Main.Signing.{c_sign, deliver, copy_signature}
use infisical_pkcs.Main.Signing.Protocol.{Has, sign_fresh}

module _ (e : Env) (sh : ℕ) where
  open e use {service}

  sign_empty :
      (bytes : Bytes) (room : ℕ) (b : Backend service.World)
      → b.initialized ≡ true
      → (sign_data e sh bytes b).0 ≡ ok []
      → c_sign e sh (some bytes) true (some room) b ≡ (panic, (sign_data e sh bytes b).1)
  unfolding c_sign when_initialized deliver catch_error copy_signature
  sign_empty bytes room b started signed = ground (arith, started, signed)

  -- In an active operation that has no signature yet, if the service answers a sign call with a
  -- signature of no bytes, `C_Sign` panics, whatever the mechanism, the data and the room for the
  -- signature, and leaves the session as it was.
  pub empty_signature_panics :
      (s : Session) (w : service.World) (b : Backend service.World) (bytes : Bytes) (room : ℕ)
      → Has sh s w b
      → s.sign_active ≡ true
      → s.cached_signature ≡ none
      → (sign_internal e s.sign_key_index s.sign_mech bytes b).0 ≡ ok []
      → let (r, b') = c_sign e sh (some bytes) true (some room) b in
        (r ≡ panic) × Has sh s (sign_internal e s.sign_key_index s.sign_mech bytes b).1.world b'
  empty_signature_panics s w b bytes room h active fresh signed =
      let fresh_sign = sign_fresh e sh bytes s w b h active fresh signed in
      rw (sign_empty bytes room b h.started fresh_sign.0) (refl, fresh_sign.1)
