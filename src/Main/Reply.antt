-- ===== src/Main/Reply.antt =====
-- main.go: what every exported function does first and last, the test that the module is
-- initialized and the turning of an error into a return value.
use infisical_pkcs.Base.{ℕ, if◌then◌else◌}
use infisical_pkcs.Errors.{map_error_to_rv}
use infisical_pkcs.Outcome.{ok, err, panic}
use infisical_pkcs.Constants.{ckr_ok, ckr_cryptoki_not_initialized}
use infisical_pkcs.Backend.State.{Env, Method}

abbrev pub rv_only : ℕ → ℕ
rv_only rv = rv

module _ (e : Env) where
  open e use {service, library}

  module _ {R : Type 0} (reply : ℕ → R) where
    -- `if err != nil { return mapErrorToRV(err) }` on the error of a call
    unfoldable pub catch_error : Method service.World R → Method service.World R
    catch_error m b =
        let (r, b') = m b in
        elim r [
          | ok a ↦ (ok a, b')
          | err failure ↦ (ok (reply (map_error_to_rv library.unicode_lower failure)), b')
          | panic ↦ (panic, b')
        ]

    -- `if rv := checkInitialized(); rv != CKR_OK { return rv }`
    unfoldable pub when_initialized : Method service.World R → Method service.World R
    when_initialized m b =
        if b.initialized then m b else (ok (reply ckr_cryptoki_not_initialized), b)

  -- A function with no output but its return value.
  unfoldable pub plain_call : Method service.World (Unit {0}) → Method service.World ℕ
  plain_call m = when_initialized rv_only (
      catch_error rv_only λ b.
        let (r, b') = m b in
        elim r [ ok a ↦ (ok ckr_ok, b') | err failure ↦ (err failure, b') | panic ↦ (panic, b') ])
