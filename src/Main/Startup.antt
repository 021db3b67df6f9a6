-- ===== src/Main/Startup.antt =====
-- main.go: `C_Initialize` and `C_Finalize`.
use infisical_pkcs.Base.{ℕ, if◌then◌else◌}
use infisical_pkcs.Errors.{is_sentinel, already_initialized}
use infisical_pkcs.Outcome.{ok, err, panic}
use infisical_pkcs.Constants.{ckr_ok, ckr_general_error, ckr_cryptoki_already_initialized}
use infisical_pkcs.Backend.State.{Env, Method}
use infisical_pkcs.Backend.Startup.{initialize, finalize}
use infisical_pkcs.Main.Reply.{rv_only, when_initialized}

module _ (e : Env) where
  open e use {service}

  unfoldable pub c_initialize : Method service.World ℕ
  c_initialize b =
      let (r, b') = initialize e b in
      elim r [
        | ok done ↦ (ok ckr_ok, b')
        | err failure ↦ (
          ok (
              if is_sentinel failure already_initialized
              then ckr_cryptoki_already_initialized
              else ckr_general_error),
          b',
        )
        | panic ↦ (panic, b')
      ]

  unfoldable pub c_finalize : Method service.World ℕ
  c_finalize = when_initialized e rv_only λ b.
      let (r, b') = finalize e b in
      elim r [
        | ok done ↦ (ok ckr_ok, b')
        | err failure ↦ (ok ckr_general_error, b')
        | panic ↦ (panic, b')
      ]
