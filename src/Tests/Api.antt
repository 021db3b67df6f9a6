-- ===== src/Tests/Api.antt =====
-- The theorems on the exported functions at concrete inputs.
use infisical_pkcs.Base.{◌≡◌, refl, true, false, [], ◌∷◌, some, arith, bytes_eq}
use infisical_pkcs.Base.Map.{lookup}
use infisical_pkcs.Outcome.{ok, panic}
use infisical_pkcs.Constants.{ckr_cryptoki_not_initialized, ckm_ecdsa}
use infisical_pkcs.Slots.{get}
use infisical_pkcs.Slots.Sessions.{IsValid}
use infisical_pkcs.Cache.{get_signer_cache, set_signer_cache}
use infisical_pkcs.Scope.{client_metadata}
use infisical_pkcs.Client.{call_api, list_signers, sign}
use infisical_pkcs.Backend.State.{Env}
use infisical_pkcs.Backend.Auth.{get_token, after_first_call, with_retry_on_auth}
use infisical_pkcs.Backend.Signers.{get_signers, fetch_signers, store_signers, get_signer_by_slot}
use infisical_pkcs.Backend.Signing.{make_payload, sign_internal, after_sign_call}
use infisical_pkcs.Main.Api.{initializes, finalizes, opens, signs, closes, run_api, api_call}
use infisical_pkcs.Main.Api.History.{run_api-IsValid}
use infisical_pkcs.Main.Api.Guarded.{needs_module, uninitialized_refuses}
use infisical_pkcs.Main.Ensures.{Ensures}
use infisical_pkcs.Main.Bounds.{FitsSign, no_overrun}
use infisical_pkcs.Main.Signing.{c_sign}
use infisical_pkcs.Main.Signing.Protocol.{Has}
use infisical_pkcs.Main.Signing.Empty.{empty_signature_panics}
use infisical_pkcs.Tests.Demo.{demo_env, demo_service, demo_backend, demo_session}

demo_backend-IsValid : IsValid demo_backend.sessions
demo_backend-IsValid = record {
  started = omega arith;
  entries = (
    (
      omega arith,
      omega arith,
      record { page = omega arith; small = omega arith; idle = λ h. refl; key = omega arith },
    ),
    tt,
  );
}

run_api-IsValid_example :
    IsValid
      (run_api demo_env
        (opens 0 true
          ∷ signs 1 (some (5 ∷ [])) true (some 1)
          ∷ finalizes
          ∷ initializes
          ∷ closes 1
          ∷ [])
        demo_backend).sessions
run_api-IsValid_example =
    run_api-IsValid demo_env
      (opens 0 true
        ∷ signs 1 (some (5 ∷ [])) true (some 1)
        ∷ finalizes
        ∷ initializes
        ∷ closes 1
        ∷ [])
      demo_backend demo_backend-IsValid (omega arith)

no_overrun_example :
    Ensures (FitsSign 2) (c_sign demo_env 1 (some (5 ∷ [])) true (some 2) demo_backend).0
no_overrun_example =
    (no_overrun demo_env demo_backend 1 2 (5 ∷ []) true 0 0x10000000 4096 1
      (record { kind = 0; room = some 4 } ∷ [])).0

opens_guarded : needs_module (opens 0 true) ≡ true
unfolding needs_module
opens_guarded = refl

uninitialized_refuses_example :
    api_call demo_env (opens 0 true) (record demo_backend { initialized = false })
    ≡ (ok ckr_cryptoki_not_initialized, record demo_backend { initialized = false })
uninitialized_refuses_example =
    uninitialized_refuses demo_env (opens 0 true) (record demo_backend { initialized = false }) refl
      opens_guarded

-- A service whose signatures are empty.
abbrev blank_env : Env
blank_env = record demo_env { service = record demo_service { decode_signature = λ raw. [] } }

signs_blank : (sign_internal blank_env 0 ckm_ecdsa (5 ∷ []) demo_backend).0 ≡ ok []
unfolding sign_internal get_signer_by_slot get_signers get_signer_cache fetch_signers
    with_retry_on_auth get_token bytes_eq list_signers call_api after_first_call store_signers
    set_signer_cache make_payload sign after_sign_call client_metadata
signs_blank = refl

blank-Has : Has 1 demo_session 0 demo_backend
unfolding get lookup
blank-Has = record { there = refl; outside = refl; started = refl }

empty_signature_panics_example :
    (c_sign blank_env 1 (some (5 ∷ [])) true (some 64) demo_backend).0 ≡ panic
empty_signature_panics_example =
    (empty_signature_panics blank_env 1 demo_session 0 demo_backend (5 ∷ []) 64 blank-Has refl refl
      signs_blank).0
