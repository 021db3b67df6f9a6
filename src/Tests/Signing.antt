-- ===== src/Tests/Signing.antt =====
-- The signing protocol, run in the demo world.
use infisical_pkcs.Base.{ℕ, subst, sym, false, ◌≡◌, refl, true, [], ◌∷◌, some, arith, bytes_eq}
use infisical_pkcs.Base.Map.{lookup, insert}
use infisical_pkcs.Outcome.{ok}
use infisical_pkcs.Constants.{ckm_sha256_rsa_pkcs, ckm_ecdsa}
use infisical_pkcs.Slots.{Session, get, put, parse_object_handle}
use infisical_pkcs.Cache.{get_signer_cache, set_signer_cache}
use infisical_pkcs.Scope.{client_metadata}
use infisical_pkcs.Client.{call_api, list_signers, sign}
use infisical_pkcs.Backend.Auth.{get_token, after_first_call, with_retry_on_auth}
use infisical_pkcs.Backend.Signers.{get_signers, fetch_signers, store_signers, get_signer_by_slot}
use infisical_pkcs.Backend.Signing.{
  make_payload, sign_internal, after_sign_call, sign_init, sign_init_on, begin_sign,
}
use infisical_pkcs.Main.Signing.{c_sign, c_sign_init}
use infisical_pkcs.Main.Signing.Protocol.{Has, delivered}
use infisical_pkcs.Main.Signing.Round.{IsDeliverable, reply_for, round_ends}
use infisical_pkcs.Main.Reply.{catch_error, when_initialized, plain_call}
use infisical_pkcs.Backend.State.{Backend, get_session, write_session}
use infisical_pkcs.Main.Signing.Retry.{retry_delivers, stale_signature}
use infisical_pkcs.Tests.Demo.{demo_env, demo_backend, demo_session, demo_signature}

-- The call of the service for a signature, opened for evaluation.
signs_openly : Unit {0}
unfolding sign_internal get_signer_by_slot get_signers get_signer_cache fetch_signers
    with_retry_on_auth get_token bytes_eq list_signers call_api after_first_call store_signers
    set_signer_cache make_payload sign after_sign_call client_metadata
signs_openly = tt

signs : (sign_internal demo_env 0 ckm_ecdsa (5 ∷ []) demo_backend).0 ≡ ok demo_signature
unfolding signs_openly
signs = refl

demo-Has : Has 1 demo_session 0 demo_backend
unfolding get lookup
demo-Has = record { there = refl; outside = refl; started = refl }

retry_delivers_example :
    let b' = (c_sign demo_env 1 (some (5 ∷ [])) true (some 1) demo_backend).1 in
    (c_sign demo_env 1 (some (6 ∷ [])) true (some 3) b').0 ≡ ok (delivered demo_signature)
retry_delivers_example =
    (retry_delivers demo_env 1 demo_session 0 demo_backend demo-Has refl refl (5 ∷ []) signs 1
      (omega arith) (6 ∷ []) 3 (omega arith)).1

stale_signature_example :
    let b₁ = (c_sign demo_env 1 (some (5 ∷ [])) true (some 1) demo_backend).1 in
    let b₂ = (c_sign demo_env 1 (some (5 ∷ [])) true (some 2) b₁).1 in
    let b₃ = (c_sign_init demo_env 1 (some ckm_sha256_rsa_pkcs) 0x10000007 b₂).1 in
    (c_sign demo_env 1 (some (6 ∷ [])) true (some 8) b₃).0 ≡ ok (delivered demo_signature)
stale_signature_example =
    (stale_signature demo_env 1 demo_session 0 demo_backend demo-Has refl refl (5 ∷ []) signs 1
      (omega arith) (5 ∷ []) 2 (omega arith) refl ckm_sha256_rsa_pkcs 0x10000007 (6 ∷ []) 8
      (omega arith)).1

-- The demo session between two operations.
abbrev resting : Session
resting = record demo_session { sign_active = false }

abbrev resting_backend : Backend ℕ
resting_backend = record demo_backend {
  sessions = record { sessions = (1, resting) ∷ []; next_id = 2 };
}

resting-Has : Has 1 resting 0 resting_backend
unfolding get lookup
resting-Has = record { there = refl; outside = refl; started = refl }

resting_answer :
    (sign_internal demo_env
      (parse_object_handle 0x10000000).1
      ckm_ecdsa
      (5 ∷ [])
      (c_sign_init demo_env 1 (some ckm_ecdsa) 0x10000000 resting_backend).1).0
    ≡ ok demo_signature
unfolding signs_openly parse_object_handle c_sign_init plain_call when_initialized catch_error
    sign_init sign_init_on get_session write_session get put lookup insert begin_sign
resting_answer = refl

round_ends_example :
    let b' = (c_sign_init demo_env 1 (some ckm_ecdsa) 0x10000000 resting_backend).1 in
    (c_sign demo_env 1 (some (5 ∷ [])) true (some 3) b').0
    ≡ reply_for demo_env 1
        (sign_internal demo_env (parse_object_handle 0x10000000).1 ckm_ecdsa (5 ∷ []) b').0
round_ends_example =
    (round_ends demo_env 1 ckm_ecdsa 0x10000000 3 (5 ∷ []) resting 0 resting_backend resting-Has
      (record { logged_in = refl; idle = refl; fresh = refl })
      (subst (IsDeliverable 3) (sym resting_answer) (omega arith, omega arith))).1
