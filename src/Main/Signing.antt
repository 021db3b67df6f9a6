-- ===== src/Main/Signing.antt =====
-- main.go: `C_SignInit`, `C_Sign`, `C_SignUpdate` and `C_SignFinal`.
pub mod Protocol
pub mod Retry
pub mod Empty
pub mod Round
use infisical_pkcs.Base.{
  ℕ, Bool, true, false, List, [], ◌∷◌, Option, none, some, Bytes, length, ltb, is_empty,
  if◌then◌else◌,
}
use infisical_pkcs.Errors.{GoError, is_sentinel, not_logged_in}
use infisical_pkcs.Outcome.{Outcome, ok, err, panic}
use infisical_pkcs.Constants.{ckr_ok, ckr_arguments_bad, ckr_buffer_too_small}
use infisical_pkcs.Backend.State.{Env, Method, ◌>>=◌, ◌>>◌, pure, lift}
use infisical_pkcs.Backend.Signing.{
  sign_init, sign_data, sign_update, sign_final, estimate_signature_size, cache_sign_result,
  clear_sign_state_by_handle,
}
use infisical_pkcs.Main.Reply.{catch_error, when_initialized, plain_call}

-- The return value, what was copied to the caller's buffer, and what was stored as the length.
pub record SignReply : Type 0 where
  pub rv : ℕ
  pub copied : Option Bytes
  pub stored_length : Option ℕ

abbrev pub rv_reply : ℕ → SignReply
rv_reply rv = record { rv = rv; copied = none; stored_length = none }

module _ (e : Env) where
  open e use {service}

  -- The end of `C_Sign` and `C_SignFinal`: copy, or keep the signature for a larger buffer. The copy
  -- takes the address of the first byte, so an empty signature panics.
  unfoldable pub copy_signature : ℕ → ℕ → Bytes → Method service.World SignReply
  copy_signature sh room signature =
      if ltb room (length signature)
      then (cache_sign_result e sh signature
          >> pure (record {
            rv = ckr_buffer_too_small;
            copied = none;
            stored_length = some (length signature);
          }))
      else if is_empty signature
      then lift panic
      else (clear_sign_state_by_handle e sh
          >> pure (record {
            rv = ckr_ok;
            copied = some signature;
            stored_length = some (length signature);
          }))

  -- The answer to a null pointer for the signature: the size, with no signing.
  unfoldable pub size_query : ℕ → Method service.World SignReply
  size_query sh = do
    size ← estimate_signature_size e sh
    pure (record { rv = ckr_ok; copied = none; stored_length = some size })

  -- The end of both functions once the arguments are there: `has_buffer` is `pSignature != nil`.
  unfoldable pub deliver :
      ℕ → Bool → ℕ → Method service.World Bytes → Method service.World SignReply
  deliver sh has_buffer room signing =
      if has_buffer
      then catch_error e rv_reply (signing >>= λ signature. copy_signature sh room signature)
      else size_query sh

  -- `bytes` is what `pData` points to, and `room` what `pulSignatureLen` does.
  unfoldable pub c_sign : ℕ → Option Bytes → Bool → Option ℕ → Method service.World SignReply
  c_sign sh none has_buffer room = when_initialized e rv_reply (pure (rv_reply ckr_arguments_bad))
  c_sign sh (some bytes) has_buffer none =
      when_initialized e rv_reply (pure (rv_reply ckr_arguments_bad))
  c_sign sh (some bytes) has_buffer (some room) =
      when_initialized e rv_reply (deliver sh has_buffer room (sign_data e sh bytes))

  unfoldable pub c_sign_final : ℕ → Bool → Option ℕ → Method service.World SignReply
  c_sign_final sh has_buffer none = when_initialized e rv_reply (pure (rv_reply ckr_arguments_bad))
  c_sign_final sh has_buffer (some room) =
      when_initialized e rv_reply (deliver sh has_buffer room (sign_final e sh))

  -- `mechanism` is the type that `pMechanism` points to.
  unfoldable pub c_sign_init : ℕ → Option ℕ → ℕ → Method service.World ℕ
  c_sign_init sh none key = when_initialized e (λ rv. rv) (pure ckr_arguments_bad)
  c_sign_init sh (some mechanism) key = plain_call e (sign_init e sh (mechanism ∷ []) key)

  unfoldable pub c_sign_update : ℕ → Option Bytes → Method service.World ℕ
  c_sign_update sh none = when_initialized e (λ rv. rv) (pure ckr_arguments_bad)
  c_sign_update sh (some part) = plain_call e (sign_update e sh part)
