-- ===== src/Scope/Secrecy.antt =====
-- That the captured command line says nothing of the values of secret flags.
use infisical_pkcs.Base.{
  ℕ, ◌≡◌, refl, sym, ap, ◌∙◌, Bool, true, false, List, [], ◌∷◌, ◌++◌, none, some, Bytes, arith, cut,
  index_byte, Option-cases, inl, inr, text,
}
use infisical_pkcs.Scope.Command.{
  redacted_value, split_inline, names_secret, redact_arg, redact_from, redact_command_args,
  join_command_args, truncate_command, captured_command,
}

cut-append :
    (c : ℕ) (key value : Bytes)
    → index_byte c key ≡ none
    → cut c (key ++ c ∷ value) ≡ some (key, value)
unfolding cut index_byte
cut-append c [] value h = ground arith
cut-append c (x ∷ key) value h = elim (Option-cases (index_byte c key)) [
  | inl e ↦ ground (arith, e, h, cut-append c key value e)
  | inr (i, e) ↦ absurd (ground (arith, e, h))
]

module _ (unicode : Bytes → Bytes) where
  -- Whether the argument behind these is taken for a secret.
  abbrev pending : Bool → List Bytes → Bool
  pending on [] = on
  pending on (arg ∷ args) = pending (redact_arg unicode on arg).1 args

  redact_from-append :
      (on : Bool) (before after : List Bytes)
      → redact_from unicode on (before ++ after)
        ≡ redact_from unicode on before ++ redact_from unicode (pending on before) after
  unfolding redact_from
  redact_from-append on [] after = refl
  redact_from-append on (arg ∷ args) after =
      ap (λ r. (redact_arg unicode on arg).0 ∷ r)
        (redact_from-append (redact_arg unicode on arg).1 args after)

  -- The value behind a secret flag.
  flagged :
      (on : Bool) (flag value : Bytes) (after : List Bytes)
      → names_secret unicode flag ≡ true
      → (split_inline flag).1 ≡ false
      → names_secret unicode value ≡ false
      → redact_from unicode on (flag ∷ value ∷ after)
        ≡ flag ∷ redacted_value ∷ redact_from unicode false after
  unfolding redact_from redact_arg
  flagged on flag value after secret bare plain = ground (arith, secret, bare, plain)

  -- The value behind the `=` of a secret name.
  inlined :
      (on : Bool) (key value : Bytes) (after : List Bytes)
      → index_byte b'=' key ≡ none
      → names_secret unicode (key ++ b'=' ∷ value) ≡ true
      → redact_from unicode on ((key ++ b'=' ∷ value) ∷ after)
        ≡ (key ++ text "=" ++ redacted_value) ∷ redact_from unicode false after
  unfolding redact_from redact_arg split_inline
  inlined on key value after bare secret = ground (arith, secret, cut-append b'=' key value bare)

  -- The value has no part in the name.
  same_name :
      (key value value' : Bytes)
      → index_byte b'=' key ≡ none
      → names_secret unicode (key ++ b'=' ∷ value) ≡ true
      → names_secret unicode (key ++ b'=' ∷ value') ≡ true
  unfolding names_secret split_inline
  same_name key value value' bare secret =
      ground (arith, secret, cut-append b'=' key value bare, cut-append b'=' key value' bare)

  -- Values that follow a secret flag, or stand behind the `=` of a secret name, do not reach the
  -- captured command line: whatever stands before and behind, another value gives the same command
  -- line. A value behind a flag must not itself be read as a secret flag.
  pub secrets_hidden :
      (before after : List Bytes)
      → ((flag value value' : Bytes)
          → names_secret unicode flag ≡ true
          → (split_inline flag).1 ≡ false
          → names_secret unicode value ≡ false
          → names_secret unicode value' ≡ false
          → captured_command unicode (before ++ flag ∷ value ∷ after)
            ≡ captured_command unicode (before ++ flag ∷ value' ∷ after))
        × ((key value value' : Bytes)
            → index_byte b'=' key ≡ none
            → names_secret unicode (key ++ b'=' ∷ value) ≡ true
            → captured_command unicode (before ++ (key ++ b'=' ∷ value) ∷ after)
              ≡ captured_command unicode (before ++ (key ++ b'=' ∷ value') ∷ after))
  unfolding captured_command redact_command_args
  secrets_hidden before after =
      let on = pending false before in
      (
        λ flag value value' secret bare plain plain'.
            ap (λ r. truncate_command (join_command_args r))
              (redact_from-append false before (flag ∷ value ∷ after)
                ∙ ap (λ r. redact_from unicode false before ++ r)
                    (flagged on flag value after secret bare plain
                      ∙ sym (flagged on flag value' after secret bare plain'))
                ∙ sym (redact_from-append false before (flag ∷ value' ∷ after))),
        λ key value value' bare secret.
            let secret' : names_secret unicode (key ++ b'=' ∷ value') ≡ true =
              same_name key value value' bare secret in
            ap (λ r. truncate_command (join_command_args r))
              (redact_from-append false before ((key ++ b'=' ∷ value) ∷ after)
                ∙ ap (λ r. redact_from unicode false before ++ r)
                    (inlined on key value after bare secret
                      ∙ sym (inlined on key value' after bare secret'))
                ∙ sym (redact_from-append false before ((key ++ b'=' ∷ value') ∷ after))),
      )
