-- ===== src/Tests/Scope.antt =====
-- The captured command line at concrete inputs.
use infisical_pkcs.Base.{
  ℕ, ◌≡◌, refl, Bool, true, false, List, [], ◌∷◌, ◌++◌, Bytes, text, arith, bytes_eq, has_prefix,
  has_suffix, to_lower, cut, index_byte, after_last, replicate, length, length-replicate, take, ◌≤◌,
}
use infisical_pkcs.Scope.Command.{
  split_inline, flag_name, arg_name, names_secret, is_secret_flag_name, has_secret_suffix,
  redact_arg, redact_colon, redact_from, redact_command_args, render_arg, join_command_args,
  truncate_command, captured_command,
}
use infisical_pkcs.Scope.Secrecy.{secrets_hidden}
use infisical_pkcs.Scope.Truncation.{truncate_command_lem}

abbrev pub ascii : Bytes → Bytes
ascii s = s

openly : Unit {0}
unfolding names_secret split_inline flag_name arg_name is_secret_flag_name has_secret_suffix
    has_prefix has_suffix to_lower cut index_byte after_last bytes_eq redact_arg redact_colon
    redact_from redact_command_args render_arg join_command_args truncate_command captured_command
    infisical_pkcs.Base.any
openly = tt

captures :
    captured_command ascii (
      text "tool"
      ∷ text "-StorePass"
      ∷ text "my pw"
      ∷ text "/p:Password=x"
      ∷ text "-pass:y"
      ∷ text "a b"
      ∷ [])
    ≡ text "tool -StorePass *** /p:Password=*** -pass:*** \"a b\""
unfolding openly
captures = refl

pub pin_secret : names_secret ascii (text "--pin") ≡ true
unfolding openly
pin_secret = refl

pub pin_bare : (split_inline (text "--pin")).1 ≡ false
unfolding openly
pin_bare = refl

pub plain_1 : names_secret ascii (text "1234") ≡ false
unfolding openly
plain_1 = refl

pub plain_2 : names_secret ascii (text "-x y") ≡ false
unfolding openly
plain_2 = refl

secrets_hidden_example :
    captured_command ascii ((text "tool" ∷ []) ++ text "--pin" ∷ text "1234" ∷ text "--sign" ∷ [])
    ≡ captured_command ascii ((text "tool" ∷ []) ++ text "--pin" ∷ text "-x y" ∷ text "--sign" ∷ [])
secrets_hidden_example =
    (secrets_hidden ascii (text "tool" ∷ []) (text "--sign" ∷ [])).0 (text "--pin") (text "1234")
      (text "-x y") pin_secret pin_bare plain_1 plain_2

truncate_command_lem_example : truncate_command (text "sign app.exe") ≡ text "sign app.exe"
truncate_command_lem_example = (truncate_command_lem (text "sign app.exe")).0 (omega arith)
