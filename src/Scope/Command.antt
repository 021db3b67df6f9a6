-- ===== src/Scope/Command.antt =====
-- signing_context.go: the command line of the process, without its secrets, joined and cut.
use infisical_pkcs.Base.{
  ℕ, zero, suc, Bool, true, false, not, ◌&&◌, ◌||◌, List, [], ◌∷◌, ◌++◌, none, some, Bytes, text,
  is_empty, contains_text, has_prefix, has_suffix, to_lower, cut, index_byte, after_last, any,
  length, take, drop, get_elem?, leb, ltb, ◌==◌, if◌then◌else◌,
}

abbrev pub max_command_len : ℕ
max_command_len = 32767

abbrev pub redacted_value : Bytes
redacted_value = text "***"

abbrev pub secret_command_flags : List Bytes
secret_command_flags =
    text "storepass"
    ∷ text "keypass"
    ∷ text "pass"
    ∷ text "passin"
    ∷ text "passout"
    ∷ text "password"
    ∷ text "passphrase"
    ∷ text "pin"
    ∷ text "p"
    ∷ text "pw"
    ∷ []

unfoldable pub has_secret_suffix : Bytes → Bool
has_secret_suffix name =
    has_suffix name (text "password")
    || has_suffix name (text "passphrase")
    || has_suffix name (text "passwd")

-- What stands behind the last of `:`, `.` and `_`.
abbrev sub_key : Bytes → Bytes
sub_key name = after_last (λ c. c == b':' || c == b'.' || c == b'_') name

abbrev is_secret_name : Bytes → Bool
is_secret_name name = contains_text secret_command_flags name || has_secret_suffix name

unfoldable pub is_secret_flag_name : Bytes → Bool → Bool
is_secret_flag_name name has_inline_value =
    if is_empty name
    then false
    else if is_secret_name name
    then true
    else if not has_inline_value
    then false
    else is_secret_name (sub_key name)

-- The argument before its first `=`, and whether it has one.
unfoldable pub split_inline : Bytes → Bytes × Bool
split_inline arg = elim (cut b'=' arg) [ none ↦ (arg, false) | some (key, value) ↦ (key, true) ]

-- `unicode` is `strings.ToLower` of a text that is not ASCII.
module _ (unicode : Bytes → Bytes) where
  unfoldable pub flag_name : Bytes → Bytes
  flag_name token =
      if has_prefix token (text "--")
      then to_lower unicode (drop 2 token)
      else if has_prefix token (text "-") || has_prefix token (text "/")
      then to_lower unicode (drop 1 token)
      else []

  -- The name that an argument is judged by.
  unfoldable pub arg_name : Bytes → Bool → Bytes
  arg_name key has_inline_value =
      if is_empty (flag_name key) && has_inline_value then to_lower unicode key else flag_name key

  -- Whether an argument names a secret, and whether it has its value behind an `=`.
  unfoldable pub names_secret : Bytes → Bool
  names_secret arg =
      let (key, has_inline_value) = split_inline arg in
      is_secret_flag_name (arg_name key has_inline_value) has_inline_value

  -- "-pass:secret" carries its value in the same token after the colon.
  unfoldable pub redact_colon : Bytes → Bytes
  redact_colon arg = elim (index_byte b':' arg) [
    | none ↦ arg
    | some colon ↦
        if ltb 0 colon && is_secret_flag_name (flag_name (take colon arg)) false
        then take (suc colon) arg ++ redacted_value
        else arg
  ]

  -- One round of the loop: the argument as it is shown, and whether the next one is a secret.
  unfoldable pub redact_arg : Bool → Bytes → Bytes × Bool
  redact_arg redact_value arg =
      let (key, has_inline_value) = split_inline arg in
      if names_secret arg
      then (if has_inline_value then (key ++ text "=" ++ redacted_value, false) else (arg, true))
      else if redact_value
      then (redacted_value, false)
      else (if has_inline_value then arg else redact_colon arg, false)

  unfoldable pub redact_from : Bool → List Bytes → List Bytes
  redact_from redact_value [] = []
  redact_from redact_value (arg ∷ args) =
      let (shown, redact_next) = redact_arg redact_value arg in shown ∷ redact_from redact_next args

  unfoldable pub redact_command_args : List Bytes → List Bytes
  redact_command_args args = redact_from false args

unfoldable pub render_arg : Bytes → Bytes
render_arg arg =
    if is_empty arg
    then text "\"\""
    else if any (λ c. c == b' ' || c == b'\t') arg
    then text "\"" ++ arg ++ text "\""
    else arg

-- `strings.Join(rendered, " ")`
unfoldable pub join_command_args : List Bytes → Bytes
join_command_args [] = []
join_command_args (arg ∷ []) = render_arg arg
join_command_args (arg ∷ next ∷ args) =
    render_arg arg ++ text " " ++ join_command_args (next ∷ args)

-- `utf8.RuneStart`: any byte but a continuation byte.
abbrev pub rune_start : ℕ → Bool
rune_start c = ltb c 128 || leb 192 c

-- The last position up to `n` at which a rune starts, or 0.
unfoldable pub rune_cut : Bytes → ℕ → ℕ
rune_cut s zero = zero
rune_cut s (suc n) =
    let before = rune_cut s n in
    elim (get_elem? s (suc n)) [ none ↦ suc n | some c ↦ if rune_start c then suc n else before ]

unfoldable pub truncate_command : Bytes → Bytes
truncate_command command =
    if leb (length command) max_command_len
    then command
    else take (rune_cut command max_command_len) command

-- `currentSigningContext`, the command: `args` is what `processCommandLine` returned.
unfoldable pub captured_command : (unicode : Bytes → Bytes) → List Bytes → Bytes
captured_command unicode args =
    truncate_command (join_command_args (redact_command_args unicode args))
