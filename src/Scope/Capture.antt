-- ===== src/Scope/Capture.antt =====
-- signing_context.go: `currentSigningContext` and `fileSHA256`.
pub mod Hidden
use infisical_pkcs.Base.{List, [], Option, none, some, Bytes}
use infisical_pkcs.Scope.Defs.{SigningContext}
use infisical_pkcs.Scope.Command.{captured_command}

-- What the code asks the system for, and the functions of Go's packages that it applies.
pub record System : Type 0 where
  -- `os.Executable`, if it has no error
  pub executable : Option Bytes
  -- the contents of a file, if it can be opened and read to its end
  pub read_file : Bytes → Option Bytes
  -- what `processCommandLine` returns
  pub arguments : List Bytes
  -- `os.Hostname`, which is empty after an error
  pub hostname : Bytes
  -- the name of `user.Current`, if it has no error
  pub username : Option Bytes
  -- `filepath.Base`, the hash in hexadecimal digits, and `strings.ToLower` of a text not in ASCII
  pub base_name : Bytes → Bytes
  pub sha256_hex : Bytes → Bytes
  pub unicode_lower : Bytes → Bytes

unfoldable pub file_sha256 : System → Bytes → Bytes
file_sha256 sys path = elim (sys.read_file path) [
  | none ↦ []
  | some contents ↦ sys.sha256_hex contents
]

abbrev or_empty : Option Bytes → Bytes
or_empty none = []
or_empty (some s) = s

-- The function that `signingCtxOnce` runs.
unfoldable pub capture_context : System → SigningContext
unfolding file_sha256
capture_context sys = record {
  command = captured_command sys.unicode_lower sys.arguments;
  application = elim sys.executable [ none ↦ [] | some exe ↦ sys.base_name exe ];
  application_hash = elim sys.executable [ none ↦ [] | some exe ↦ file_sha256 sys exe ];
  hostname = sys.hostname;
  os_username = or_empty sys.username;
}

-- The context, and what `signingCtxOnce` and `signingCtx` keep: nothing before the first call.
unfoldable pub current_signing_context :
    System → Option SigningContext → SigningContext × Option SigningContext
current_signing_context sys none = let context = capture_context sys in (context, some context)
current_signing_context sys (some context) = (context, some context)
