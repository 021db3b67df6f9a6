-- ===== src/Process.antt =====
-- signing_context_linux.go, _darwin.go, _windows.go and _other.go: `processCommandLine` on each
-- platform. `os_args` is `os.Args`, and `raw` what the system gives, if it does.
pub mod Linux
pub mod Darwin
use infisical_pkcs.Base.{
  ℕ, zero, suc, ◌+◌, ◌*◌, Bool, true, false, List, [], ◌∷◌, Option, none, some, Bytes, is_empty,
  index_byte, length, take, drop, leb, ltb, ◌==◌, if◌then◌else◌,
}

-- `strings.TrimRight(s, "\x00")`
unfoldable pub trim_right_nul : Bytes → Bytes
trim_right_nul [] = []
trim_right_nul (c ∷ cs) =
    let rest = trim_right_nul cs in
    if is_empty rest then (if c == 0 then [] else c ∷ []) else c ∷ rest

abbrev pub prepend : ℕ → List Bytes → List Bytes
prepend c [] = (c ∷ []) ∷ []
prepend c (part ∷ parts) = (c ∷ part) ∷ parts

-- `strings.Split(s, "\x00")`
unfoldable pub split_nul : Bytes → List Bytes
split_nul [] = [] ∷ []
split_nul (c ∷ cs) = elim (c == 0) [ true ↦ [] ∷ split_nul cs | false ↦ prepend c (split_nul cs) ]

-- Linux: `raw` is the contents of `/proc/self/cmdline`.
unfoldable pub process_command_line_linux : Option Bytes → List Bytes → List Bytes
process_command_line_linux none os_args = os_args
process_command_line_linux (some raw) os_args =
    let trimmed = trim_right_nul raw in if is_empty trimmed then os_args else split_nul trimmed

-- `binary.LittleEndian.Uint32`
unfoldable pub little_endian : Bytes → ℕ
little_endian [] = 0
little_endian (c ∷ cs) = c + 256 * little_endian cs

-- The loop that skips the padding behind the executable's path.
unfoldable pub skip_nul : Bytes → Bytes
skip_nul [] = []
skip_nul (c ∷ cs) = elim (c == 0) [ true ↦ skip_nul cs | false ↦ c ∷ cs ]

-- The loop that reads at most `n` arguments.
unfoldable pub read_args : (n : ℕ) → Bytes → List Bytes
read_args zero rest = []
read_args (suc n) [] = []
read_args (suc n) (c ∷ cs) = elim (index_byte 0 (c ∷ cs)) [
  | none ↦ (c ∷ cs) ∷ []
  | some end ↦ take end (c ∷ cs) ∷ read_args n (drop (end + 1) (c ∷ cs))
]

abbrev pub or_args : List Bytes → List Bytes → List Bytes
or_args [] os_args = os_args
or_args (arg ∷ args) os_args = arg ∷ args

-- macOS: `raw` is the value of `kern.procargs2`, whose first four bytes count the arguments.
unfoldable pub process_command_line_darwin : Option Bytes → List Bytes → List Bytes
process_command_line_darwin none os_args = os_args
process_command_line_darwin (some raw) os_args =
    let argc = little_endian (take 4 raw) in
    let rest = drop 4 raw in
    if ltb (length raw) 4
    then os_args
    else if leb argc 0
    then os_args
    else elim (index_byte 0 rest) [
      | none ↦ os_args
      | some exec_end ↦ or_args (read_args argc (skip_nul (drop exec_end rest))) os_args
    ]

-- Windows: `raw` is what `GetCommandLine` gives, unless it is nil, and `decompose` stands for
-- `windows.DecomposeCommandLine`.
unfoldable pub process_command_line_windows :
    (decompose : Bytes → Option (List Bytes)) → Option Bytes → List Bytes → List Bytes
process_command_line_windows decompose none os_args = os_args
process_command_line_windows decompose (some raw) os_args = elim (decompose raw) [
  | none ↦ os_args
  | some args ↦ or_args args os_args
]

unfoldable pub process_command_line_other : List Bytes → List Bytes
process_command_line_other os_args = os_args
