-- ===== src/Tests/Process.antt =====
-- The command lines of small processes.
use infisical_pkcs.Base.{◌≡◌, refl, [], ◌∷◌, some, arith, text}
use infisical_pkcs.Process.{little_endian, process_command_line_linux, process_command_line_darwin}
use infisical_pkcs.Process.Linux.{terminated, process_command_line_linux-terminated}
use infisical_pkcs.Process.Darwin.{procargs, process_command_line_darwin-procargs}

process_command_line_linux-terminated_example :
    process_command_line_linux (some (terminated (text "sign" ∷ [] ∷ text "app" ∷ [] ∷ []))) []
    ≡ text "sign" ∷ [] ∷ text "app" ∷ []
process_command_line_linux-terminated_example =
    process_command_line_linux-terminated (text "sign" ∷ [] ∷ []) (text "app") 1 [] (omega arith)
      (omega arith) refl

counted : little_endian (2 ∷ 0 ∷ 0 ∷ 0 ∷ []) ≡ 2
unfolding little_endian
counted = refl

-- A process with an empty name: its two arguments are read as the second one and a variable of its
-- environment.
process_command_line_darwin-procargs_example :
    process_command_line_darwin
      (some (procargs (2 ∷ 0 ∷ 0 ∷ 0 ∷ []) (text "/bin/s") 3 ([] ∷ text "app" ∷ text "KEY=1" ∷ [])))
      []
    ≡ text "app" ∷ text "KEY=1" ∷ []
process_command_line_darwin-procargs_example =
    process_command_line_darwin-procargs (2 ∷ 0 ∷ 0 ∷ 0 ∷ []) (text "/bin/s") 1 3 1 (text "app")
      (text "KEY=1" ∷ []) [] refl counted (omega arith) (omega arith) refl (omega arith)
