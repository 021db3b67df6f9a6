-- ===== src/Tests/Capture.antt =====
-- The captured context at concrete inputs.
use infisical_pkcs.Base.{◌≡◌, refl, [], ◌∷◌, none, some, text, arith}
use infisical_pkcs.Scope.Capture.{System, current_signing_context}
use infisical_pkcs.Scope.Capture.Hidden.{on_procfs, command_line, context_hides}
use infisical_pkcs.Tests.Scope.{pin_secret, pin_bare, plain_1, plain_2, ascii}

abbrev system : System
system = record {
  executable = some (text "/usr/bin/sign");
  read_file = λ path. some (text "program");
  arguments = [];
  hostname = text "build-1";
  username = none;
  base_name = λ path. text "sign";
  sha256_hex = λ contents. text "00";
  unicode_lower = ascii;
}

context_hides_example :
    (current_signing_context
      (on_procfs system
        (command_line (text "sign" ∷ []) [] (text "--pin") (text "app") (text "1234")))
      none).0
    ≡ (current_signing_context
        (on_procfs system
          (command_line (text "sign" ∷ []) [] (text "--pin") (text "app") (text "-x y")))
        none).0
context_hides_example =
    (context_hides (text "sign" ∷ []) [] (text "--pin") (text "app") system system (text "1234")
      (text "-x y") (omega arith) tt (omega arith) (omega arith) refl (omega arith) (omega arith)
      pin_secret pin_bare plain_1 plain_2).0
