-- ===== src/Scope/Capture/Hidden.antt =====
-- What the captured context shows of the bytes of procfs, and when it is captured.
use infisical_pkcs.Base.{
  ◌≡◌, refl, ap, ◌∙◌, true, false, List, [], ◌∷◌, ◌++◌, none, some, Bytes, is_empty, All, IsText,
  arith,
}
use infisical_pkcs.Process.{process_command_line_linux}
use infisical_pkcs.Process.Linux.{terminated, process_command_line_linux-terminated}
use infisical_pkcs.Scope.Command.{names_secret, split_inline, captured_command}
use infisical_pkcs.Scope.Secrecy.{secrets_hidden}
use infisical_pkcs.Scope.Capture.{System, capture_context, current_signing_context}

append_texts : (xs ys : List Bytes) → All IsText xs → All IsText ys → All IsText (xs ++ ys)
append_texts [] ys h hs = hs
append_texts (x ∷ xs) ys (h, hx) hs = (h, append_texts xs ys hx hs)

append_assoc : (xs ys zs : List Bytes) → (xs ++ ys) ++ zs ≡ xs ++ (ys ++ zs)
append_assoc [] ys zs = refl
append_assoc (x ∷ xs) ys zs = ap (λ r. x ∷ r) (append_assoc xs ys zs)

-- The system, with the arguments that procfs shows.
abbrev pub on_procfs : System → List Bytes → System
on_procfs sys args = record sys {
  arguments = process_command_line_linux (some (terminated args)) [];
}

module _ (before after : List Bytes) (flag last : Bytes) where
  abbrev pub command_line : Bytes → List Bytes
  command_line value = (before ++ (flag ∷ value ∷ after)) ++ (last ∷ [])

  read_back :
      (value : Bytes)
      → All IsText before
      → All IsText after
      → IsText flag
      → IsText last
      → is_empty last ≡ false
      → IsText value
      → process_command_line_linux (some (terminated (command_line value))) []
        ≡ before ++ (flag ∷ value ∷ (after ++ (last ∷ [])))
  read_back value hb ha hf hl there hv =
      let args = before ++ (flag ∷ value ∷ after) in
      process_command_line_linux-terminated args last 0 []
        (append_texts before (flag ∷ value ∷ after) hb (hf, (hv, ha))) hl there
      ∙ append_assoc before (flag ∷ value ∷ after) (last ∷ [])

  -- On Linux, from the bytes of procfs on: the value that follows a secret flag does not reach the
  -- captured context, since another value gives the same one, if neither value is itself read as a
  -- secret flag and the last argument is not empty; and the context of the first call is that of
  -- every later call, whatever the system then says.
  pub context_hides :
      (sys later : System) (value value' : Bytes)
      → All IsText before
      → All IsText after
      → IsText flag
      → IsText last
      → is_empty last ≡ false
      → IsText value
      → IsText value'
      → names_secret sys.unicode_lower flag ≡ true
      → (split_inline flag).1 ≡ false
      → names_secret sys.unicode_lower value ≡ false
      → names_secret sys.unicode_lower value' ≡ false
      → let (context, kept) = current_signing_context (on_procfs sys (command_line value)) none in
        let (context', kept') =
          current_signing_context (on_procfs sys (command_line value')) none in
        (context ≡ context') × ((current_signing_context later kept).0 ≡ context)
  unfolding current_signing_context capture_context
  context_hides sys later value value' hb ha hf hl there hv hv' secret bare plain plain' =
      let same : captured_command sys.unicode_lower
            (process_command_line_linux (some (terminated (command_line value))) [])
          ≡ captured_command sys.unicode_lower
              (process_command_line_linux (some (terminated (command_line value'))) []) =
        rw (read_back value hb ha hf hl there hv, read_back value' hb ha hf hl there hv')
          ((secrets_hidden sys.unicode_lower before (after ++ (last ∷ []))).0 flag value value'
            secret bare plain plain') in
      (ground (arith, same), refl)
