-- ===== src/Process/Linux.antt =====
-- What the command line of procfs is read back as.
use infisical_pkcs.Base.{
  ℕ, zero, suc, ◌≡◌, refl, ap, ◌∙◌, false, List, [], ◌∷◌, ◌++◌, some, arith, Bytes, is_empty, All,
  IsText, replicate,
}
use infisical_pkcs.Process.{trim_right_nul, split_nul, process_command_line_linux}

-- The contents of `/proc/self/cmdline`: each argument with a zero behind it.
unfoldable pub terminated : List Bytes → Bytes
terminated [] = []
terminated (arg ∷ args) = arg ++ (0 ∷ terminated args)

trim_nothing : (n : ℕ) → trim_right_nul (terminated (replicate n [])) ≡ []
unfolding trim_right_nul terminated
trim_nothing zero = refl
trim_nothing (suc n) = ground (arith, trim_nothing n)

-- What comes in front of text stays.
trim_append :
    (s : Bytes) (c : ℕ) (cs rest : Bytes)
    → trim_right_nul rest ≡ c ∷ cs
    → trim_right_nul (s ++ rest) ≡ s ++ (c ∷ cs)
unfolding trim_right_nul
trim_append [] c cs rest h = h
trim_append (x ∷ []) c cs rest h = ground (arith, h)
trim_append (x ∷ y ∷ s) c cs rest h = ground (arith, trim_append (y ∷ s) c cs rest h)

trim_zero :
    (rest t : Bytes) (d : ℕ) (ds : Bytes)
    → trim_right_nul rest ≡ t
    → t ≡ d ∷ ds
    → trim_right_nul (0 ∷ rest) ≡ 0 ∷ t
unfolding trim_right_nul
trim_zero rest t d ds trimmed there = ground (arith, trimmed, there)

trim_last :
    (c : ℕ) (cs rest : Bytes)
    → IsText (c ∷ cs)
    → trim_right_nul rest ≡ []
    → trim_right_nul ((c ∷ cs) ++ rest) ≡ c ∷ cs
unfolding trim_right_nul
trim_last c [] rest (h, hs) nothing = ground (arith, h, nothing)
trim_last c (d ∷ ds) rest (h, hs) nothing = ground (arith, trim_last d ds rest hs nothing)

split_arg : (s : Bytes) → IsText s → split_nul s ≡ s ∷ []
unfolding split_nul
split_arg [] h = refl
split_arg (c ∷ cs) (h, hs) = ground (arith, h, split_arg cs hs)

split_append : (s rest : Bytes) → IsText s → split_nul (s ++ (0 ∷ rest)) ≡ s ∷ split_nul rest
unfolding split_nul
split_append [] rest h = refl
split_append (c ∷ cs) rest (h, hs) = ground (arith, h, split_append cs rest hs)

-- The arguments joined by zeros, with no zero behind the last one.
unfoldable joined : List Bytes → Bytes → Bytes
joined [] last = last
joined (arg ∷ args) last = arg ++ (0 ∷ joined args last)

joined_nonempty :
    (args : List Bytes) (c : ℕ) (cs : Bytes)
    → (d : ℕ) × (ds : Bytes) × (joined args (c ∷ cs) ≡ d ∷ ds)
unfolding joined
joined_nonempty [] c cs = (c, cs, refl)
joined_nonempty ([] ∷ args) c cs = (0, joined args (c ∷ cs), refl)
joined_nonempty ((x ∷ xs) ∷ args) c cs = (x, xs ++ (0 ∷ joined args (c ∷ cs)), refl)

trim_right_nul-terminated :
    (args : List Bytes) (c : ℕ) (cs : Bytes) (n : ℕ)
    → IsText (c ∷ cs)
    → trim_right_nul (terminated (args ++ ((c ∷ cs) ∷ replicate n []))) ≡ joined args (c ∷ cs)
unfolding terminated joined
trim_right_nul-terminated [] c cs n h =
    trim_last c cs (0 ∷ terminated (replicate n [])) h (trim_nothing (suc n))
trim_right_nul-terminated (arg ∷ args) c cs n h =
    let rest = terminated (args ++ ((c ∷ cs) ∷ replicate n [])) in
    let (d, ds, e) = joined_nonempty args c cs in
    let ih = trim_right_nul-terminated args c cs n h in
    let ends : trim_right_nul (0 ∷ rest) ≡ 0 ∷ joined args (c ∷ cs) =
      trim_zero rest (joined args (c ∷ cs)) d ds ih e in
    trim_append arg 0 (joined args (c ∷ cs)) (0 ∷ rest) ends

split_nul-joined :
    (args : List Bytes) (last : Bytes)
    → All IsText args
    → IsText last
    → split_nul (joined args last) ≡ args ++ (last ∷ [])
unfolding joined
split_nul-joined [] last hs h = split_arg last h
split_nul-joined (arg ∷ args) last (ha, hs) h =
    split_append arg (joined args last) ha ∙ ap (λ r. arg ∷ r) (split_nul-joined args last hs h)

-- On Linux the arguments of the process are read back exactly, empty ones among them, up to the
-- last one that is not empty; empty arguments behind that are lost.
pub process_command_line_linux-terminated :
    (args : List Bytes) (last : Bytes) (n : ℕ) (os_args : List Bytes)
    → All IsText args
    → IsText last
    → is_empty last ≡ false
    → process_command_line_linux (some (terminated (args ++ (last ∷ replicate n [])))) os_args
      ≡ args ++ (last ∷ [])
unfolding process_command_line_linux
process_command_line_linux-terminated args [] n os_args hs h there = absurd (ground (arith, there))
process_command_line_linux-terminated args (c ∷ cs) n os_args hs h there =
    let (d, ds, e) = joined_nonempty args c cs in
    rw (trim_right_nul-terminated args c cs n h)
      (ground (arith, e, split_nul-joined args (c ∷ cs) hs h))
