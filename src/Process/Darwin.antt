-- ===== src/Process/Darwin.antt =====
-- What the value of `kern.procargs2` is read back as.
use infisical_pkcs.Base.{
  ℕ, zero, suc, ◌+◌, ◌≡◌, refl, ap, ◌∙◌, subst, ◌≤◌, false, List, [], ◌∷◌, ◌++◌, some, arith, Bytes,
  is_empty, All, IsText, replicate, index_byte, take, drop, length, length-append,
}
use infisical_pkcs.Process.{little_endian, skip_nul, read_args, process_command_line_darwin}
use infisical_pkcs.Process.Linux.{terminated}

-- `kern.procargs2`: the count, the path of the executable with a zero and `n` more behind it, and
-- the arguments and the environment, each with a zero behind it.
unfoldable pub procargs : (count path : Bytes) (n : ℕ) → List Bytes → Bytes
unfolding terminated
procargs count path n strings = count ++ (path ++ (0 ∷ (replicate n 0 ++ terminated strings)))

index_text : (s rest : Bytes) → IsText s → index_byte 0 (s ++ (0 ∷ rest)) ≡ some (length s)
unfolding index_byte
index_text [] rest h = refl
index_text (c ∷ cs) rest (h, hs) = ground (arith, h, index_text cs rest hs)

take_front : (s rest : Bytes) → take (length s) (s ++ rest) ≡ s
take_front [] rest = refl
take_front (c ∷ cs) rest = ap (λ r. c ∷ r) (take_front cs rest)

drop_front : (s rest : Bytes) → drop (length s) (s ++ rest) ≡ rest
drop_front [] rest = refl
drop_front (c ∷ cs) rest = drop_front cs rest

drop_text : (s rest : Bytes) → drop (length s + 1) (s ++ (0 ∷ rest)) ≡ rest
drop_text [] rest = refl
drop_text (c ∷ cs) rest =
    let e : suc (length cs) + 1 ≡ suc (length cs + 1) = omega arith in rw e (drop_text cs rest)

skip_zeros : (n : ℕ) (rest : Bytes) → skip_nul (replicate n 0 ++ rest) ≡ skip_nul rest
unfolding skip_nul
skip_zeros zero rest = refl
skip_zeros (suc n) rest = skip_zeros n rest

skip_empty :
    (n : ℕ) (strings : List Bytes)
    → skip_nul (terminated (replicate n [] ++ strings)) ≡ skip_nul (terminated strings)
unfolding skip_nul terminated
skip_empty zero strings = refl
skip_empty (suc n) strings = skip_empty n strings

skip_first :
    (c : ℕ) (cs : Bytes) (strings : List Bytes)
    → IsText (c ∷ cs)
    → skip_nul (terminated ((c ∷ cs) ∷ strings)) ≡ terminated ((c ∷ cs) ∷ strings)
unfolding skip_nul terminated
skip_first c cs strings (h, hs) = ground (arith, h)

read_one :
    (n : ℕ) (s rest : Bytes) → IsText s → read_args (suc n) (s ++ (0 ∷ rest)) ≡ s ∷ read_args n rest
unfolding read_args
read_one n [] rest h = unfold index_byte in refl
read_one n (c ∷ cs) rest h =
    let s = c ∷ cs in
    let found : index_byte 0 (s ++ (0 ∷ rest)) ≡ some (length s) = index_text s rest h in
    let front : take (length s) (s ++ (0 ∷ rest)) ≡ s = take_front s (0 ∷ rest) in
    let behind : drop (length s + 1) (s ++ (0 ∷ rest)) ≡ rest = drop_text s rest in
    ground (arith, found, front, behind)

read_args-terminated :
    (n : ℕ) (strings : List Bytes)
    → All IsText strings
    → read_args n (terminated strings) ≡ take n strings
unfolding terminated read_args
read_args-terminated zero strings h = refl
read_args-terminated (suc n) [] h = refl
read_args-terminated (suc n) (s ∷ strings) (h, hs) =
    read_one n s (terminated strings) h ∙ ap (λ r. s ∷ r) (read_args-terminated n strings hs)

darwin_found :
    (raw : Bytes) (argc exec_end : ℕ) (arg : Bytes) (args os_args : List Bytes)
    → 4 ≤ length raw
    → little_endian (take 4 raw) ≡ suc argc
    → index_byte 0 (drop 4 raw) ≡ some exec_end
    → read_args (suc argc) (skip_nul (drop exec_end (drop 4 raw))) ≡ arg ∷ args
    → process_command_line_darwin (some raw) os_args ≡ arg ∷ args
unfolding process_command_line_darwin
darwin_found raw argc exec_end arg args os_args long counted found read =
    ground (arith, long, counted, found, read)

-- On macOS the arguments are the first of the strings behind the path of the executable, as many as
-- the system counts, from the first one on that is not empty. So they are read back exactly if the
-- name of the program is not empty; each empty string in front lets one more string in at the end,
-- the first of the environment among them.
pub process_command_line_darwin-procargs :
    (count path : Bytes) (argc n m : ℕ) (first : Bytes) (strings : List Bytes)
    (os_args : List Bytes)
    → length count ≡ 4
    → little_endian count ≡ suc argc
    → IsText path
    → IsText first
    → is_empty first ≡ false
    → All IsText strings
    → process_command_line_darwin
        (some (procargs count path n (replicate m [] ++ (first ∷ strings))))
        os_args
      ≡ first ∷ take argc strings
unfolding procargs skip_nul
process_command_line_darwin-procargs count path argc n m [] strings os_args four counted ph fh there
      hs =
    absurd (ground (arith, there))
process_command_line_darwin-procargs count path argc n m (c ∷ cs) strings os_args four counted ph fh
      there hs =
    let all = (c ∷ cs) ∷ strings in
    let behind = replicate n 0 ++ terminated (replicate m [] ++ all) in
    let rest = path ++ (0 ∷ behind) in
    let front = subst (λ k. take k (count ++ rest) ≡ count) four (take_front count rest) in
    let tail = subst (λ k. drop k (count ++ rest) ≡ rest) four (drop_front count rest) in
    let skipped : skip_nul (0 ∷ behind) ≡ terminated all =
      skip_zeros n (terminated (replicate m [] ++ all))
      ∙ skip_empty m all
      ∙ skip_first c cs strings fh in
    let read : read_args (suc argc) (skip_nul (drop (length path) rest))
        ≡ (c ∷ cs) ∷ take argc strings =
      rw (drop_front path (0 ∷ behind), skipped) (read_args-terminated (suc argc) all (fh, hs)) in
    darwin_found (count ++ rest) argc (length path) (c ∷ cs) (take argc strings) os_args
      (omega (arith, length-append count rest, four)) (rw front counted)
      (rw tail (index_text path behind ph)) (rw tail read)
