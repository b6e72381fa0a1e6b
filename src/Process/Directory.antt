-- ===== src/Process/Directory.antt =====
-- The working directory of a process, at the end of src/process.c.
use kfs.Prelude.{
  ℕ, ◌≡◌, refl, Option, none, some, List, [], ◌∷◌, leb, length, modify, replicate, ℤ, pos, negsuc,
  if◌then◌else◌,
}
use kfs.Process.{Processes, at_index, boot_processes}

-- The size of `pwd`.
abbrev pub pwd_size : ℕ
pwd_size = 256

abbrev pub process_get_pwd : Processes → Option ℕ → Option (List ℕ)
process_get_pwd st none = none
process_get_pwd st (some i) = some (at_index st i).pwd

-- A path whose end mark does not fit is refused.
abbrev pub process_set_pwd : Processes → Option ℕ → Option (List ℕ) → ℤ × Processes
process_set_pwd st (some i) (some path) =
    if leb pwd_size (length path)
    then (negsuc 0, st)
    else (pos 0, record st { table = modify (λ p. record p { pwd = path }) st.table i })
process_set_pwd st _ _ = (negsuc 0, st)

set_pwd_kept :
    process_get_pwd (process_set_pwd boot_processes (some 3) (some (b'/' ∷ b'd' ∷ []))).1 (some 3)
    ≡ some (b'/' ∷ b'd' ∷ [])
set_pwd_kept = refl

set_pwd_long : (process_set_pwd boot_processes (some 3) (some (replicate 256 b'd'))).0 ≡ negsuc 0
set_pwd_long = refl
