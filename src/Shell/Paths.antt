-- ===== src/Shell/Paths.antt =====
-- How src/shell.c resolves a path, with `cd` and `pwd`.
use kfs.Prelude.{
  ℕ, Bool, false, not, Option, none, some, List, [], ◌∷◌, ◌++◌, ◌==◌, take, codes, pos, ◌=ℤ=◌,
  if◌then◌else◌,
}
use kfs.Vfs.{Vfs, node_at, is_directory, same_text}
use kfs.Vfs.Lookup.{vfs_resolve_path}
use kfs.Process.{Processes, at_index}
use kfs.Process.Directory.{process_set_pwd}
use kfs.Shell.{Shell, Answers, say, complain}

-- `argv[i]`, given how far it is from the start; the other argument stands where there is none.
abbrev pub second : List ℕ → List (List ℕ) → List ℕ
second other (name ∷ path ∷ rest) = path
second other _ = other

-- The working directory of the current process, the root if there is none.
abbrev pub pwd_of : Processes → Option ℕ → List ℕ
pwd_of st none = codes "/"
pwd_of st (some i) = (at_index st i).pwd

abbrev pub current_pwd : Shell → List ℕ
current_pwd sh = pwd_of sh.processes sh.processes.current_process

-- What `snprintf` writes into the 256 bytes of `full_path`.
unfoldable pub full_path : (pwd path : List ℕ) → List ℕ
full_path pwd path =
    if same_text pwd (codes "/") then take 255 (b'/' ∷ path) else take 255 (pwd ++ (b'/' ∷ path))

abbrev pub is_absolute : List ℕ → Bool
is_absolute [] = false
is_absolute (c ∷ path) = c == b'/'

unfoldable pub resolve_path_from_pwd : Answers → Shell → List ℕ → Option ℕ × Vfs
unfolding full_path
resolve_path_from_pwd ans sh path =
    if is_absolute path
    then vfs_resolve_path ans.lookup_memory sh.vfs (some path)
    else vfs_resolve_path ans.lookup_memory sh.vfs (some (full_path (current_pwd sh) path))

-- The path that `cd` keeps, in its own 256 bytes.
unfoldable pub kept_path : Shell → List ℕ → List ℕ
unfolding full_path
kept_path sh path = if is_absolute path then take 255 path else full_path (current_pwd sh) path

unfoldable pub change_pwd : Shell → List ℕ → Shell
change_pwd sh path = elim sh.processes.current_process [
  | none ↦ complain (codes "cd: No current process\n") sh
  | some i ↦
      let (result, st) = process_set_pwd sh.processes (some i) (some path) in
      if result =ℤ= pos 0
      then record sh { processes = st }
      else complain (codes "cd: Cannot change directory\n") (record sh { processes = st })
]

-- `cd` with its path, once that is resolved.
unfoldable pub cd_to : Shell → List ℕ → Option ℕ → Shell
unfolding kept_path change_pwd
cd_to sh path none = complain (codes "cd: " ++ (path ++ codes ": No such file or directory\n")) sh
cd_to sh path (some d) =
    if not (is_directory (node_at sh.vfs d).kind)
    then complain (codes "cd: " ++ (path ++ codes ": Not a directory\n")) sh
    else change_pwd sh (kept_path sh path)

unfoldable pub cmd_cd : Answers → Shell → List (List ℕ) → Shell
unfolding resolve_path_from_pwd cd_to
cmd_cd ans sh argv =
    let path = second (codes "/") argv in
    let (dir, vfs) = resolve_path_from_pwd ans sh path in cd_to (record sh { vfs = vfs }) path dir

unfoldable pub cmd_pwd : Shell → Shell
unfolding say
cmd_pwd sh = say (current_pwd sh ++ codes "\n") sh
