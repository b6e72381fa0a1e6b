-- ===== src/Shell/Directory.antt =====
-- The working directory after `cd` of src/shell.c.
use kfs.Prelude.{
  ℕ, ◌<◌, ◌≤◌, ◌≡◌, refl, ap, sym, ◌∙◌, subst, true, false, inl, inr, Option, none, some, List, ◌∷◌,
  ◌++◌, leb, length, length-take, take_all, get_or-modify_self, arith, Bool-cases, codes,
}
use kfs.Vfs.{node_at, is_directory, same_text}
use kfs.Vfs.Lookup.{vfs_resolve_path}
use kfs.Process.{zero_process}
use kfs.Shell.{Shell, Answers, say_in}
use kfs.Shell.Paths.{
  cmd_cd, cd_to, change_pwd, kept_path, full_path, resolve_path_from_pwd, second, current_pwd,
  is_absolute,
}

-- `cd` either leaves the processes as they are, or moves the current process to a path of at most 255
-- characters.
length-full_path : (pwd path : List ℕ) → length (full_path pwd path) ≤ 255
unfolding full_path
length-full_path pwd path = elim (Bool-cases (same_text pwd (codes "/"))) [
  | inl b ↦ rw b (omega (arith, length-take 255 (b'/' ∷ path)))
  | inr b ↦ rw b (omega (arith, length-take 255 (pwd ++ (b'/' ∷ path))))
]

length-kept_path : (sh : Shell) (path : List ℕ) → length (kept_path sh path) ≤ 255
unfolding kept_path
length-kept_path sh path = elim (Bool-cases (is_absolute path)) [
  | inl b ↦ rw b (omega (arith, length-take 255 path))
  | inr b ↦ rw b (length-full_path (current_pwd sh) path)
]

-- For a path of at most 255 characters, what `cd` keeps is what it resolved.
resolve-kept :
    (ans : Answers) (sh : Shell) (path : List ℕ)
    → length path ≤ 255
    → resolve_path_from_pwd ans sh path
      ≡ vfs_resolve_path ans.lookup_memory sh.vfs (some (kept_path sh path))
unfolding resolve_path_from_pwd kept_path
resolve-kept ans sh path h = elim (Bool-cases (is_absolute path)) [
  | inl b ↦ rw (b, take_all 255 path h) refl
  | inr b ↦ rw b refl
]

-- Where `cd` moved, with the directory that the path was resolved to.
change_pwd-moved :
    (sh : Shell) (path : List ℕ) (i : ℕ)
    → sh.processes.current_process ≡ some i
    → i < length sh.processes.table
    → length path ≤ 255
    → current_pwd (change_pwd sh path) ≡ path
unfolding change_pwd
change_pwd-moved sh path i e b h =
    let l : leb 256 (length path) ≡ false = ground arith in
    rw (e, l)
      (ap (λ p. p.pwd)
        (get_or-modify_self (λ p. record p { pwd = path }) sh.processes.table i zero_process b))

cd_to-stays :
    (sh : Shell) (path : List ℕ) (dir : Option ℕ)
    → ((d : ℕ) → dir ≡ some d → is_directory (node_at sh.vfs d).kind ≡ false)
    → (cd_to sh path dir).processes ≡ sh.processes
unfolding cd_to say_in
cd_to-stays sh path none h = refl
cd_to-stays sh path (some d) h = rw (h d refl) refl

cd_to-moves :
    (sh : Shell) (path : List ℕ) (dir : Option ℕ) (d i : ℕ)
    → dir ≡ some d
    → is_directory (node_at sh.vfs d).kind ≡ true
    → sh.processes.current_process ≡ some i
    → i < length sh.processes.table
    → current_pwd (cd_to sh path dir) ≡ kept_path sh path
unfolding cd_to
cd_to-moves sh path dir d i e k c b =
    rw (e, k) (change_pwd-moved sh (kept_path sh path) i c b (length-kept_path sh path))

-- `cd` with a path of at most 255 characters, where a process of the table is current: if the path
-- resolves to a directory, the working directory becomes a path of at most 255 characters that resolves,
-- from the root, to that same directory; otherwise no process changes.
pub cd-resolves :
    (ans : Answers) (sh : Shell) (argv : List (List ℕ)) (i : ℕ)
    → sh.processes.current_process ≡ some i
    → i < length sh.processes.table
    → length (second (codes "/") argv) ≤ 255
    → let (dir, vfs) = resolve_path_from_pwd ans sh (second (codes "/") argv) in
      let sh' = cmd_cd ans sh argv in
      ((d : ℕ)
        → dir ≡ some d
        → is_directory (node_at vfs d).kind ≡ true
        → (vfs_resolve_path ans.lookup_memory sh.vfs (some (current_pwd sh')) ≡ (dir, vfs))
          × (length (current_pwd sh') ≤ 255))
      × (((d : ℕ) → dir ≡ some d → is_directory (node_at vfs d).kind ≡ false)
          → sh'.processes ≡ sh.processes)
unfolding cmd_cd kept_path
cd-resolves ans sh argv i c b h =
    let path = second (codes "/") argv in
    let r = resolve_path_from_pwd ans sh path in
    (
      λ d e k.
          let m = cd_to-moves (record sh { vfs = r.1 }) path r.0 d i e k c b in
          (
            ap (λ p. vfs_resolve_path ans.lookup_memory sh.vfs (some p)) m
                ∙ sym (resolve-kept ans sh path h),
            subst (λ p. length p ≤ 255) (sym m) (length-kept_path sh path),
          ),
      λ k. cd_to-stays (record sh { vfs = r.1 }) path r.0 k,
    )
