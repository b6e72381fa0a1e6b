-- ===== src/Shell/Contents.antt =====
-- What `cat` of src/shell.c prints.
use kfs.Prelude.{
  ℕ, ◌<◌, ◌≡◌, ◌≢◌, refl, ap, ◌∙◌, true, false, Option, some, List, [], ◌∷◌, ◌==◌, length, take_all,
  All, arith, pos, ℤ,
}
use kfs.Vfs.{Vfs, node_at, vfs_read, virtual, file_data, regular}
use kfs.Vfs.Reading.{read-content}
use kfs.Shell.{Shell, Answers, returned, say, before_mark}
use kfs.Shell.Paths.{resolve_path_from_pwd}
use kfs.Shell.Files.{cmd_cat, cat_node, print_content}

before_mark_text : (text : List ℕ) → All (λ c. c ≢ 0) text → before_mark text ≡ text
before_mark_text [] z = refl
before_mark_text (c ∷ text) z =
    let n : (c == 0) ≡ false = ground (arith, z.0) in
    rw n (ap (λ t. c ∷ t) (before_mark_text text z.1))

-- A regular virtual file whose size is that of its content.
pub record IsTextFile (st : Vfs) (n : ℕ) (content : List ℕ) : Type 0 where
  pub kind : (node_at st n).kind ≡ regular
  pub operation : (node_at st n).read ≡ virtual
  pub stored : (node_at st n).inode ≡ file_data content
  pub size : (node_at st n).size ≡ length content
  pub bound : length content < 0x100000000
  pub marks : All (λ c. c ≢ 0) content

read_whole :
    (st : Vfs) (n : ℕ) (content : List ℕ)
    → IsTextFile st n content
    → vfs_read st (some n) 0 (node_at st n).size true ≡ some (pos (length content), content)
unfolding vfs_read
read_whole st n content v =
    ap (λ s. vfs_read st (some n) 0 s true) v.size
    ∙ rw v.operation (
        read-content (node_at st n) content 0 (length content) v.stored (omega (arith, v.bound))
        ∙ ap (λ t. some (pos (length t), t)) (take_all (length content) content (omega arith)))

printed :
    (sh : Shell) (path content : List ℕ) (r : Option (ℤ × List ℕ))
    → r ≡ some (pos (length content), content)
    → All (λ c. c ≢ 0) content
    → print_content sh path r ≡ returned (say content sh)
unfolding print_content
printed sh path content r e z =
    ap (print_content sh path) e ∙ ap (λ t. returned (say t sh)) (before_mark_text content z)

node_printed :
    (ans : Answers) (sh : Shell) (path : List ℕ) (n : ℕ) (content : List ℕ)
    → IsTextFile sh.vfs n content
    → ans.buffer_memory ≡ true
    → cat_node ans sh path (some n) ≡ returned (say content sh)
unfolding cat_node
node_printed ans sh path n content v m =
    rw (v.kind, m) (printed sh path content _ (read_whole sh.vfs n content v) v.marks)

-- `cat` of a path that resolves to a regular virtual file, whose size is that of its content and below
-- 2 ^ 32, and whose content has no byte 0, prints that content, changes nothing else but the nodes that
-- the lookup makes, and returns, if its buffer is allocated.
pub cat-content :
    (ans : Answers) (sh : Shell) (name path : List ℕ) (rest : List (List ℕ)) (n : ℕ)
    (content : List ℕ)
    → let (file, vfs) = resolve_path_from_pwd ans sh path in
      file ≡ some n
      → IsTextFile vfs n content
      → ans.buffer_memory ≡ true
      → cmd_cat ans sh (name ∷ path ∷ rest) ≡ returned (say content (record sh { vfs = vfs }))
unfolding cmd_cat
cat-content ans sh name path rest n content e v m =
    ap (cat_node ans (record sh { vfs = (resolve_path_from_pwd ans sh path).1 }) path) e
    ∙ node_printed ans (record sh { vfs = (resolve_path_from_pwd ans sh path).1 }) path n content v
        m
