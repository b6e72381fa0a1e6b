-- ===== src/Shell/Files.antt =====
-- `cat` and `ls` of src/shell.c.
use kfs.Prelude.{
  ℕ, zero, suc, ◌+◌, Bool, true, false, ◌||◌, not, Option, none, some, List, ◌∷◌, ◌++◌, codes,
  length, ℤ, pos, negsuc, ◌=ℤ=◌, to_int, if◌then◌else◌,
}
use kfs.Vfs.{
  Vfs, Node, Filesystem, InodeField, number, file_data, node_at, is_directory, same_text,
  VfsFileType, regular, vfs_open, vfs_read,
}
use kfs.Vfs.Lookup.{vfs_readdir}
use kfs.Printk.Numbers.{uint_text, sign, magnitude}
use kfs.Shell.{
  Shell, Answers, Outcome, returned, undefined, say, complain, paint, before_mark, light_blue,
  light_grey, dark_grey,
}
use kfs.Shell.Paths.{second, current_pwd, resolve_path_from_pwd}

abbrev pub is_regular : VfsFileType → Bool
is_regular regular = true
is_regular _ = false

-- What `printk` prints for `%d`.
abbrev pub number_text : ℤ → List ℕ
number_text z = sign z ++ uint_text 10 (magnitude z)

-- After the read, by its result and the bytes in the buffer. The text is printed up to the first end
-- mark in it.
unfoldable pub print_content : Shell → List ℕ → Option (ℤ × List ℕ) → Outcome
unfolding say
print_content sh path none = undefined
print_content sh path (some (negsuc n, bytes)) =
    returned (complain (codes "cat: " ++ (path ++ codes ": Read error\n")) sh)
print_content sh path (some (pos n, bytes)) = returned (say (before_mark bytes) sh)

unfoldable pub cat_node : Answers → Shell → List ℕ → Option ℕ → Outcome
unfolding print_content
cat_node ans sh path none =
    returned (complain (codes "cat: " ++ (path ++ codes ": No such file or directory\n")) sh)
cat_node ans sh path (some n) =
    let node = node_at sh.vfs n in
    if not (is_regular node.kind)
    then returned (complain (codes "cat: " ++ (path ++ codes ": Not a regular file\n")) sh)
    else if not (vfs_open (some n) =ℤ= pos 0)
    then returned (complain (codes "cat: " ++ (path ++ codes ": Cannot open file\n")) sh)
    else if not ans.buffer_memory
    then returned (complain (codes "cat: Cannot allocate buffer\n") sh)
    else print_content sh path (vfs_read sh.vfs (some n) 0 node.size true)

unfoldable pub cmd_cat : Answers → Shell → List (List ℕ) → Outcome
unfolding cat_node
cmd_cat ans sh (name ∷ path ∷ rest) =
    let (file, vfs) = resolve_path_from_pwd ans sh path in
    cat_node ans (record sh { vfs = vfs }) path file
cmd_cat ans sh _ = returned (complain (codes "Usage: cat <file>\n") sh)

-- One line of `ls`.
unfoldable pub print_entry : Shell → Node → Shell
unfolding say
print_entry sh entry =
    let colour = if is_directory entry.kind then light_blue else light_grey in
    let named = say (codes "  " ++ entry.name) (paint colour sh) in
    let marked = if is_directory entry.kind then say (codes "/") named else named in
    let sized = codes " (" ++ (number_text (to_int entry.size) ++ codes " bytes)") in
    say (codes "\n") (if is_regular entry.kind then say sized (paint dark_grey marked) else marked)

-- The loop over the entries from `index` on, at most `fuel` of them.
unfoldable pub list_from : ℕ → Answers → Shell → (dir index : ℕ) → Option Shell
unfolding print_entry
list_from zero ans sh dir index = none
list_from (suc fuel) ans sh dir index =
    let (found, vfs) = vfs_readdir (ans.entry_memory index) sh.vfs (some dir) index in
    let sh' = record sh { vfs = vfs } in
    elim found [
      | none ↦ some sh'
      | some e ↦
          let entry = node_at vfs e in
          if same_text entry.name (codes ".") || same_text entry.name (codes "..")
          then list_from fuel ans sh' dir (index + 1)
          else list_from fuel ans (print_entry sh' entry) dir (index + 1)
    ]

unfoldable pub listed : Option Shell → Outcome
unfolding say
listed none = undefined
listed (some sh) = returned (say (codes "\n") (paint light_grey sh))

-- How many entries an EXT2 directory has.
abbrev pub disk_entries : Option Filesystem → InodeField → ℕ
disk_entries none i = 0
disk_entries (some f) (number i) = length (f.read_dir i)
disk_entries (some f) (file_data content) = 0

-- More steps than a directory has entries: a virtual one has each node at most once.
abbrev pub entry_bound : Vfs → ℕ → ℕ
entry_bound st d = suc (length st.nodes + disk_entries (node_at st d).fs (node_at st d).inode)

unfoldable pub list_node : Answers → Shell → List ℕ → Option ℕ → Outcome
unfolding listed list_from say
list_node ans sh path none =
    returned (complain (codes "ls: " ++ (path ++ codes ": No such file or directory\n")) sh)
list_node ans sh path (some d) =
    if not (is_directory (node_at sh.vfs d).kind)
    then returned (complain (codes "ls: " ++ (path ++ codes ": Not a directory\n")) sh)
    else listed (list_from (entry_bound sh.vfs d) ans (say (codes "\n") sh) d 0)

-- With no argument, the working directory is listed.
unfoldable pub cmd_ls : Answers → Shell → List (List ℕ) → Outcome
unfolding list_node
cmd_ls ans sh argv =
    let path = second (current_pwd sh) argv in
    let (dir, vfs) = resolve_path_from_pwd ans sh path in
    list_node ans (record sh { vfs = vfs }) path dir
