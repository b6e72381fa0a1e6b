-- ===== src/Vfs/Lookup.antt =====
-- The directories and paths of src/vfs.c.
use kfs.Prelude.{
  ℕ, zero, suc, ◌%◌, Bool, not, Option, none, some, List, [], ◌∷◌, ◌++◌, ◌==◌, length, take,
  get_elem?, if◌then◌else◌,
}
use kfs.Ext2.{Ext2Inode}
use kfs.Ext2.Data.{DirEntry}
use kfs.Vfs.{
  Vfs, Node, Filesystem, null, virtual, ext2, number, file_data, zero_node, node_at, is_directory,
  same_text, ext2_to_vfs_type,
}

-- A new node at the end of the table.
abbrev pub add_node : Vfs → Node → Option ℕ × Vfs
add_node st n = (some (length st.nodes), record st { nodes = st.nodes ++ (n ∷ []) })

abbrev pub ext2_node : Filesystem → ℕ → List ℕ → Ext2Inode → Node
ext2_node f inode_num name i =
    let kind = ext2_to_vfs_type i.i_mode in
    let listing = if is_directory kind then ext2 else null in
    record zero_node {
      name = take 255 name;
      inode = number inode_num;
      size = i.i_size;
      kind = kind;
      links = i.i_links_count;
      uid = i.i_uid;
      gid = i.i_gid;
      mode = i.i_mode % 0x1000;
      fs = some f;
      ext2_inode = i;
      read = ext2;
      write = ext2;
      readdir = listing;
      finddir = listing;
    }

unfoldable pub vfs_create_node_from_ext2 : Bool → Vfs → Filesystem → ℕ → List ℕ → Option ℕ × Vfs
vfs_create_node_from_ext2 ok st f inode_num name = elim (f.read_inode inode_num) [
  | none ↦ (none, st)
  | some i ↦ if ok then add_node st (ext2_node f inode_num name i) else (none, st)
]

-- The search of `vfs_virtual_finddir` from `child` on, along at most `fuel` siblings.
unfoldable pub find_child : ℕ → Vfs → Option ℕ → List ℕ → Option ℕ
find_child zero st child name = none
find_child (suc fuel) st none name = none
find_child (suc fuel) st (some c) name =
    let rest = find_child fuel st (node_at st c).next_sibling name in
    if same_text (node_at st c).name name then some c else rest

unfoldable pub vfs_virtual_finddir : Vfs → ℕ → List ℕ → Option ℕ
unfolding find_child
vfs_virtual_finddir st n name =
    if is_directory (node_at st n).kind
    then find_child (length st.nodes) st (node_at st n).children name
    else none

-- The first entry with the name, as `finddir_callback` keeps it.
unfoldable pub find_entry : List DirEntry → List ℕ → Option ℕ
find_entry [] name = none
find_entry (e ∷ es) name =
    let rest = find_entry es name in
    if same_text (take 255 e.entry_name) name then some e.entry_inode else rest

unfoldable vfs_ext2_finddir : Bool → Vfs → ℕ → List ℕ → Option ℕ × Vfs
unfolding find_entry vfs_create_node_from_ext2
vfs_ext2_finddir ok st n name = elim (node_at st n).fs [
  | none ↦ (none, st)
  | some f ↦
      if not (is_directory (node_at st n).kind) then (none, st) else elim (node_at st n).inode [
        | number i ↦ elim (find_entry (f.read_dir i) name) [
          | none ↦ (none, st)
          | some found ↦ vfs_create_node_from_ext2 ok st f found name
        ]
        | file_data content ↦ (none, st)
      ]
]

-- The call through the pointer of the node, NULL where there is none.
unfoldable pub call_finddir : Bool → Vfs → ℕ → List ℕ → Option ℕ × Vfs
unfolding vfs_virtual_finddir vfs_ext2_finddir
call_finddir ok st n name = elim (node_at st n).finddir [
  | null ↦ (none, st)
  | virtual ↦ (vfs_virtual_finddir st n name, st)
  | ext2 ↦ vfs_ext2_finddir ok st n name
]

abbrev pub vfs_finddir : Bool → Vfs → Option ℕ → Option (List ℕ) → Option ℕ × Vfs
vfs_finddir ok st (some n) (some name) = call_finddir ok st n name
vfs_finddir ok st _ _ = (none, st)

-- The sibling at a distance from `child`.
unfoldable pub nth_child : ℕ → Vfs → Option ℕ → Option ℕ
nth_child zero st child = child
nth_child (suc index) st none = none
nth_child (suc index) st (some c) = nth_child index st (node_at st c).next_sibling

-- The result is a copy of the node.
unfoldable pub vfs_virtual_readdir : Bool → Vfs → ℕ → ℕ → Option ℕ × Vfs
unfolding nth_child
vfs_virtual_readdir ok st n index =
    if not (is_directory (node_at st n).kind)
    then (none, st)
    else elim (nth_child index st (node_at st n).children) [
      | none ↦ (none, st)
      | some c ↦ if ok then add_node st (node_at st c) else (none, st)
    ]

unfoldable pub vfs_ext2_readdir : Bool → Vfs → ℕ → ℕ → Option ℕ × Vfs
unfolding vfs_create_node_from_ext2
vfs_ext2_readdir ok st n index = elim (node_at st n).fs [
  | none ↦ (none, st)
  | some f ↦
      if not (is_directory (node_at st n).kind) then (none, st) else elim (node_at st n).inode [
        | number i ↦ elim (get_elem? (f.read_dir i) index) [
          | none ↦ (none, st)
          | some e ↦ vfs_create_node_from_ext2 ok st f e.entry_inode (take 255 e.entry_name)
        ]
        | file_data content ↦ (none, st)
      ]
]

abbrev pub vfs_readdir : Bool → Vfs → Option ℕ → ℕ → Option ℕ × Vfs
vfs_readdir ok st none index = (none, st)
vfs_readdir ok st (some n) index = elim (node_at st n).readdir [
  | null ↦ (none, st)
  | virtual ↦ vfs_virtual_readdir ok st n index
  | ext2 ↦ vfs_ext2_readdir ok st n index
]

abbrev pub put_front : ℕ → List (List ℕ) → List (List ℕ)
put_front c [] = (c ∷ []) ∷ []
put_front c (t ∷ ts) = (c ∷ t) ∷ ts

-- The tokens between the slashes of the path's copy.
unfoldable pub tokens : List ℕ → List (List ℕ)
tokens [] = [] ∷ []
tokens (c ∷ cs) = let rest = tokens cs in if c == b'/' then [] ∷ rest else put_front c rest

-- The loop of `vfs_resolve_path`. `ok i` is the answer to an allocation where `i` tokens follow.
unfoldable pub walk : (ℕ → Bool) → Vfs → ℕ → List (List ℕ) → Option ℕ × Vfs
unfolding call_finddir
walk ok st current [] = (some current, st)
walk ok st current (t ∷ ts) =
    let (found, st') = call_finddir (ok (length ts)) st current t in
    elim found [ none ↦ (none, st') | some child ↦ walk ok st' child ts ]

unfoldable pub vfs_resolve_path : (ℕ → Bool) → Vfs → Option (List ℕ) → Option ℕ × Vfs
unfolding tokens walk
vfs_resolve_path ok st none = (none, st)
vfs_resolve_path ok st (some []) = (none, st)
vfs_resolve_path ok st (some (c ∷ path)) = if not (c == b'/') then (none, st) else elim st.root [
  | none ↦ (none, st)
  | some r ↦ if same_text path [] then (some r, st) else walk ok st r (tokens (take 255 path))
]
