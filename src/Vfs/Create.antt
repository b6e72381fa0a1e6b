-- ===== src/Vfs/Create.antt =====
-- The virtual files and directories that src/vfs.c starts with.
use kfs.Prelude.{
  ℕ, zero, suc, Bool, ◌&&◌, Option, none, some, List, [], ◌∷◌, length, take, if◌then◌else◌,
}
use kfs.Vfs.{
  Vfs, Node, regular, directory, virtual, file_data, zero_node, node_at, change_node, is_directory,
}
use kfs.Vfs.Lookup.{add_node}

abbrev pub virtual_dir : List ℕ → Node
virtual_dir name = record zero_node { name = take 255 name; kind = directory; mode = 493 }

abbrev pub vfs_create_virtual_dir : Bool → Vfs → List ℕ → Option ℕ × Vfs
vfs_create_virtual_dir ok st name = if ok then add_node st (virtual_dir name) else (none, st)

abbrev pub virtual_file : List ℕ → Node
virtual_file name = record zero_node { name = take 255 name; kind = regular; mode = 420 }

-- The allocations are for the node, for the file data and for its content.
abbrev pub vfs_create_virtual_file :
    (ok_node ok_data ok_content : Bool) → Vfs → List ℕ → Option (List ℕ) → Option ℕ × Vfs
vfs_create_virtual_file ok_node ok_data ok_content st name none =
    if ok_node then add_node st (virtual_file name) else (none, st)
vfs_create_virtual_file ok_node ok_data ok_content st name (some content) =
    if ok_node
    then (if ok_data && ok_content
        then add_node st (record (virtual_file name) {
          size = length content;
          inode = file_data content;
          read = virtual;
        })
        else add_node st (virtual_file name))
    else (none, st)

-- A new node becomes the first child of the root.
unfoldable pub link_child : Option ℕ × Vfs → Vfs
link_child (none, st) = st
link_child (some n, st) = elim st.root [
  | none ↦ st
  | some r ↦
      let first = (node_at st r).children in
      change_node (change_node st n (λ d. record d { father = some r; next_sibling = first })) r
        (λ d. record d { children = some n })
]

unfoldable ensure_root : Bool → Vfs → Vfs
ensure_root ok st = elim st.root [
  | none ↦ let (r, st') = vfs_create_virtual_dir ok st (b'/' ∷ []) in record st' { root = r }
  | some r ↦ st
]

abbrev pub dev : List ℕ
dev = b'd' ∷ b'e' ∷ b'v' ∷ []

abbrev pub tmp : List ℕ
tmp = b't' ∷ b'm' ∷ b'p' ∷ []

abbrev pub home : List ℕ
home = b'h' ∷ b'o' ∷ b'm' ∷ b'e' ∷ []

abbrev pub readme : List ℕ
readme = b'r' ∷ b'e' ∷ b'a' ∷ b'd' ∷ b'm' ∷ b'e' ∷ b'.' ∷ b't' ∷ b'x' ∷ b't' ∷ []

-- The allocations are numbered in the order of the text of the function; `content` is its literal.
unfoldable pub vfs_create_base_dirs : (ℕ → Bool) → List ℕ → Vfs → Vfs
unfolding ensure_root link_child
vfs_create_base_dirs ok content st =
    let st0 = ensure_root (ok 0) st in
    let st1 = link_child (vfs_create_virtual_dir (ok 1) st0 dev) in
    let st2 = link_child (vfs_create_virtual_dir (ok 2) st1 tmp) in
    let st3 = link_child (vfs_create_virtual_dir (ok 3) st2 home) in
    link_child (vfs_create_virtual_file (ok 4) (ok 5) (ok 6) st3 readme (some content))

abbrev pub set_operations : Node → Node
set_operations d = record d { readdir = virtual; finddir = virtual }

-- The loop of `vfs_init` over the children of the root.
unfoldable set_children : ℕ → Vfs → Option ℕ → Vfs
set_children zero st child = st
set_children (suc fuel) st none = st
set_children (suc fuel) st (some c) =
    let st' = if is_directory (node_at st c).kind then change_node st c set_operations else st in
    set_children fuel st' (node_at st' c).next_sibling

-- The nodes from before stay on the heap.
unfoldable pub vfs_init : (ℕ → Bool) → List ℕ → Vfs → Vfs
unfolding vfs_create_base_dirs set_children
vfs_init ok content st =
    let st' =
      vfs_create_base_dirs ok content (record { nodes = st.nodes; root = none; mounts = [] }) in
    elim st'.root [
      | none ↦ st'
      | some r ↦
          let ready = change_node st' r set_operations in
          set_children (length ready.nodes) ready (node_at ready r).children
    ]
