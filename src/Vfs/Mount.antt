-- ===== src/Vfs/Mount.antt =====
-- The mount table of src/vfs.c, the list of its first `mount_count` entries.
use kfs.Prelude.{
  ℕ, zero, suc, Bool, Option, none, some, List, [], ◌∷◌, ◌++◌, leb, length, take, find_index,
  get_elem?, ℤ, pos, negsuc, if◌then◌else◌,
}
use kfs.Vfs.{Vfs, Filesystem, MountPoint, same_text}
use kfs.Vfs.Lookup.{vfs_create_node_from_ext2}

abbrev pub max_mounts : ℕ
max_mounts = 16

-- The root node stays the one there is.
abbrev pub root_after : Option ℕ → List ℕ → ℕ → Option ℕ
root_after (some r) path n = some r
root_after none path n = if same_text path (b'/' ∷ []) then some n else none

abbrev pub mount_root : Vfs → List ℕ → Filesystem → Option ℕ × Vfs → ℤ × Vfs
mount_root st path f (none, st') = (negsuc 0, st')
mount_root st path f (some n, st') = (
  pos 0,
  record st' {
    mounts = st'.mounts ++ (record { path = take 255 path; node = n; mounted = f } ∷ []);
    root = root_after st'.root path n;
  },
)

unfoldable pub vfs_mount : Bool → Vfs → Option (List ℕ) → Option Filesystem → ℤ × Vfs
unfolding vfs_create_node_from_ext2
vfs_mount ok st (some path) (some f) =
    if leb max_mounts (length st.mounts)
    then (negsuc 0, st)
    else mount_root st path f (vfs_create_node_from_ext2 ok st f f.root_inode (b'/' ∷ []))
vfs_mount ok st _ _ = (negsuc 0, st)

-- The entries after the one at `i` move down by one.
unfoldable pub shift_down : List MountPoint → ℕ → List MountPoint
shift_down [] i = []
shift_down (m ∷ ms) zero = ms
shift_down (m ∷ ms) (suc i) = m ∷ shift_down ms i

-- With the result, the node that is freed.
unfoldable pub vfs_unmount : Vfs → Option (List ℕ) → ℤ × Option ℕ × Vfs
unfolding shift_down
vfs_unmount st none = (negsuc 0, none, st)
vfs_unmount st (some path) =
    elim (find_index (λ (m : MountPoint). same_text m.path path) st.mounts) [
      | none ↦ (negsuc 0, none, st)
      | some i ↦ (
        pos 0,
        elim (get_elem? st.mounts i) [ none ↦ none | some m ↦ some m.node ],
        record st { mounts = shift_down st.mounts i },
      )
    ]
