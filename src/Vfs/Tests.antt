-- ===== src/Vfs/Tests.antt =====
-- Runs of the virtual file system, and the theorems on it at concrete input.
use kfs.Prelude.{
  ℕ, ◌≡◌, refl, true, none, some, List, [], ◌∷◌, ◌++◌, pos, replicate, arith, Bool, zero, suc, ◌<◌,
  ◌≢◌, if◌then◌else◌,
}
use kfs.Vfs.{Vfs, Node, Filesystem, vfs_read, node_at, virtual, same_text, file_data}
use kfs.Vfs.Lookup.{vfs_resolve_path, vfs_finddir, vfs_virtual_finddir, add_node}
use kfs.Vfs.Create.{vfs_init, link_child, virtual_dir, virtual_file, dev, home, readme}
use kfs.Vfs.Mount.{vfs_mount, vfs_unmount}
use kfs.Vfs.Paths.{resolve-finddir, then_find, IsName}
use kfs.Vfs.Children.{IsOrdered}
use kfs.Vfs.Linked.{link-finddir}
use kfs.Vfs.Mounted.{unmount-mount}

abbrev served : ℕ → Bool
served _ = true

abbrev boot : Vfs
boot = record { nodes = []; root = none; mounts = [] }

abbrev hello : List ℕ
hello = b'h' ∷ b'e' ∷ b'l' ∷ b'l' ∷ b'o' ∷ []

abbrev ready : Vfs
ready = vfs_init served hello boot

-- The start of the file system leaves its three directories and the file in the root.
init_dev : (vfs_resolve_path served ready (some (b'/' ∷ dev))).0 ≡ some 1
unfolding vfs_init vfs_resolve_path same_text
init_dev = refl

init_readme : (vfs_resolve_path served ready (some (b'/' ∷ readme))).0 ≡ some 4
unfolding vfs_init vfs_resolve_path same_text
init_readme = refl

-- A slash at the end makes an empty name, which no directory has.
slash_at_end : (vfs_resolve_path served ready (some (b'/' ∷ (dev ++ (b'/' ∷ []))))).0 ≡ none
unfolding vfs_init vfs_resolve_path same_text
slash_at_end = refl

-- A read whose end reaches 2 ^ 32 is not cut to the content.
read_wraps : vfs_read ready (some 4) 1 0xffffffff true ≡ none
unfolding vfs_init vfs_read
read_wraps = refl

home-IsName : IsName home
home-IsName = (refl, (refl, (refl, (refl, tt))))

resolve-finddir_example :
    (vfs_resolve_path served ready (some (b'/' ∷ home))
      ≡ vfs_finddir true ready ready.root (some home))
    × (vfs_resolve_path served ready (some (b'/' ∷ (dev ++ (b'/' ∷ home))))
        ≡ then_find true (vfs_resolve_path served ready (some (b'/' ∷ dev))) home)
resolve-finddir_example =
    resolve-finddir served ready b'd' (b'e' ∷ b'v' ∷ []) home home-IsName (λ e. absurd (cc))
      (omega arith)

-- The root alone, as `vfs_create_base_dirs` makes it.
abbrev alone : Vfs
alone = record { nodes = virtual_dir (b'/' ∷ []) ∷ []; root = some 0; mounts = [] }

alone-IsOrdered : IsOrdered alone
alone-IsOrdered = record { earlier = earlier; exists = exists }
  where
    earlier : (i j : ℕ) → i < 1 → (node_at alone i).next_sibling ≡ some j → j < i
    earlier zero j h e = absurd (cc)
    earlier (suc i) j h e = absurd (omega arith)

    exists : (i c : ℕ) → i < 1 → (node_at alone i).children ≡ some c → c < 1
    exists zero c h e = absurd (cc)
    exists (suc i) c h e = absurd (omega arith)

abbrev with_home : Vfs
with_home = link_child (add_node alone (virtual_dir home))

link-finddir_example :
    ((name : List ℕ)
      → vfs_virtual_finddir with_home 0 name
        ≡ (if same_text home name then some 1 else vfs_virtual_finddir alone 0 name))
    × ((i : ℕ) → i < 1 → 0 ≢ i → node_at with_home i ≡ node_at alone i)
    × IsOrdered with_home
link-finddir_example =
    link-finddir alone 0 (virtual_dir home) alone-IsOrdered refl (omega arith) refl refl

abbrev file : Node
file = record (virtual_file readme) { inode = file_data hello; read = virtual }

-- A file system whose root directory is empty.
abbrev empty_disk : Filesystem
empty_disk = record {
  root_inode = 2;
  read_inode = λ _. some (record {
    i_mode = 0x41ed;
    i_uid = 0;
    i_size = 1024;
    i_gid = 0;
    i_links_count = 2;
    i_block = [];
  });
  read_dir = λ _. [];
  read_inode_data = λ _ _ size. some (replicate size 0);
}

unmount-mount_example :
    let mounted = vfs_mount true ready (some (b'/' ∷ home)) (some empty_disk) in
    let after = vfs_unmount mounted.1 (some (b'/' ∷ home)) in
    (mounted.0 ≡ pos 0)
    × (after.0 ≡ pos 0)
    × (after.1 ≡ some 5)
    × (after.2.mounts ≡ [])
    × (after.2.root ≡ some 0)
unfolding vfs_init same_text
unmount-mount_example =
    unmount-mount ready (b'/' ∷ home) empty_disk
      (record {
        i_mode = 0x41ed;
        i_uid = 0;
        i_size = 1024;
        i_gid = 0;
        i_links_count = 2;
        i_block = [];
      })
      (omega arith) refl (omega arith) refl
