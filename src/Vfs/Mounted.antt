-- ===== src/Vfs/Mounted.antt =====
-- A file system that is mounted and unmounted again, in src/vfs.c.
use kfs.Prelude.{
  ℕ, ◌≤◌, ◌<◌, ◌≡◌, refl, ap, ◌∙◌, Bool, true, false, none, some, List, [], ◌∷◌, ◌++◌, leb, length,
  take, take_all, find_index, get_elem?, pos, arith, Bool-cases, inl, inr, Option-cases,
}
use kfs.Ext2.{Ext2Inode}
use kfs.Vfs.{Vfs, Filesystem, MountPoint, same_text}
use kfs.Vfs.Lookup.{vfs_create_node_from_ext2, add_node, ext2_node}
use kfs.Vfs.Mount.{vfs_mount, vfs_unmount, shift_down, root_after}

same_text_self : (t : List ℕ) → same_text t t ≡ true
unfolding same_text
same_text_self [] = refl
same_text_self (x ∷ t) = ground (arith, same_text_self t)

find_index-append :
    (p : MountPoint → Bool) (ms : List MountPoint) (m : MountPoint)
    → find_index p ms ≡ none
    → p m ≡ true
    → find_index p (ms ++ (m ∷ [])) ≡ some (length ms)
find_index-append p [] m h t = rw t refl
find_index-append p (x ∷ ms) m h t = elim (Bool-cases (p x)) [
  | inl q ↦ absurd (ground (arith, rw q at h))
  | inr q ↦ elim (Option-cases (find_index p ms)) [
    | inl e ↦ rw (q, find_index-append p ms m e t) refl
    | inr (k, e) ↦ absurd (ground (arith, rw (q, e) at h))
  ]
]

get_elem?-last :
    (ms : List MountPoint) (m : MountPoint) → get_elem? (ms ++ (m ∷ [])) (length ms) ≡ some m
get_elem?-last [] m = refl
get_elem?-last (x ∷ ms) m = get_elem?-last ms m

shift_down-last :
    (ms : List MountPoint) (m : MountPoint) → shift_down (ms ++ (m ∷ [])) (length ms) ≡ ms
unfolding shift_down
shift_down-last [] m = refl
shift_down-last (x ∷ ms) m = ap (λ r. x ∷ r) (shift_down-last ms m)

-- A file system whose root is read, mounted at a path of at most 255 bytes that is not mounted while
-- fewer than 16 are, is unmounted by the same path: the table is the one from before and the node that
-- the mount made is freed. If that node became the root, the root still points to it.
pub unmount-mount :
    (st : Vfs) (path : List ℕ) (f : Filesystem) (i : Ext2Inode)
    → length path ≤ 255
    → find_index (λ (m : MountPoint). same_text m.path path) st.mounts ≡ none
    → length st.mounts < 16
    → f.read_inode f.root_inode ≡ some i
    → let mounted = vfs_mount true st (some path) (some f) in
      let after = vfs_unmount mounted.1 (some path) in
      (mounted.0 ≡ pos 0)
      × (after.0 ≡ pos 0)
      × (after.1 ≡ some (length st.nodes))
      × (after.2.mounts ≡ st.mounts)
      × (after.2.root ≡ root_after st.root path (length st.nodes))
unfolding vfs_mount vfs_unmount
unmount-mount st path f i short fresh room readable = (
  ap (λ r. r.0) mount_eq,
  ap (λ r. (vfs_unmount r.1 (some path)).0) mount_eq ∙ ap (λ r. r.0) unmount_eq,
  ap (λ r. (vfs_unmount r.1 (some path)).1) mount_eq ∙ ap (λ r. r.1) unmount_eq,
  ap (λ r. (vfs_unmount r.1 (some path)).2.mounts) mount_eq ∙ ap (λ r. r.2.mounts) unmount_eq,
  ap (λ r. (vfs_unmount r.1 (some path)).2.root) mount_eq ∙ ap (λ r. r.2.root) unmount_eq,
)
  where
    entry : MountPoint
    entry = record { path = take 255 path; node = length st.nodes; mounted = f }

    with_node : Vfs
    with_node = (add_node st (ext2_node f f.root_inode (b'/' ∷ []) i)).1

    st1 : Vfs
    st1 = record with_node {
      mounts = st.mounts ++ (entry ∷ []);
      root = root_after st.root path (length st.nodes);
    }

    mount_eq : vfs_mount true st (some path) (some f) ≡ (pos 0, st1)
    mount_eq =
        let few : leb 16 (length st.mounts) ≡ false = ground arith in
        rw (vfs_mount, few, vfs_create_node_from_ext2, readable) refl

    here :
        find_index (λ (m : MountPoint). same_text m.path path) st1.mounts ≡ some (length st.mounts)
    here =
        find_index-append (λ (m : MountPoint). same_text m.path path) st.mounts entry fresh
          (ap (λ t. same_text t path) (take_all 255 path short) ∙ same_text_self path)

    unmount_eq :
        vfs_unmount st1 (some path)
        ≡ (pos 0, some (length st.nodes), record st1 { mounts = st.mounts })
    unmount_eq =
        rw (vfs_unmount, here, get_elem?-last st.mounts entry, shift_down-last st.mounts entry) refl
