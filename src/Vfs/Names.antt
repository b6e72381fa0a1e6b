-- ===== src/Vfs/Names.antt =====
-- The two searches of an EXT2 directory: `ext2_lookup` of src/ext2.c and `finddir_callback` of src/vfs.c.
use kfs.Prelude.{
  ℕ, ◌≤◌, ◌≡◌, refl, Bool, ◌&&◌, some, List, [], ◌∷◌, ◌==◌, length, take_all, All, arith,
}
use kfs.Ext2.{Sectors, Ext2Filesystem}
use kfs.Ext2.Data.{DirEntry, same_bytes, lookup_entry, ext2_lookup, ext2_read_dir}
use kfs.Vfs.{same_text}
use kfs.Vfs.Lookup.{find_entry}

same_bytes-text : (a b : List ℕ) → ((length a == length b) && same_bytes a b) ≡ same_text a b
unfolding same_bytes same_text
same_bytes-text [] [] = refl
same_bytes-text [] (y ∷ b) = ground arith
same_bytes-text (x ∷ a) [] = ground arith
same_bytes-text (x ∷ a) (y ∷ b) = ground (arith, same_bytes-text a b)

-- A name on disk has its length in a byte.
abbrev pub IsShort : DirEntry → Type 0
IsShort e = length e.entry_name ≤ 255

lookup_entry-find :
    (es : List DirEntry) (name : List ℕ)
    → All IsShort es
    → lookup_entry es name ≡ find_entry es name
unfolding lookup_entry find_entry
lookup_entry-find [] name h = refl
lookup_entry-find (e ∷ es) name h =
    rw
      (
        same_bytes-text e.entry_name name,
        lookup_entry-find es name h.1,
        take_all 255 e.entry_name h.0,
      )
      refl

-- In a directory that is read and whose names have at most 255 bytes, `ext2_lookup` finds the inode
-- that the callback of the virtual file system finds among the entries of `ext2_read_dir`, or none.
lookup-find_entry :
    (ok : ℕ → Bool) (disk : Sectors) (fs : Ext2Filesystem) (dir : ℕ) (name : List ℕ)
    (es : List DirEntry)
    → ext2_read_dir ok disk fs dir ≡ some es
    → All IsShort es
    → ext2_lookup ok disk fs dir name ≡ find_entry es name
unfolding ext2_lookup
lookup-find_entry ok disk fs dir name es read short =
    rw (ext2_lookup, read) (lookup_entry-find es name short)
