-- ===== src/Vfs/OnDisk.antt =====
-- The virtual file system of src/vfs.c over the disk that src/ext2.c reads.
use kfs.Prelude.{
  ℕ, ◌+◌, ◌%◌, ◌/◌, ◌≤◌, ◌<◌, ◌≡◌, ◌≢◌, ◌⊎◌, ap, true, Option, none, some, List, [], take, drop,
  pos,
}
use kfs.Ext2.{Sectors, Ext2Filesystem, ext2_read_inode}
use kfs.Ext2.Data.{ext2_read_inode_data, ext2_read_dir, DirEntry}
use kfs.Ext2.FileBlocks.{file_blocks}
use kfs.Ext2.Stored.{IsStored}
use kfs.Ext2.Slice.{end_block, read-slice}
use kfs.Vfs.{Vfs, Filesystem, node_at, ext2, vfs_read, vfs_ext2_read}

abbrev entries_of : Option (List DirEntry) → List DirEntry
entries_of none = []
entries_of (some es) = es

-- The answers of src/ext2.c over a disk, where every allocation is served.
abbrev pub filesystem_on : Sectors → Ext2Filesystem → Filesystem
filesystem_on disk fs = record {
  root_inode = fs.root_inode;
  read_inode = ext2_read_inode true disk fs;
  read_dir = λ inode_num. entries_of (ext2_read_dir (λ _. true) disk fs inode_num);
  read_inode_data = ext2_read_inode_data true disk fs;
}

-- `vfs_read` of a node on an EXT2 disk that has the blocks of its file up to the end of the read, all of
-- them among the twelve of the inode and those in the table of its indirect block, where that end with a block more does not reach 2 ^ 32 and the read begins in a block with a number or at
-- the start of a block, stores exactly the `size` bytes of the file from `offset` on and returns `size`.
pub read-on_disk :
    (st : Vfs) (i : ℕ) (disk : Sectors) (fs : Ext2Filesystem) (numbers : ℕ → ℕ)
    (content : ℕ → List ℕ) (offset size : ℕ)
    → (node_at st i).read ≡ ext2
    → (node_at st i).fs ≡ some (filesystem_on disk fs)
    → IsStored disk fs (node_at st i).ext2_inode numbers content (end_block fs offset size)
    → 0 < fs.block_size
    → offset + size + fs.block_size ≤ 0x100000000
    → (offset % fs.block_size ≡ 0) ⊎ (numbers (offset / fs.block_size) ≢ 0)
    → vfs_read st (some i) offset size true
      ≡ some (pos size, take size (drop offset (file_blocks content (end_block fs offset size) 0)))
unfolding vfs_read
read-on_disk st i disk fs numbers content offset size r f stored big low start =
    let s =
      read-slice disk fs (node_at st i).ext2_inode numbers content offset size stored big low
        start in
    rw (r, vfs_ext2_read, f, s.0)
      (ap
        (λ k.
          some (pos k, take size (drop offset (file_blocks content (end_block fs offset size) 0))))
        s.1)
