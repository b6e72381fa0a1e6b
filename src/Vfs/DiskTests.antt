-- ===== src/Vfs/DiskTests.antt =====
-- The virtual file system over small disks: the theorems on it at concrete input.
use kfs.Prelude.{
  ◌*◌, ◌/◌, ◌%◌, ◌≢◌, inr, length, ℕ, ◌≡◌, refl, true, none, some, List, [], ◌∷◌, ◌++◌, pos,
  replicate, arith, zero, suc, ◌<◌, ◌==◌, if◌then◌else◌,
}
use kfs.Ext2.{Sectors, Ext2Filesystem, Ext2Inode}
use kfs.Ext2.Data.{DirEntry, ext2_read_dir}
use kfs.Ext2.FileBlocks.{file_blocks}
use kfs.Ext2.Stored.{DiskBlock, IsNumber, direct, IsStored}
use kfs.Vfs.OnDisk.{filesystem_on, read-on_disk}
use kfs.Vfs.{ext2, zero_node, Vfs, vfs_read}
use kfs.Vfs.Create.{dev}

-- A disk of blocks of 1024 bytes: block `b` is filled with the byte `b`.
abbrev disk : Sectors
disk start count = some (replicate (count * 512) (start / 2 % 256))

abbrev disk_fs : Ext2Filesystem
disk_fs = record {
  superblock = [];
  block_size = 1024;
  blocks_per_group = 64;
  inodes_per_group = 8;
  groups_count = 1;
  group_descriptors = [];
  root_inode = 2;
}

abbrev two_blocks : Ext2Inode
two_blocks = record {
  i_mode = 0x81a4;
  i_uid = 0;
  i_size = 2048;
  i_gid = 0;
  i_links_count = 1;
  i_block = 9 ∷ 8 ∷ [];
}

abbrev on_disk : Vfs
on_disk = record {
  nodes =
      record zero_node {
        fs = some (filesystem_on disk disk_fs);
        ext2_inode = two_blocks;
        read = ext2;
      }
      ∷ [];
  root = none;
  mounts = [];
}

abbrev disk_content : ℕ → List ℕ
disk_content zero = replicate 1024 9
disk_content (suc k) = replicate 1024 8

abbrev disk_numbers : ℕ → ℕ
disk_numbers zero = 9
disk_numbers (suc k) = 8

disk-IsStored : IsStored disk disk_fs two_blocks disk_numbers disk_content 2
disk-IsStored = record { size = size; numbered = numbered; hole = hole; bytes = bytes }
  where
    size : (k : ℕ) → length (disk_content k) ≡ 1024
    size zero = refl
    size (suc k) = refl

    numbered : (k : ℕ) → k < 2 → IsNumber disk disk_fs two_blocks k (disk_numbers k)
    numbered zero h = direct (omega arith) refl
    numbered (suc zero) h = direct (omega arith) refl
    numbered (suc (suc k)) h = absurd (omega arith)

    hole : (k : ℕ) → k < 2 → disk_numbers k ≡ 0 → disk_content k ≡ replicate 1024 0
    hole zero h e = absurd (omega (arith, e))
    hole (suc k) h e = absurd (omega (arith, e))

    bytes :
        (k : ℕ) → k < 2 → disk_numbers k ≢ 0 → DiskBlock disk 1024 (disk_numbers k) (disk_content k)
    bytes zero h n = (2, refl, omega arith, refl)
    bytes (suc k) h n = (2, refl, omega arith, refl)

read-on_disk_example : vfs_read on_disk (some 0) 1021 5 true ≡ some (pos 5, 9 ∷ 9 ∷ 9 ∷ 8 ∷ 8 ∷ [])
unfolding file_blocks
read-on_disk_example =
    read-on_disk on_disk 0 disk disk_fs disk_numbers disk_content 1021 5 refl refl disk-IsStored
      (omega arith) (omega arith) (inr (omega arith))

-- The inode 2 of this disk is a directory with the data in block 9: the entries `.` and `dev`.
abbrev directory_block : List ℕ
directory_block =
    (2 ∷ 0 ∷ 0 ∷ 0 ∷ 12 ∷ 0 ∷ 1 ∷ 2 ∷ b'.' ∷ 0 ∷ 0 ∷ 0 ∷ [])
    ++ (13 ∷ 0 ∷ 0 ∷ 0 ∷ 12 ∷ 0 ∷ 3 ∷ 2 ∷ b'd' ∷ b'e' ∷ b'v' ∷ 0 ∷ [])

abbrev inode_block_5 : List ℕ
inode_block_5 =
    replicate 128 0
    ++ ((0 ∷ 0x40 ∷ 0 ∷ 0 ∷ 24 ∷ 0 ∷ 0 ∷ 0 ∷ []) ++ (replicate 32 0 ++ (9 ∷ replicate 87 0)))

abbrev directory_disk : Sectors
directory_disk start count = if start == 10 then some inode_block_5 else some directory_block

abbrev directory_fs : Ext2Filesystem
directory_fs = record disk_fs { superblock = []; group_descriptors = replicate 8 0 ++ (5 ∷ []) }

abbrev listing : List DirEntry
listing =
    record { entry_inode = 2; entry_name = b'.' ∷ [] }
    ∷ record { entry_inode = 13; entry_name = dev }
    ∷ []

directory-listed : ext2_read_dir (λ _. true) directory_disk directory_fs 2 ≡ some listing
unfolding ext2_read_dir
directory-listed = refl
