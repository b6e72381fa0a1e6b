-- ===== src/Ext2.antt =====
-- The EXT2 file system, src/ext2.c with include/ext2.h, as it reads its structures from disk.
--
-- `ide_read_sectors` is an argument: the bytes of so many sectors from a first one, or `none` if it
-- fails. A structure on disk is a list of bytes and its fields are numbers at their offsets, the lowest
-- byte first; a byte past the end counts as 0. Divisors are taken not to be 0. `ok` tells whether
-- `kmalloc` serves the buffer of a function.
pub mod Data
pub mod FileBlocks
pub mod Slice
pub mod Stored
mod Inodes
mod Tests
use kfs.Prelude.{
  ℕ, zero, suc, ◌+◌, ◌-◌, ◌*◌, ◌/◌, ◌%◌, ◌^◌, Bool, true, false, not, Option, none, some, List, [],
  ◌∷◌, ◌++◌, ◌==◌, leb, ltb, length, take, drop, get_or, if◌then◌else◌,
}

abbrev pub u32 : ℕ
u32 = 0x100000000

abbrev pub Sectors : Type 0
Sectors = (start count : ℕ) → Option (List ℕ)

abbrev pub ext2_magic : ℕ
ext2_magic = 0xef53

abbrev pub le16 : List ℕ → ℕ → ℕ
le16 bytes at = get_or bytes at 0 + 256 * get_or bytes (at + 1) 0

abbrev pub le32 : List ℕ → ℕ → ℕ
le32 bytes at = le16 bytes at + 0x10000 * le16 bytes (at + 2)

-- The superblock is its 1024 bytes, and so are the group descriptors.
pub record Ext2Filesystem : Type 0 where
  pub superblock : List ℕ
  pub block_size : ℕ
  pub blocks_per_group : ℕ
  pub inodes_per_group : ℕ
  pub groups_count : ℕ
  pub group_descriptors : List ℕ
  pub root_inode : ℕ

pub record Ext2Inode : Type 0 where
  pub i_mode : ℕ
  pub i_uid : ℕ
  pub i_size : ℕ
  pub i_gid : ℕ
  pub i_links_count : ℕ
  pub i_block : List ℕ

-- For `s_log_block_size` below 32.
abbrev pub ext2_get_block_size : List ℕ → ℕ
ext2_get_block_size superblock = (1024 * 2 ^ le32 superblock 24) % u32

abbrev pub ext2_get_inode_block_group : Ext2Filesystem → ℕ → ℕ
ext2_get_inode_block_group fs inode_num = (inode_num - 1) / fs.inodes_per_group

abbrev pub ext2_get_inode_index : Ext2Filesystem → ℕ → ℕ
ext2_get_inode_index fs inode_num = (inode_num - 1) % fs.inodes_per_group

unfoldable ext2_read_superblock : Sectors → Option Ext2Filesystem
ext2_read_superblock disk = elim (disk 2 2) [
  | none ↦ none
  | some s ↦
      if not (le16 s 56 == ext2_magic)
      then none
      else some (record {
        superblock = s;
        block_size = ext2_get_block_size s;
        blocks_per_group = le32 s 32;
        inodes_per_group = le32 s 40;
        groups_count = (le32 s 4 + le32 s 32 + u32 - 1) % u32 / le32 s 32;
        group_descriptors = [];
        root_inode = 2;
      })
]

unfoldable pub ext2_read_block : Sectors → Ext2Filesystem → ℕ → Option (List ℕ)
ext2_read_block disk fs block_num =
    let sectors_per_block = fs.block_size / 512 in
    disk (block_num * sectors_per_block % u32) sectors_per_block

-- `n` blocks from `block` on, one after the other.
unfoldable read_groups : Sectors → Ext2Filesystem → (n block : ℕ) → Option (List ℕ)
unfolding ext2_read_block
read_groups disk fs zero block = some []
read_groups disk fs (suc n) block =
    let rest = read_groups disk fs n (block + 1) in
    elim (ext2_read_block disk fs block) [
      | none ↦ none
      | some bytes ↦ elim rest [ none ↦ none | some more ↦ some (bytes ++ more) ]
    ]

unfoldable ext2_read_group_descriptors : Bool → Sectors → Ext2Filesystem → Option Ext2Filesystem
unfolding read_groups
ext2_read_group_descriptors ok disk fs =
    let gd_block = if le32 fs.superblock 20 == 0 then 2 else 1 in
    let gd_size = fs.groups_count * 32 % u32 in
    let gd_blocks = (gd_size + fs.block_size + u32 - 1) % u32 / fs.block_size in
    if not ok then none else elim (read_groups disk fs gd_blocks gd_block) [
      | none ↦ none
      | some bytes ↦ some (record fs { group_descriptors = bytes })
    ]

unfoldable pub ext2_init : Bool → Sectors → Option Ext2Filesystem
unfolding ext2_read_superblock ext2_read_group_descriptors
ext2_init ok disk = elim (ext2_read_superblock disk) [
  | none ↦ none
  | some fs ↦ ext2_read_group_descriptors ok disk fs
]

-- Where an inode is on disk: its block and its offset there.
abbrev pub inode_size : Ext2Filesystem → ℕ
inode_size fs = if le32 fs.superblock 76 == 0 then 128 else le16 fs.superblock 88

abbrev pub inode_block : Ext2Filesystem → ℕ → ℕ
inode_block fs inode_num =
    (le32 fs.group_descriptors (32 * ext2_get_inode_block_group fs inode_num + 8)
      + ext2_get_inode_index fs inode_num / (fs.block_size / inode_size fs))
    % u32

abbrev pub inode_offset : Ext2Filesystem → ℕ → ℕ
inode_offset fs inode_num =
    ext2_get_inode_index fs inode_num % (fs.block_size / inode_size fs) * inode_size fs

-- Inode 0 is invalid, and so are those past the last group.
abbrev pub is_invalid : Ext2Filesystem → ℕ → Bool
is_invalid fs inode_num =
    if inode_num == 0 then true else leb fs.groups_count (ext2_get_inode_block_group fs inode_num)

-- The 15 words of `i_block`, `n` of them.
abbrev pub words : ℕ → List ℕ → ℕ → List ℕ
words zero bytes at = []
words (suc n) bytes at = le32 bytes at ∷ words n bytes (at + 4)

abbrev pub decode_inode : List ℕ → Ext2Inode
decode_inode bytes = record {
  i_mode = le16 bytes 0;
  i_uid = le16 bytes 2;
  i_size = le32 bytes 4;
  i_gid = le16 bytes 24;
  i_links_count = le16 bytes 26;
  i_block = words 15 bytes 40;
}

unfoldable pub ext2_read_inode : Bool → Sectors → Ext2Filesystem → ℕ → Option Ext2Inode
unfolding ext2_read_block
ext2_read_inode ok disk fs inode_num =
    if is_invalid fs inode_num
    then none
    else if not ok
    then none
    else elim (ext2_read_block disk fs (inode_block fs inode_num)) [
      | none ↦ none
      | some block ↦ some (decode_inode (take 128 (drop (inode_offset fs inode_num) block)))
    ]

-- The block with `bytes` copied over it at an offset.
abbrev pub splice : List ℕ → ℕ → List ℕ → List ℕ
splice block at bytes = take at block ++ (bytes ++ drop (at + length bytes) block)

-- The first sector, the number of sectors and the bytes that `ide_write_sectors` is called with.
abbrev pub Write : Type 0
Write = ℕ × ℕ × List ℕ

abbrev pub ext2_write_block : Ext2Filesystem → ℕ → List ℕ → Write
ext2_write_block fs block_num buffer =
    (block_num * (fs.block_size / 512) % u32, fs.block_size / 512, buffer)

-- The write that it makes; `none` is a failure before it. `inode` is the 128 bytes of the structure.
unfoldable pub ext2_write_inode : Bool → Sectors → Ext2Filesystem → ℕ → List ℕ → Option Write
unfolding ext2_read_block
ext2_write_inode ok disk fs inode_num inode =
    if is_invalid fs inode_num
    then none
    else if not ok
    then none
    else elim (ext2_read_block disk fs (inode_block fs inode_num)) [
      | none ↦ none
      | some block ↦ some (
          ext2_write_block fs (inode_block fs inode_num)
            (splice block (inode_offset fs inode_num) inode))
    ]
