-- ===== src/Ext2/Data.antt =====
-- File data and directories of src/ext2.c.
use kfs.Prelude.{
  ℕ, zero, suc, ◌+◌, ◌-◌, ◌*◌, ◌/◌, ◌%◌, Bool, true, ◌&&◌, not, Option, none, some, List, [], ◌∷◌,
  ◌++◌, ◌==◌, leb, ltb, length, take, drop, get_or, replicate, min, if◌then◌else◌,
}
use kfs.Ext2.{Sectors, Ext2Filesystem, Ext2Inode, u32, le16, le32, ext2_read_block, ext2_read_inode}

-- The number of the block `i` of a file: one of twelve, or one in the indirect block, or 0. The
-- allocation for the indirect block is taken to be served.
unfoldable pub block_number : Sectors → Ext2Filesystem → Ext2Inode → ℕ → ℕ
unfolding ext2_read_block
block_number disk fs inode i =
    let indirect_block = get_or inode.i_block 12 0 in
    if ltb i 12
    then get_or inode.i_block i 0
    else if ltb i (12 + fs.block_size / 4) && not (indirect_block == 0)
    then elim (ext2_read_block disk fs indirect_block) [
      | none ↦ 0
      | some indirect_data ↦ le32 indirect_data (4 * (i - 12))
    ]
    else 0

-- What one round of the loop adds to the buffer, with `wanted` bytes missing.
unfoldable pub part_of : Sectors → Ext2Filesystem → (block_num block_offset wanted : ℕ) → List ℕ
part_of disk fs block_num block_offset wanted =
    if block_num == 0
    then replicate (min fs.block_size wanted) 0
    else elim (ext2_read_block disk fs block_num) [
      | none ↦ []
      | some block ↦ take (min (fs.block_size - block_offset) wanted) (drop block_offset block)
    ]

-- Only the first block is read from the middle.
abbrev pub offset_in : Ext2Filesystem → (offset i : ℕ) → ℕ
offset_in fs offset i = if i == offset / fs.block_size then offset % fs.block_size else 0

-- The loop from block `i` on, `n` blocks at most.
unfoldable pub read_blocks :
    Sectors → Ext2Filesystem → Ext2Inode → (offset size n i : ℕ) → List ℕ → List ℕ
unfolding part_of block_number
read_blocks disk fs inode offset size zero i buffer = buffer
read_blocks disk fs inode offset size (suc n) i buffer =
    let rest = read_blocks disk fs inode offset size n (i + 1) (
      buffer
      ++ part_of disk fs (block_number disk fs inode i) (offset_in fs offset i)
          (size - length buffer)) in
    if ltb (length buffer) size then rest else buffer

-- The bytes stored at the start of the buffer; their number is the result.
unfoldable pub ext2_read_inode_data :
    Bool → Sectors → Ext2Filesystem → Ext2Inode → (offset size : ℕ) → Option (List ℕ)
unfolding read_blocks
ext2_read_inode_data ok disk fs inode offset size =
    let start_block = offset / fs.block_size in
    let end_block = (offset + size + fs.block_size + u32 - 1) % u32 / fs.block_size in
    if not ok
    then none
    else some (read_blocks disk fs inode offset size (end_block - start_block) start_block [])

-- An entry that is in use.
pub record DirEntry : Type 0 where
  pub entry_inode : ℕ
  pub entry_name : List ℕ

-- The entries from `offset` on. Each round moves on or ends, so `i_size` rounds are enough.
unfoldable pub entries : ℕ → List ℕ → (i_size offset : ℕ) → List DirEntry
entries zero dir_data i_size offset = []
entries (suc fuel) dir_data i_size offset =
    let rec_len = le16 dir_data (offset + 4) in
    let inode = le32 dir_data offset in
    let rest = if rec_len == 0 then [] else entries fuel dir_data i_size (offset + rec_len) in
    let name = take (get_or dir_data (offset + 6) 0) (drop (offset + 8) dir_data) in
    if leb i_size offset
    then []
    else if inode == 0
    then rest
    else record { entry_inode = inode; entry_name = name } ∷ rest

-- The data of a directory, read by a function with three allocations.
unfoldable directory_data : (ℕ → Bool) → Sectors → Ext2Filesystem → ℕ → Option (ℕ × List ℕ)
unfolding ext2_read_inode ext2_read_inode_data
directory_data ok disk fs dir_inode_num = elim (ext2_read_inode (ok 0) disk fs dir_inode_num) [
  | none ↦ none
  | some dir ↦
      if not (dir.i_mode / 0x1000 % 16 == 4)
      then none
      else if not (ok 1)
      then none
      else elim (ext2_read_inode_data (ok 2) disk fs dir 0 dir.i_size) [
        | none ↦ none
        | some bytes ↦ some (dir.i_size, bytes)
      ]
]

-- The entries that go to the callback, in order.
unfoldable pub ext2_read_dir : (ℕ → Bool) → Sectors → Ext2Filesystem → ℕ → Option (List DirEntry)
unfolding directory_data entries
ext2_read_dir ok disk fs dir_inode_num = elim (directory_data ok disk fs dir_inode_num) [
  | none ↦ none
  | some (i_size, dir_data) ↦ some (entries i_size dir_data i_size 0)
]

-- `strncmp(entry->name, name, name_len) == 0` on texts of one length.
unfoldable pub same_bytes : List ℕ → List ℕ → Bool
same_bytes (x ∷ a) (y ∷ b) = (x == y) && same_bytes a b
same_bytes _ _ = true

unfoldable pub lookup_entry : List DirEntry → List ℕ → Option ℕ
unfolding same_bytes
lookup_entry [] name = none
lookup_entry (e ∷ es) name =
    let rest = lookup_entry es name in
    if (length e.entry_name == length name) && same_bytes e.entry_name name
    then some e.entry_inode
    else rest

unfoldable pub ext2_lookup : (ℕ → Bool) → Sectors → Ext2Filesystem → ℕ → List ℕ → Option ℕ
unfolding ext2_read_dir lookup_entry
ext2_lookup ok disk fs dir_inode_num name = elim (ext2_read_dir ok disk fs dir_inode_num) [
  | none ↦ none
  | some es ↦ lookup_entry es name
]
