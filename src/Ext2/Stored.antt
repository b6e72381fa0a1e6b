-- ===== src/Ext2/Stored.antt =====
-- How a file lies on an EXT2 disk, as include/ext2.h and the format have it, for src/ext2.c to read.
use kfs.Prelude.{
  ℕ, zero, suc, ◌+◌, ◌-◌, ◌*◌, ◌/◌, ◌%◌, ◌≤◌, ◌<◌, ◌≡◌, ◌≢◌, refl, sym, ap, ◌∙◌, true, false, not,
  some, List, [], ◌∷◌, ◌==◌, ltb, ◌&&◌, All, length, get_or, replicate, arith,
}
use kfs.Ext2.{Sectors, Ext2Filesystem, Ext2Inode, le32, ext2_read_block}
use kfs.Ext2.Data.{block_number}

-- The bytes of block `num` of the disk, which is `n` sectors long.
abbrev pub DiskBlock : Sectors → (block_size num : ℕ) → List ℕ → Type 0
DiskBlock disk block_size num bytes =
    (n : ℕ) × (n * 512 ≡ block_size) × (num * n < 0x100000000) × (disk (num * n) n ≡ some bytes)

-- A table of block numbers as four bytes each, the lowest first.
pub encode : List ℕ → List ℕ
encode [] = []
encode (n ∷ ns) =
    n % 0x100 ∷ n / 0x100 % 0x100 ∷ n / 0x10000 % 0x100 ∷ n / 0x1000000 % 0x100 ∷ encode ns

-- The disk's number of block `k` of a file, 0 for a hole: one of the twelve in the inode, or the one at
-- `k - 12` in the table of the indirect block, if there is such a block.
pub data IsNumber (disk : Sectors) (fs : Ext2Filesystem) (inode : Ext2Inode) (k num : ℕ)
    : Type 0 where
  direct : k < 12 → get_or inode.i_block k 0 ≡ num → IsNumber disk fs inode k num
  no_table :
      12 ≤ k
      → k < 12 + fs.block_size / 4
      → get_or inode.i_block 12 0 ≡ 0
      → num ≡ 0
      → IsNumber disk fs inode k num
  indirect :
      (j : ℕ) (table : List ℕ)
      → k ≡ 12 + j
      → length table ≡ fs.block_size / 4
      → j < fs.block_size / 4
      → All (λ n. n < 0x100000000) table
      → get_or inode.i_block 12 0 ≢ 0
      → DiskBlock disk fs.block_size (get_or inode.i_block 12 0) (encode table)
      → get_or table j 0 ≡ num
      → IsNumber disk fs inode k num

-- The disk has the first `last` blocks of the file, block `k` at the number `numbers k`; a block without
-- a number is zeros.
pub record IsStored (disk : Sectors) (fs : Ext2Filesystem) (inode : Ext2Inode) (numbers : ℕ → ℕ)
    (content : ℕ → List ℕ) (last : ℕ) : Type 0 where
  pub size : (k : ℕ) → length (content k) ≡ fs.block_size
  pub numbered : (k : ℕ) → k < last → IsNumber disk fs inode k (numbers k)
  pub hole : (k : ℕ) → k < last → numbers k ≡ 0 → content k ≡ replicate fs.block_size 0
  pub bytes :
      (k : ℕ) → k < last → numbers k ≢ 0 → DiskBlock disk fs.block_size (numbers k) (content k)

pub read_block-DiskBlock :
    (disk : Sectors) (fs : Ext2Filesystem) (num : ℕ) (bytes : List ℕ)
    → DiskBlock disk fs.block_size num bytes
    → ext2_read_block disk fs num ≡ some bytes
unfolding ext2_read_block
read_block-DiskBlock disk fs num bytes (n, s, small, e) =
    let sectors : fs.block_size / 512 ≡ n = omega (arith, s) in
    let first : num * n % 0x100000000 ≡ num * n = omega (arith, small) in
    ap (λ m. disk (num * m % 0x100000000) m) sectors ∙ ap (λ x. disk x n) first ∙ e

le32_after :
    (a b c d m : ℕ) (bytes : List ℕ)
    → le32 (a ∷ b ∷ c ∷ d ∷ bytes) (suc (suc (suc (suc m)))) ≡ le32 bytes m
le32_after a b c d m bytes =
    let p : suc (suc (suc (suc m))) + 1 ≡ suc (suc (suc (suc (m + 1)))) = omega arith in
    let q : suc (suc (suc (suc m))) + 2 ≡ suc (suc (suc (suc (m + 2)))) = omega arith in
    let r : suc (suc (suc (suc (m + 2)))) + 1 ≡ suc (suc (suc (suc (m + 2 + 1)))) = omega arith in
    rw (p, q, r) refl

le32-encode :
    (table : List ℕ) (j : ℕ)
    → All (λ n. n < 0x100000000) table
    → le32 (encode table) (4 * j) ≡ get_or table j 0
unfolding encode
le32-encode [] j small = refl
le32-encode (n ∷ table) zero small = omega (arith, small.0)
le32-encode (n ∷ table) (suc j) small =
    let later : 4 * suc j ≡ suc (suc (suc (suc (4 * j)))) = omega arith in
    ap (le32 (encode (n ∷ table))) later
    ∙ (le32_after (n % 0x100) (n / 0x100 % 0x100) (n / 0x10000 % 0x100) (n / 0x1000000 % 0x100)
          (4 * j) (encode table)
        ∙ le32-encode table j small.1)

pub block_number-IsNumber :
    (disk : Sectors) (fs : Ext2Filesystem) (inode : Ext2Inode) (k num : ℕ)
    → IsNumber disk fs inode k num
    → block_number disk fs inode k ≡ num
unfolding block_number
block_number-IsNumber disk fs inode k num (direct small e) =
    let l : ltb k 12 ≡ true = ground arith in rw l e
block_number-IsNumber disk fs inode k num (no_table big small none e) =
    let l : ltb k 12 ≡ false = ground arith in
    let z : (ltb k (12 + fs.block_size / 4) && not (get_or inode.i_block 12 0 == 0)) ≡ false =
      ground (arith, none) in
    rw (l, z) (sym e)
block_number-IsNumber disk fs inode k num
      (indirect j table at size small words some_table block e) =
    let l : ltb k 12 ≡ false = ground (arith, at) in
    let z : (ltb k (12 + fs.block_size / 4) && not (get_or inode.i_block 12 0 == 0)) ≡ true =
      ground (arith, at, small, some_table) in
    let place : k - 12 ≡ j = omega (arith, at) in
    rw (l, z, read_block-DiskBlock disk fs (get_or inode.i_block 12 0) (encode table) block)
      (ap (λ x. le32 (encode table) (4 * x)) place ∙ le32-encode table j words ∙ e)
