-- ===== src/Ext2/Tests.antt =====
-- A small disk, and the theorems on EXT2 on it.
use kfs.Prelude.{
  ℕ, zero, suc, ◌*◌, ◌/◌, ◌%◌, ◌<◌, ◌≡◌, ◌≢◌, refl, sym, ap, ◌∙◌, some-injective, true, some, List,
  [], ◌∷◌, ◌++◌, ◌==◌, length, take, drop, replicate, inr, inl, arith, if◌then◌else◌, get_or,
  get_or-append, length-replicate, All-replicate, ltb, Bool-cases, subst,
}
use kfs.Ext2.{
  Sectors, Ext2Filesystem, Ext2Inode, ext2_read_block, ext2_read_inode, ext2_write_inode,
  decode_inode, splice, inode_block,
}
use kfs.Ext2.Data.{ext2_read_inode_data}
use kfs.Ext2.FileBlocks.{file_blocks}
use kfs.Ext2.Stored.{DiskBlock, encode, IsNumber, direct, indirect, IsStored}
use kfs.Ext2.Slice.{read-slice}
use kfs.Ext2.Inodes.{read_inode-write_inode}

-- The first number of the indirect block is 20.
abbrev table : List ℕ
table = 20 ∷ replicate 255 0

-- Blocks of 1024 bytes; block 7 is the indirect block, another block `b` is filled with the byte `b`.
abbrev disk : Sectors
disk start count =
    if start == 14 then some (encode table) else some (replicate (count * 512) (start / 2 % 256))

-- One group of 8 inodes, whose table begins at block 5.
abbrev fs : Ext2Filesystem
fs = record {
  superblock = replicate 1024 0;
  block_size = 1024;
  blocks_per_group = 64;
  inodes_per_group = 8;
  groups_count = 1;
  group_descriptors = replicate 8 0 ++ (5 ∷ 0 ∷ 0 ∷ 0 ∷ []);
  root_inode = 2;
}

-- Block 9 twelve times, and then what the indirect block 7 has.
abbrev file : Ext2Inode
file = record {
  i_mode = 0x81a4;
  i_uid = 0;
  i_size = 13312;
  i_gid = 0;
  i_links_count = 1;
  i_block = replicate 12 9 ++ (7 ∷ []);
}

abbrev numbers : ℕ → ℕ
numbers k = get_or (replicate 12 9 ++ (20 ∷ [])) k 0

abbrev content : ℕ → List ℕ
content k = replicate 1024 (if ltb k 12 then 9 else 20)

abbrev nine : ℕ
nine = 9

nine_at : (n k : ℕ) → k < n → get_or (replicate n nine) k 0 ≡ nine
nine_at zero k h = absurd (omega (arith, h))
nine_at (suc n) zero h = refl
nine_at (suc n) (suc k) h = nine_at n k (omega (arith, h))

nines : (k : ℕ) → k < 12 → (get_or file.i_block k 0 ≡ numbers k) × (numbers k ≡ 9)
nines k h = (
  get_or-append (replicate 12 9) (7 ∷ []) k 0 h
      ∙ sym (get_or-append (replicate 12 9) (20 ∷ []) k 0 h),
  get_or-append (replicate 12 9) (20 ∷ []) k 0 h ∙ nine_at 12 k h,
)

file-IsStored : IsStored disk fs file numbers content 13
file-IsStored = record {
  size = λ k. length-replicate {A = ℕ} 1024 (if ltb k 12 then 9 else 20);
  numbered = numbered;
  hole = λ k h z. absurd (omega (arith, some_number k h, z));
  bytes = bytes;
}
  where
    numbered : (k : ℕ) → k < 13 → IsNumber disk fs file k (numbers k)
    numbered k h = elim (Bool-cases (ltb k 12)) [
      | inl l ↦ let small : k < 12 = ground arith in direct small (nines k small).0
      | inr l ↦
          let last : 12 ≡ k = ground arith in
          subst (λ k. IsNumber disk fs file k (numbers k)) last
            (indirect 0 table refl refl (omega arith)
              (omega arith, All-replicate (λ n. n < 0x100000000) 255 0 (omega arith)) (omega arith)
              (2, refl, omega arith, refl) refl)
    ]

    some_number : (k : ℕ) → k < 13 → 0 < numbers k
    some_number k h = elim (Bool-cases (ltb k 12)) [
      | inl l ↦ let n = nines k (ground arith) in omega (arith, n.1)
      | inr l ↦ let last : 12 ≡ k = ground arith in subst (λ k. 0 < numbers k) last (omega arith)
    ]

    bytes : (k : ℕ) → k < 13 → numbers k ≢ 0 → DiskBlock disk 1024 (numbers k) (content k)
    bytes k h n = elim (Bool-cases (ltb k 12)) [
      | inl l ↦
          let e = (nines k (ground arith)).1 in
          rw l (
            subst (λ b. DiskBlock disk 1024 b (replicate 1024 9)) (sym e)
              (2, refl, omega arith, refl))
      | inr l ↦
          let last : 12 ≡ k = ground arith in
          subst (λ k. DiskBlock disk 1024 (numbers k) (content k)) last (2, refl, omega arith, refl)
    ]

read-slice_example :
    (ext2_read_inode_data true disk fs file 12286 4 ≡ some (9 ∷ 9 ∷ 20 ∷ 20 ∷ []))
    × (length (take 4 (drop 12286 (file_blocks content 13 0))) ≡ 4)
unfolding file_blocks
read-slice_example =
    read-slice disk fs file numbers content 12286 4 file-IsStored (omega arith) (omega arith)
      (inr (omega arith))

abbrev inode_bytes : List ℕ
inode_bytes = 0xa4 ∷ 0x81 ∷ replicate 126 7

-- Inode 3 is at byte 256 of block 5.
abbrev disk_after : Sectors
disk_after start count =
    if start == 10
    then some (replicate 256 5 ++ (inode_bytes ++ replicate 640 5))
    else disk start count

abbrev asked : List ℕ
asked = splice (replicate 1024 5) 256 inode_bytes

disk_after-holds :
    (start count : ℕ) (written : List ℕ)
    → ext2_write_inode true disk fs 3 inode_bytes ≡ some (start, count, written)
    → disk_after start count ≡ some written
unfolding ext2_write_inode ext2_read_block
disk_after-holds start count written e =
    let q = some-injective (10, 2, asked) (start, count, written) e in
    ap (λ x. disk_after x.0 x.1) (sym q) ∙ ap (λ x. some x.2) q

block_5 : ext2_read_block disk fs (inode_block fs 3) ≡ some (replicate 1024 5)
unfolding ext2_read_block
block_5 = refl

read_inode-write_inode_example :
    ext2_read_inode true disk_after fs 3 ≡ some (decode_inode inode_bytes)
read_inode-write_inode_example =
    read_inode-write_inode disk disk_after fs 3 inode_bytes (replicate 1024 5) refl block_5
      (omega arith) refl disk_after-holds
