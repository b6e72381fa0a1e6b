-- ===== src/Ext2/Inodes.antt =====
-- Inodes that src/ext2.c writes and reads again.
use kfs.Prelude.{
  ℕ, ◌+◌, ◌≤◌, ◌≡◌, refl, sym, ap, ◌∙◌, true, false, some, List, ◌++◌, length, length-take, take,
  drop, drop-append, take-append, take_all, drop_all, arith,
}
use kfs.Ext2.{
  Sectors, Ext2Filesystem, ext2_read_block, ext2_read_inode, ext2_write_inode, ext2_write_block,
  inode_block, inode_offset, is_invalid, splice, decode_inode,
}

drop-take :
    (at : ℕ) (block rest : List ℕ) → at ≤ length block → drop at (take at block ++ rest) ≡ rest
drop-take at block rest h =
    let l : length (take at block) ≡ at = omega (arith, length-take at block) in
    drop-append at (take at block) rest (omega (arith, l))
    ∙ ap (λ t. t ++ rest) (drop_all at (take at block) (omega (arith, l)))

splice_part :
    (block bytes : List ℕ) (at : ℕ)
    → at ≤ length block
    → take (length bytes) (drop at (splice block at bytes)) ≡ bytes
splice_part block bytes at h =
    ap (take (length bytes)) (drop-take at block (bytes ++ drop (at + length bytes) block) h)
    ∙ take-append (length bytes) bytes (drop (at + length bytes) block) (omega arith)
    ∙ take_all (length bytes) bytes (omega arith)

write_inode-splice :
    (disk : Sectors) (fs : Ext2Filesystem) (num : ℕ) (inode block : List ℕ)
    → is_invalid fs num ≡ false
    → ext2_read_block disk fs (inode_block fs num) ≡ some block
    → ext2_write_inode true disk fs num inode
      ≡ some (ext2_write_block fs (inode_block fs num) (splice block (inode_offset fs num) inode))
unfolding ext2_write_inode
write_inode-splice disk fs num inode block valid there = rw (valid, there) refl

read_inode-block :
    (disk : Sectors) (fs : Ext2Filesystem) (num : ℕ) (block : List ℕ)
    → is_invalid fs num ≡ false
    → ext2_read_block disk fs (inode_block fs num) ≡ some block
    → ext2_read_inode true disk fs num
      ≡ some (decode_inode (take 128 (drop (inode_offset fs num) block)))
unfolding ext2_read_inode
read_inode-block disk fs num block valid there = rw (valid, there) refl

-- For the number of an inode in a group whose block can be read and reaches to the inode's place, a
-- disk that answers with what `ext2_write_inode` writes to its sectors gives the 128 bytes written back as the
-- inode.
pub read_inode-write_inode :
    (disk disk' : Sectors) (fs : Ext2Filesystem) (num : ℕ) (inode block : List ℕ)
    → is_invalid fs num ≡ false
    → ext2_read_block disk fs (inode_block fs num) ≡ some block
    → inode_offset fs num ≤ length block
    → length inode ≡ 128
    → ((start count : ℕ) (written : List ℕ)
        → ext2_write_inode true disk fs num inode ≡ some (start, count, written)
        → disk' start count ≡ some written)
    → ext2_read_inode true disk' fs num ≡ some (decode_inode inode)
unfolding ext2_read_block
read_inode-write_inode disk disk' fs num inode block valid there reach whole holds =
    let written = splice block (inode_offset fs num) inode in
    let (start, count, bytes) = ext2_write_block fs (inode_block fs num) written in
    read_inode-block disk' fs num written valid
      (holds start count bytes (write_inode-splice disk fs num inode block valid there))
    ∙ ap (λ k. some (decode_inode (take k (drop (inode_offset fs num) written)))) (sym whole)
    ∙ ap (λ b. some (decode_inode b)) (splice_part block inode (inode_offset fs num) reach)
