-- ===== src/Ext2/Slice.antt =====
-- What `ext2_read_inode_data` of src/ext2.c reads from a file.
use kfs.Prelude.{
  ℕ, zero, suc, ◌+◌, ◌-◌, ◌/◌, ◌%◌, ◌≤◌, ◌<◌, ◌≡◌, ◌≢◌, ◌⊎◌, refl, sym, ap, ◌∙◌, true, false, some,
  List, [], ◌++◌, ◌==◌, ltb, append-nil, append_assoc, length, length-append, length-drop,
  length-take, take, drop, drop-append, take_nil, drop_nil, take-append_both, take-min,
  take-replicate, replicate, min, arith, Bool-cases, inl, inr,
}
use native.Mathlib.Nat.{mod-lt, div-add-mod', le-div_iff_mul-le, suc-mul}
use kfs.Ext2.Stored.{IsStored, block_number-IsNumber, read_block-DiskBlock}
use kfs.Ext2.FileBlocks.{file_blocks, drop-file_blocks, length-file_blocks}
use kfs.Ext2.{Sectors, Ext2Filesystem, Ext2Inode, u32, ext2_read_block}
use kfs.Ext2.Data.{block_number, part_of, offset_in, read_blocks, ext2_read_inode_data}

-- What the functions of the code read of the first `last` blocks of the file.
record Readable (disk : Sectors) (fs : Ext2Filesystem) (inode : Ext2Inode) (content : ℕ → List ℕ)
    (last : ℕ) : Type 0 where
  size : (k : ℕ) → length (content k) ≡ fs.block_size
  hole :
      (k : ℕ) → k < last → block_number disk fs inode k ≡ 0 → content k ≡ replicate fs.block_size 0
  bytes :
      (k : ℕ)
      → k < last
      → block_number disk fs inode k ≢ 0
      → ext2_read_block disk fs (block_number disk fs inode k) ≡ some (content k)

stored-Readable :
    (disk : Sectors) (fs : Ext2Filesystem) (inode : Ext2Inode) (numbers : ℕ → ℕ)
    (content : ℕ → List ℕ) (last : ℕ)
    → IsStored disk fs inode numbers content last
    → Readable disk fs inode content last
stored-Readable disk fs inode numbers content last v =
    let same : (k : ℕ) → k < last → block_number disk fs inode k ≡ numbers k =
      λ k h. block_number-IsNumber disk fs inode k (numbers k) (v.numbered k h) in
    record {
      size = v.size;
      hole = λ k h z. v.hole k h (sym (same k h) ∙ z);
      bytes = λ k h n.
          ap (ext2_read_block disk fs) (same k h)
          ∙ read_block-DiskBlock disk fs (numbers k) (content k)
              (v.bytes k h (λ z. n (same k h ∙ z)));
    }

part_of-bytes :
    (disk : Sectors) (fs : Ext2Filesystem) (num at wanted : ℕ) (block : List ℕ)
    → num ≢ 0
    → ext2_read_block disk fs num ≡ some block
    → length block ≡ fs.block_size
    → part_of disk fs num at wanted ≡ take wanted (drop at block)
unfolding part_of
part_of-bytes disk fs num at wanted block n r l =
    let given : (num == 0) ≡ false = ground arith in
    rw (given, r)
      (ap (λ k. take (min (k - at) wanted) (drop at block)) (sym l)
        ∙ ap (λ k. take (min k wanted) (drop at block)) (sym (length-drop at block))
        ∙ take-min wanted (drop at block))

part_of-hole :
    (disk : Sectors) (fs : Ext2Filesystem) (num at wanted : ℕ)
    → num ≡ 0
    → at ≡ 0
    → part_of disk fs num at wanted ≡ take wanted (drop at (replicate fs.block_size 0))
unfolding part_of
part_of-hole disk fs num at wanted z o = rw (z, o) (sym (take-replicate wanted fs.block_size 0))

module _ (disk : Sectors) (fs : Ext2Filesystem) (inode : Ext2Inode) (content : ℕ → List ℕ)
    (last offset size : ℕ) (stored : Readable disk fs inode content last) (big : 0 < fs.block_size)
    (start_stored : (offset % fs.block_size ≡ 0)
      ⊎ (block_number disk fs inode (offset / fs.block_size) ≢ 0)) where
  within_block : (i : ℕ) → offset_in fs offset i ≤ fs.block_size
  within_block i = ground (arith, mod-lt offset big)

  start_hole : (i : ℕ) → block_number disk fs inode i ≡ 0 → offset_in fs offset i ≡ 0
  start_hole i z = elim (Bool-cases (i == offset / fs.block_size)) [
    | inl s ↦ elim start_stored [
      | inl e ↦ rw s e
      | inr n ↦ absurd (n (ap (block_number disk fs inode) (ground arith) ∙ z))
    ]
    | inr s ↦ rw s refl
  ]

  part-content :
      (i wanted : ℕ)
      → i < last
      → part_of disk fs (block_number disk fs inode i) (offset_in fs offset i) wanted
        ≡ take wanted (drop (offset_in fs offset i) (content i))
  part-content i wanted h = elim (Bool-cases (block_number disk fs inode i == 0)) [
    | inl z ↦
        let z' : block_number disk fs inode i ≡ 0 = ground arith in
        part_of-hole disk fs (block_number disk fs inode i) (offset_in fs offset i) wanted z'
          (start_hole i z')
        ∙ ap (λ b. take wanted (drop (offset_in fs offset i) b)) (sym (stored.hole i h z'))
    | inr z ↦
        let n : block_number disk fs inode i ≢ 0 = λ e. absurd (ground arith) in
        part_of-bytes disk fs (block_number disk fs inode i) (offset_in fs offset i) wanted
          (content i) n (stored.bytes i h n) (stored.size i)
  ]

  read_blocks-content :
      (n i : ℕ) (buffer : List ℕ)
      → offset / fs.block_size ≤ i
      → i + n ≤ last
      → read_blocks disk fs inode offset size n i buffer
        ≡ buffer
          ++ take (size - length buffer) (drop (offset_in fs offset i) (file_blocks content n i))
  unfolding read_blocks file_blocks
  read_blocks-content zero i buffer s l = sym (
      ap (λ t. buffer ++ t)
        (ap (take (size - length buffer)) (drop_nil (offset_in fs offset i))
          ∙ take_nil (size - length buffer))
      ∙ append-nil buffer)
  read_blocks-content (suc n) i buffer s l =
      let part = take (size - length buffer) (drop (offset_in fs offset i) (content i)) in
      let same = part-content i (size - length buffer) (omega arith) in
      let later : offset_in fs offset (i + 1) ≡ 0 = ground arith in
      let missing : size - length (buffer ++ part) ≡ size - length buffer - length part =
        omega (arith, length-append buffer part) in
      let rest = read_blocks-content n (i + 1) (buffer ++ part) (omega arith) (omega arith) in
      elim (Bool-cases (ltb (length buffer) size)) [
        | inl m ↦
            rw (m, same)
              (rest
                ∙ ap
                    (λ o.
                      (buffer ++ part)
                      ++ take (size - length (buffer ++ part))
                          (drop o (file_blocks content n (i + 1))))
                    later
                ∙ ap (λ k. (buffer ++ part) ++ take k (file_blocks content n (i + 1))) missing
                ∙ append_assoc buffer part
                    (take (size - length buffer - length part) (file_blocks content n (i + 1)))
                ∙ ap (λ t. buffer ++ t)
                    (sym (
                      take-append_both (size - length buffer)
                        (drop (offset_in fs offset i) (content i)) (file_blocks content n (i + 1))))
                ∙ ap (λ t. buffer ++ take (size - length buffer) t)
                    (sym (
                      drop-append (offset_in fs offset i) (content i)
                        (file_blocks content n (i + 1))
                        (omega (arith, stored.size i, within_block i)))))
        | inr m ↦
            let nothing : size - length buffer ≡ 0 = ground arith in
            rw m (
              sym (
                ap
                  (λ k.
                    buffer
                    ++ take k
                        (drop (offset_in fs offset i) (content i ++ file_blocks content n (i + 1))))
                  nothing
                ∙ append-nil buffer))
      ]

-- The number of blocks up to the end of a read.
abbrev pub end_block : Ext2Filesystem → (offset size : ℕ) → ℕ
end_block fs offset size = (offset + size + fs.block_size - 1) / fs.block_size

read-Readable :
    (disk : Sectors) (fs : Ext2Filesystem) (inode : Ext2Inode) (content : ℕ → List ℕ)
    (offset size : ℕ)
    → Readable disk fs inode content (end_block fs offset size)
    → 0 < fs.block_size
    → offset + size + fs.block_size ≤ 0x100000000
    → (offset % fs.block_size ≡ 0) ⊎ (block_number disk fs inode (offset / fs.block_size) ≢ 0)
    → let file = file_blocks content (end_block fs offset size) 0 in
      (ext2_read_inode_data true disk fs inode offset size ≡ some (take size (drop offset file)))
      × (length (take size (drop offset file)) ≡ size)
unfolding ext2_read_inode_data
read-Readable disk fs inode content offset size stored big low start = (
  ap (λ x. some (read_blocks disk fs inode offset size (x - first) first [])) no_wrap
      ∙ ap some (
          read_blocks-content disk fs inode content last offset size stored big start (last - first)
            first [] (omega arith) (omega (arith, ordered))
          ∙ ap
              (λ k.
                take k
                  (drop (offset_in fs offset first) (file_blocks content (last - first) first)))
              whole
          ∙ ap (λ k. take size (drop k (file_blocks content (last - first) first))) middle
          ∙ ap (take size) from_start),
  omega (
    arith,
    length-take size (drop offset (file_blocks content last 0)),
    length-drop offset (file_blocks content last 0),
    length-file_blocks content fs.block_size last 0 stored.size,
    div-add-mod' (offset + size + fs.block_size - 1) fs.block_size,
    mod-lt (offset + size + fs.block_size - 1) big,
  ),
)
  where
    first : ℕ
    first = offset / fs.block_size

    last : ℕ
    last = end_block fs offset size

    no_wrap : (offset + size + fs.block_size + u32 - 1) % u32 / fs.block_size ≡ last
    no_wrap =
        let same : (offset + size + fs.block_size + u32 - 1) % u32
            ≡ offset + size + fs.block_size - 1 =
          omega (arith, low, big) in
        ap (λ x. x / fs.block_size) same

    ordered : first ≤ last
    ordered = (le-div_iff_mul-le big).1 (omega (arith, div-add-mod' offset fs.block_size, big))

    whole : size - 0 ≡ size
    whole = omega arith

    middle : offset_in fs offset first ≡ offset % fs.block_size
    middle = ground arith

    from_start :
        drop (offset % fs.block_size) (file_blocks content (last - first) first)
        ≡ drop offset (file_blocks content last 0)
    from_start =
        let zeroth : first ≡ 0 + first = omega arith in
        let number : first + (last - first) ≡ last = omega (arith, ordered) in
        ap (λ k. drop (offset % fs.block_size) (file_blocks content (last - first) k)) zeroth
        ∙ sym (
            drop-file_blocks content fs.block_size first (last - first) 0 (offset % fs.block_size)
              stored.size)
        ∙ ap (λ k. drop k (file_blocks content (first + (last - first)) 0))
            (div-add-mod' offset fs.block_size)
        ∙ ap (λ k. drop offset (file_blocks content k 0)) number

-- A read that begins within a block ends after it.
start_lt_end :
    (fs : Ext2Filesystem) (offset size : ℕ)
    → 0 < fs.block_size
    → offset % fs.block_size ≢ 0
    → offset / fs.block_size < end_block fs offset size
start_lt_end fs offset size big n = (le-div_iff_mul-le big).1 (
    omega (
      arith,
      div-add-mod' offset fs.block_size,
      suc-mul (offset / fs.block_size) fs.block_size,
      big,
      n,
    ))

-- If the disk has the blocks of a file up to the end of the read, all of them among the twelve of the
-- inode and those in the table of its indirect block, that end with a block more does not reach 2 ^ 32,
-- and the read begins in a block with a number or at the start of a block, then the buffer gets exactly
-- the `size` bytes of the file from `offset` on.
pub read-slice :
    (disk : Sectors) (fs : Ext2Filesystem) (inode : Ext2Inode) (numbers : ℕ → ℕ)
    (content : ℕ → List ℕ) (offset size : ℕ)
    → IsStored disk fs inode numbers content (end_block fs offset size)
    → 0 < fs.block_size
    → offset + size + fs.block_size ≤ 0x100000000
    → (offset % fs.block_size ≡ 0) ⊎ (numbers (offset / fs.block_size) ≢ 0)
    → let file = file_blocks content (end_block fs offset size) 0 in
      (ext2_read_inode_data true disk fs inode offset size ≡ some (take size (drop offset file)))
      × (length (take size (drop offset file)) ≡ size)
read-slice disk fs inode numbers content offset size v big low start =
    read-Readable disk fs inode content offset size
      (stored-Readable disk fs inode numbers content (end_block fs offset size) v) big low
      (elim (Bool-cases (offset % fs.block_size == 0)) [
        | inl z ↦ inl (ground arith)
        | inr z ↦ elim start [
          | inl e ↦ inl e
          | inr n ↦
              let inside = start_lt_end fs offset size big (ground arith) in
              let first = offset / fs.block_size in
              inr (λ e. n (
                sym (
                  block_number-IsNumber disk fs inode first (numbers first)
                    (v.numbered first inside))
                ∙ e))
        ]
      ])
