-- ===== src/Kmalloc/Free.antt =====
-- `kfree` of src/kmalloc.c: what it keeps, what it gives back, and requests that wrap.
use kfs.Prelude.{
  ℕ, ◌+◌, ◌%◌, ◌<◌, ◌≤◌, ◌≡◌, ◌≢◌, refl, zero, suc, true, false, some, List, [], ◌∷◌, leb,
  if◌then◌else◌, get_elem?, modify, arith, Bool-cases, inl, inr, get_elem?-get_or,
  get_elem?-modify_self, All,
}
use kfs.Kmalloc.{
  Block, Heap, block_header_size, heap_begin, heap_size, heap_end, word, split_block,
  merge_free_blocks, mark, total_size, block_at, take_block, allocate, kmalloc_init, kmalloc,
  boot_heap, header_addr, find_block, free_header, FreeResult, panic, strayed, done, count_freed,
  kfree, block_magic,
}
use kfs.Kmalloc.Tiling.{block-InHeap, find-addr, mark-Tiles, merge-Tiles}
use kfs.Kmalloc.Merge.{Coalesced, live, carve, merge-carve, merge-Coalesced, live-merge}
use kfs.Kmalloc.Alloc.{
  IsHeap, max_request, Search, refused, taken, find_free_block-Search, allocate-refused,
  allocate-taken, kmalloc_ready, take-IsHeap,
}

-- No block of the chain has the header that `kfree` reads.
abbrev pub Unknown : Heap → ℕ → Type 0
Unknown h ptr = All (λ b. b.addr ≢ header_addr ptr) h.blocks

-- What holds after `kfree`.
abbrev pub After : Heap → ℕ → Block → FreeResult → Type 0
After h ptr stray panic = Unknown h ptr × (stray.magic ≢ block_magic)
After h ptr stray strayed = Unknown h ptr × (stray.magic ≡ block_magic) × (stray.is_free ≡ false)
After h ptr stray (done h') = IsHeap h'

-- Freeing at a pointer to a block of the chain.
kfree_block :
    (h : Heap) (ptr i : ℕ) (stray : Block) {b : Block}
    → IsHeap h
    → get_elem? h.blocks i ≡ some b
    → ptr ≡ b.addr + block_header_size
    → kfree h ptr stray ≡ (
        if b.is_free
        then done h
        else done (count_freed h b (merge_free_blocks (modify (mark true) h.blocks i))))
unfolding kfree free_header
kfree_block h zero i stray v g e = absurd (omega arith)
kfree_block h (suc n) i stray {b} v g e =
    let r = block-InHeap heap_begin heap_end h.blocks i v.tiled g in
    let at : block_at h.blocks i ≡ b = get_elem?-get_or h.blocks i _ g in
    let found : find_block h.blocks (suc n) ≡ some i =
      find-addr heap_begin heap_end h.blocks i (header_addr (suc n)) v.tiled g (omega (arith, r)) in
    rw (found, kfree, at) (ground (arith, r))

-- A second `kfree` of a block changes nothing.
kfree_twice :
    (h : Heap) (ptr i : ℕ) (stray : Block) {b : Block}
    → IsHeap h
    → get_elem? h.blocks i ≡ some b
    → ptr ≡ b.addr + block_header_size
    → b.is_free ≡ true
    → kfree h ptr stray ≡ done h
kfree_twice h ptr i stray {b} v g e f = rw (kfree_block h ptr i stray v g e, f)

-- After `kfree` of a block in use the blocks tile the heap again, no two free ones are neighbours, and the
-- blocks in use are all the others that were, where and as they were.
pub kfree_used :
    (h : Heap) (ptr i : ℕ) (stray : Block) {b : Block}
    → IsHeap h
    → get_elem? h.blocks i ≡ some b
    → ptr ≡ b.addr + block_header_size
    → b.is_free ≡ false
    → (h' : Heap) × (kfree h ptr stray ≡ done h')
      × IsHeap h'
      × Coalesced h'.blocks
      × (live h'.blocks ≡ live (modify (mark true) h.blocks i))
kfree_used h ptr i stray {b} v g e f = (
  count_freed h b (merge_free_blocks (modify (mark true) h.blocks i)),
  rw (kfree_block h ptr i stray v g e, f),
  record {
    ready = v.ready;
    tiled =
        merge-Tiles heap_begin heap_end (modify (mark true) h.blocks i)
          (mark-Tiles true heap_begin heap_end h.blocks i v.tiled);
  },
  merge-Coalesced (modify (mark true) h.blocks i),
  live-merge (modify (mark true) h.blocks i),
)

split-head :
    (bs : List Block) (i size : ℕ) {b : Block}
    → get_elem? bs i ≡ some b
    → (c : Block) × (get_elem? (split_block bs i size) i ≡ some c) × (c.addr ≡ b.addr)
unfolding split_block
split-head [] i size g = absurd (cc)
split-head (x ∷ bs) zero size g = elim (Bool-cases (leb ((size + 16 + 16) % word) x.size)) [
  | inl h ↦ rw h (record x { size = size }, refl, ground arith)
  | inr h ↦ rw h (x, refl, ground arith)
]
split-head (x ∷ bs) (suc i) size g = split-head bs i size g

take_kfree :
    (h : Heap) (size i : ℕ) (stray : Block) {b : Block}
    → 0 < size
    → size ≤ max_request
    → IsHeap h
    → Coalesced h.blocks
    → get_elem? h.blocks i ≡ some b
    → b.is_free ≡ true
    → total_size size ≤ b.size
    → (h' : Heap) × (kfree (take_block h i size).1 (take_block h i size).0 stray ≡ done h')
      × (h'.blocks ≡ h.blocks)
unfolding take_block
take_kfree h size i stray {b} pos small v co g f l =
    let t = total_size size in
    let bs = split_block h.blocks i t in
    let (c, gc, ec) = split-head h.blocks i t g in
    let r = block-InHeap heap_begin heap_end h.blocks i v.tiled g in
    let at : block_at h.blocks i ≡ b = get_elem?-get_or h.blocks i _ g in
    let starts : (take_block h i size).0 ≡ c.addr + block_header_size = rw at (omega (arith, r)) in
    (
      count_freed (take_block h i size).1 (mark false c) (merge_free_blocks (carve h.blocks i t)),
      kfree_block (take_block h i size).1 (take_block h i size).0 i stray
          (take-IsHeap h size i pos small v g l) (get_elem?-modify_self (mark false) bs i c gc)
          starts,
      merge-carve h.blocks i t g f l co,
    )

-- On a heap that is set up and has no two free neighbours, a request of 1 to 0xffffffec bytes that
-- `kmalloc` serves, followed by `kfree` of its pointer, gives back exactly the blocks from before,
-- whatever lies in memory elsewhere.
pub kfree-kmalloc :
    (h : Heap) (size : ℕ) (stray : Block)
    → 0 < size
    → size ≤ max_request
    → IsHeap h
    → Coalesced h.blocks
    → (kmalloc h size).0 ≢ 0
    → (h' : Heap) × (kfree (kmalloc h size).1 (kmalloc h size).0 stray ≡ done h')
      × (h'.blocks ≡ h.blocks)
kfree-kmalloc h size stray pos small v co ne = go (find_free_block-Search h size)
  where
    same : kmalloc h size ≡ allocate h size
    same = kmalloc_ready h size v.ready

    go :
        Search h size
        → (h' : Heap) × (kfree (kmalloc h size).1 (kmalloc h size).0 stray ≡ done h')
          × (h'.blocks ≡ h.blocks)
    go (refused e) = absurd (ne (rw (same, allocate-refused h size e)))
    go (taken i b e g f l) =
        rw (same, allocate-taken h size i (omega arith) e)
          (take_kfree h size i stray pos small v co g f l)

le→leb : {a b : ℕ} → a ≤ b → leb a b ≡ true
le→leb h = ground arith

-- On the heap as it is after boot the one block serves what fits.
first_served :
    (size : ℕ)
    → size ≢ 0
    → leb (total_size size) heap_size ≡ true
    → kmalloc boot_heap size ≡ take_block (kmalloc_init boot_heap) 0 size
unfolding kmalloc
first_served size n f = allocate-taken (kmalloc_init boot_heap) size 0 n (rw f)

-- The sum that adds the header wraps at 2 ^ 32: on the heap as it is after boot, every request above
-- 0xffffffec bytes is served, with a pointer to the first 16 bytes after the first header.
kmalloc_wraps :
    (size : ℕ) → max_request < size → size < word → (kmalloc boot_heap size).0 ≡ heap_begin + 16
unfolding take_block kmalloc_init
kmalloc_wraps size big w = rw (first_served size (omega arith) (le→leb (omega arith))) refl
