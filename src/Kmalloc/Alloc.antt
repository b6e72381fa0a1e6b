-- ===== src/Kmalloc/Alloc.antt =====
-- `kmalloc` and `kfree` of src/kmalloc.c on a heap whose blocks tile it.
use kfs.Prelude.{
  ℕ, ◌+◌, ◌%◌, ◌<◌, ◌≤◌, ◌≡◌, ◌≢◌, ◌⊎◌, refl, ap, zero, suc, true, false, none, some, List, [], ◌∷◌,
  leb, ◌==◌, if◌then◌else◌, get_elem?, modify, arith, Bool-cases, inl, inr, Option-cases,
  find_index-Found, get_elem?-get_or, All, none-find_index, some-injective, subst,
}
use kfs.Kmalloc.{
  Block, Heap, block_header_size, heap_begin, heap_end, word, split_block, mark, fits,
  find_free_block, total_size, block_at, take_block, allocate, kmalloc_init, kmalloc,
}
use kfs.Kmalloc.Tiling.{Tiles, block-InHeap, block-addr_aligned, split-Tiles, mark-Tiles}
use kfs.Kmalloc.Merge.{live}

-- A heap that is set up: its blocks fill the megabyte at 5 MB.
pub record IsHeap (h : Heap) : Type 0 where
  pub ready : h.initialized ≡ true
  pub tiled : Tiles heap_begin heap_end h.blocks

-- Requests up to here do not wrap in `(size + 3) & ~3` or in adding the header.
abbrev pub max_request : ℕ
max_request = 0xffffffec

pub data Search (h : Heap) (size : ℕ) : Type 0 where
  refused : find_free_block h.blocks (total_size size) ≡ none → Search h size
  taken :
      (i : ℕ) (b : Block)
      → find_free_block h.blocks (total_size size) ≡ some i
      → get_elem? h.blocks i ≡ some b
      → b.is_free ≡ true
      → total_size size ≤ b.size
      → Search h size

-- The search for a block, with what a success says of the block.
pub find_free_block-Search : (h : Heap) (size : ℕ) → Search h size
find_free_block-Search h size = elim (Option-cases (find_free_block h.blocks (total_size size))) [
  | inl e ↦ refused e
  | inr (i, e) ↦
      let f = find_index-Found (fits (total_size size)) h.blocks i e in
      taken i f.entry e f.at (ground (arith, f.passes)) (ground (arith, f.passes))
]

pub allocate-refused :
    (h : Heap) (size : ℕ)
    → find_free_block h.blocks (total_size size) ≡ none
    → allocate h size ≡ (0, h)
unfolding allocate
allocate-refused h size e = ground (arith, e)

pub allocate-taken :
    (h : Heap) (size i : ℕ)
    → size ≢ 0
    → find_free_block h.blocks (total_size size) ≡ some i
    → allocate h size ≡ take_block h i size
unfolding allocate
allocate-taken h size i n e = let z : (size == 0) ≡ false = ground arith in rw (z, e)

pub init_ready : (h : Heap) → h.initialized ≡ true → kmalloc_init h ≡ h
unfolding kmalloc_init
init_ready h e = rw e

pub kmalloc_ready : (h : Heap) (size : ℕ) → h.initialized ≡ true → kmalloc h size ≡ allocate h size
unfolding kmalloc
kmalloc_ready h size e = ap (λ k. allocate k size) (init_ready h e)

pub take-IsHeap :
    (h : Heap) (size i : ℕ) {b : Block}
    → 0 < size
    → size ≤ max_request
    → IsHeap h
    → get_elem? h.blocks i ≡ some b
    → total_size size ≤ b.size
    → IsHeap (take_block h i size).1
unfolding take_block
take-IsHeap h size i {b} pos small v g l = record {
  ready = v.ready;
  tiled =
      let r = block-InHeap heap_begin heap_end h.blocks i v.tiled g in
      mark-Tiles false heap_begin heap_end (split_block h.blocks i (total_size size)) i (
        split-Tiles heap_begin heap_end h.blocks i (total_size size) (omega arith) (omega arith)
          (omega arith) l (omega (arith, r)) g v.tiled);
}

allocate_zero : (h : Heap) → allocate h 0 ≡ (0, h)
unfolding allocate
allocate_zero h = refl

allocate-IsHeap : (h : Heap) (size : ℕ) → size ≤ max_request → IsHeap h → IsHeap (allocate h size).1
allocate-IsHeap h zero small v = rw (allocate_zero h) v
allocate-IsHeap h (suc n) small v = go (find_free_block-Search h (suc n))
  where
    go : Search h (suc n) → IsHeap (allocate h (suc n)).1
    go (refused e) = rw (allocate-refused h (suc n) e) v
    go (taken i b e g f l) =
        rw (allocate-taken h (suc n) i (omega arith) e)
          (take-IsHeap h (suc n) i (omega arith) small v g l)

-- On a heap that is set up, `kmalloc` keeps the blocks tiling the heap, for requests up to
-- 0xffffffec bytes.
pub kmalloc-IsHeap :
    (h : Heap) (size : ℕ) → size ≤ max_request → IsHeap h → IsHeap (kmalloc h size).1
kmalloc-IsHeap h size small v = rw (kmalloc_ready h size v.ready) (allocate-IsHeap h size small v)

-- `ys` is `xs` with `x` put in at one place.
pub data Insert (x : Block) : List Block → List Block → Type 0 where
  here : {xs : List Block} → Insert x xs (x ∷ xs)
  there : {y : Block} {xs ys : List Block} → Insert x xs ys → Insert x (y ∷ xs) (y ∷ ys)

-- What a successful request for `size` bytes gives.
pub record Served (h : Heap) (size p : ℕ) (h' : Heap) : Type 0 where
  pub block : Block
  pub room : size + block_header_size ≤ block.size
  pub starts : p ≡ block.addr + block_header_size
  pub above : heap_begin < p
  pub below : p + size ≤ heap_end
  pub aligned : p % 4 ≡ 0
  pub added : Insert block (live h.blocks) (live h'.blocks)

-- The block that a request turns a free block into.
abbrev cut : Block → ℕ → Block
cut b size = record b {
  size = if leb ((size + block_header_size + 16) % word) b.size then size else b.size;
  is_free = false;
}

live-take_head :
    (x : Block) (bs : List Block) (size : ℕ)
    → x.is_free ≡ true
    → Insert
        (cut x size)
        (live (x ∷ bs))
        (live (modify (mark false) (split_block (x ∷ bs) 0 size) 0))
unfolding split_block
live-take_head x bs size f = elim (Bool-cases (leb ((size + 16 + 16) % word) x.size)) [
  | inl h ↦ rw (h, f) here
  | inr h ↦ rw (h, f) here
]

live-take :
    (bs : List Block) (i size : ℕ) {b : Block}
    → get_elem? bs i ≡ some b
    → b.is_free ≡ true
    → Insert (cut b size) (live bs) (live (modify (mark false) (split_block bs i size) i))
unfolding split_block
live-take [] i size g f = absurd (cc)
live-take (x ∷ bs) zero size {b} g f =
    let e : x ≡ b = some-injective x b g in
    subst
      (λ c.
        Insert (cut c size) (live (x ∷ bs))
          (live (modify (mark false) (split_block (x ∷ bs) 0 size) 0)))
      e (live-take_head x bs size (ground arith))
live-take (x ∷ bs) (suc i) size {b} g f = elim (Bool-cases x.is_free) [
  | inl h ↦ rw h (live-take bs i size g f)
  | inr h ↦ rw h (there (live-take bs i size g f))
]

take-Served :
    (h : Heap) (size i : ℕ) {b : Block}
    → 0 < size
    → size ≤ max_request
    → IsHeap h
    → get_elem? h.blocks i ≡ some b
    → b.is_free ≡ true
    → total_size size ≤ b.size
    → Served h size (take_block h i size).0 (take_block h i size).1
unfolding take_block
take-Served h size i {b} pos small v g f l =
    let r = block-InHeap heap_begin heap_end h.blocks i v.tiled g in
    let four = block-addr_aligned heap_begin heap_end h.blocks i refl v.tiled g in
    let at : block_at h.blocks i ≡ b = get_elem?-get_or h.blocks i _ g in
    rw at (record {
      block = cut b (total_size size);
      room = ground (arith, l, r);
      starts = omega (arith, r);
      above = omega (arith, r);
      below = omega (arith, r);
      aligned = omega (arith, r, four);
      added = live-take h.blocks i (total_size size) g f;
    })

-- No free block is large enough for the request.
abbrev pub NoRoom : Heap → ℕ → Type 0
NoRoom h size = All (λ b. fits (total_size size) b ≡ false) h.blocks

-- On a heap that is set up, for a request of 1 to 0xffffffec bytes, `kmalloc` either finds every free
-- block too small for the request with its header, returns NULL and changes nothing, or returns a
-- 4-aligned pointer inside the heap, 16 above the start of a block with room for the request that
-- was free before, and the blocks in use are those from before and that one.
pub kmalloc-Served :
    (h : Heap) (size : ℕ)
    → 0 < size
    → size ≤ max_request
    → IsHeap h
    → ((kmalloc h size ≡ (0, h)) × NoRoom h size)
      ⊎ Served h size (kmalloc h size).0 (kmalloc h size).1
kmalloc-Served h size pos small v =
    rw (kmalloc_ready h size v.ready) (go (find_free_block-Search h size))
  where
    go :
        Search h size
        → ((allocate h size ≡ (0, h)) × NoRoom h size)
          ⊎ Served h size (allocate h size).0 (allocate h size).1
    go (refused e) =
        inl (allocate-refused h size e, none-find_index (fits (total_size size)) h.blocks e)
    go (taken i b e g f l) =
        rw (allocate-taken h size i (omega arith) e) (inr (take-Served h size i pos small v g f l))
