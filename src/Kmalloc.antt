-- ===== src/Kmalloc.antt =====
-- The kernel heap, src/kmalloc.c: a list of blocks with a header each, first fit, split and merge.
--
-- The chain of `mem_block_t` is a list in the order of its `next` pointers, each block with its
-- address. A pointer is its address, NULL is 0, and `size_t` sums wrap at 2 ^ 32. Warnings and
-- statistics output are left out.
mod Tiling
mod Merge
mod Alloc
mod Free
mod Tests
use kfs.Prelude.{
  ℕ, ◌+◌, ◌-◌, ◌%◌, zero, suc, Bool, true, false, ◌&&◌, not, Option, none, some, List, [], ◌∷◌, leb,
  ◌==◌, if◌then◌else◌, find_index, get_or, modify,
}

abbrev pub heap_begin : ℕ
heap_begin = 0x00500000

abbrev pub heap_size : ℕ
heap_size = 0x00100000

abbrev pub heap_end : ℕ
heap_end = heap_begin + heap_size

abbrev pub block_magic : ℕ
block_magic = 0xdeadbeef

-- sizeof(mem_block_t): three words and a `bool` padded to one.
abbrev pub block_header_size : ℕ
block_header_size = 16

-- The modulus of `size_t` and `uint32_t`.
abbrev pub word : ℕ
word = 0x100000000

pub record Block : Type 0 where
  pub addr : ℕ
  pub size : ℕ
  pub is_free : Bool
  pub magic : ℕ

pub record Heap : Type 0 where
  pub blocks : List Block
  pub initialized : Bool
  pub total_allocated : ℕ
  pub total_freed : ℕ
  pub num_allocations : ℕ

-- The static variables before any call.
abbrev pub boot_heap : Heap
boot_heap = record {
  blocks = [];
  initialized = false;
  total_allocated = 0;
  total_freed = 0;
  num_allocations = 0;
}

abbrev pub first_block : Block
first_block = record { addr = heap_begin; size = heap_size; is_free = true; magic = block_magic }

pub kmalloc_init : Heap → Heap
kmalloc_init h =
    if h.initialized then h else record h { blocks = first_block ∷ []; initialized = true }

abbrev pub fits : ℕ → Block → Bool
fits size b = b.is_free && leb size b.size

-- The position of the first free block that is large enough.
abbrev pub find_free_block : List Block → ℕ → Option ℕ
find_free_block bs size = find_index (fits size) bs

-- `split_block` on the block at a position.
pub split_block : List Block → ℕ → ℕ → List Block
split_block [] i size = []
split_block (b ∷ bs) zero size =
    if leb ((size + block_header_size + 16) % word) b.size
    then record b { size = size }
      ∷ record {
        addr = (b.addr + size) % word;
        size = b.size - size;
        is_free = true;
        magic = block_magic;
      }
      ∷ bs
    else b ∷ bs
split_block (b ∷ bs) (suc i) size = b ∷ split_block bs i size

-- The walk of `merge_free_blocks` from a current block on: a merge stays at the current block.
pub merge_from : Block → List Block → List Block
merge_from b [] = b ∷ []
merge_from b (c ∷ bs) = elim (b.is_free && c.is_free) [
  | true ↦ merge_from (record b { size = b.size + c.size }) bs
  | false ↦ b ∷ merge_from c bs
]

pub merge_free_blocks : List Block → List Block
unfolding merge_from
merge_free_blocks [] = []
merge_free_blocks (b ∷ bs) = merge_from b bs

abbrev pub mark : Bool → Block → Block
mark f b = record b { is_free = f }

-- `(size + 3) & ~3`
abbrev pub align4 : ℕ → ℕ
align4 size = (size + 3) % word - (size + 3) % word % 4

-- The block size for a request, with the header.
abbrev pub total_size : ℕ → ℕ
total_size size = (align4 size + block_header_size) % word

abbrev pub block_at : List Block → ℕ → Block
block_at bs i = get_or bs i (record { addr = 0; size = 0; is_free = false; magic = 0 })

-- The allocation in the block at position `i`.
pub take_block : Heap → ℕ → ℕ → ℕ × Heap
unfolding split_block
take_block h i size = (
  ((block_at h.blocks i).addr + block_header_size) % word,
  record h {
    blocks = modify (mark false) (split_block h.blocks i (total_size size)) i;
    total_allocated = (h.total_allocated + align4 size) % word;
    num_allocations = (h.num_allocations + 1) % word;
  },
)

-- `kmalloc` once the heap is set up.
pub allocate : Heap → ℕ → ℕ × Heap
unfolding take_block
allocate h size = if size == 0 then (0, h) else elim (find_free_block h.blocks (total_size size)) [
  | none ↦ (0, h)
  | some i ↦ take_block h i size
]

pub kmalloc : Heap → ℕ → ℕ × Heap
unfolding allocate kmalloc_init
kmalloc h size = allocate (kmalloc_init h) size

-- `(addr + align - 1) & ~(align - 1)`, for `align` a power of two.
abbrev pub align_up : ℕ → ℕ → ℕ
align_up addr align = (addr + align - 1) % word - (addr + align - 1) % word % align

pub kmalloc_aligned : Heap → ℕ → ℕ → ℕ × Heap
unfolding kmalloc
kmalloc_aligned h size align =
    let (p, h') = kmalloc h ((size + align) % word) in
    if p == 0 then (0, h') else (align_up p align, h')

-- What `kfree` does: it may halt the kernel, or mark a header that is no block's.
pub data FreeResult : Type 0 where
  panic : FreeResult
  strayed : FreeResult
  done : Heap → FreeResult

-- The header that memory shows before `ptr`.
abbrev pub header_addr : ℕ → ℕ
header_addr ptr = (ptr + word - block_header_size) % word

abbrev pub find_block : List Block → ℕ → Option ℕ
find_block bs ptr = find_index (λ b. b.addr == header_addr ptr) bs

abbrev pub count_freed : Heap → Block → List Block → Heap
count_freed h b bs = record h {
  blocks = bs;
  total_freed = (h.total_freed + (b.size + word - block_header_size)) % word;
}

-- `kfree` with the header that it reads, and what comes of marking that header free.
pub free_header : Heap → Block → FreeResult → FreeResult
free_header h b marked =
    if not (b.magic == block_magic) then panic else if b.is_free then done h else marked

-- Where no block of the chain starts before `ptr`, the header that `kfree` reads is whatever stands
-- in memory there, the argument `stray`. To mark it free writes a byte there, which may be one of a
-- header of the chain; the heap is unknown from then on.
pub kfree : Heap → ℕ → Block → FreeResult
unfolding free_header merge_free_blocks
kfree h ptr stray = if ptr == 0 then done h else elim (find_block h.blocks ptr) [
  | none ↦ free_header h stray strayed
  | some i ↦
      let b = block_at h.blocks i in
      free_header h b (done (count_freed h b (merge_free_blocks (modify (mark true) h.blocks i))))
]

pub ksize : Heap → ℕ → Block → ℕ
ksize h ptr stray =
    if ptr == 0
    then 0
    else let b : Block = elim (find_block h.blocks ptr) [
      | none ↦ stray
      | some i ↦ block_at h.blocks i
    ] in
      if not (b.magic == block_magic) then 0 else (b.size + word - block_header_size) % word
