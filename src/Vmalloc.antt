-- ===== src/Vmalloc.antt =====
-- The virtual memory allocator, src/vmalloc.c.
--
-- The blocks are a list in the order of their chain. What `kmalloc` answers is an argument: whether
-- there is room for the first header, for each page by its number, and for the header of a split. The
-- pages that a call has got when it fails are not given back, and those of a freed block neither.
mod Fresh
mod Merged
mod Tests
use kfs.Prelude.{
  ℕ, zero, suc, ◌+◌, ◌-◌, ◌*◌, ◌/◌, ◌%◌, ◌==◌, Bool, true, false, ◌&&◌, not, Option, none, some,
  List, [], ◌∷◌, leb, ltb, if◌then◌else◌,
}

abbrev pub page_size : ℕ
page_size = 4096

abbrev pub vmem_begin : ℕ
vmem_begin = 0x10000000

abbrev pub vmem_size : ℕ
vmem_size = 0x10000000

pub record VmemBlock : Type 0 where
  pub size : ℕ
  pub is_free : Bool
  pub virt_addr : ℕ
  pub phys_addr : ℕ

pub record Vmem : Type 0 where
  pub blocks : List VmemBlock
  pub initialized : Bool
  pub allocated : ℕ
  pub freed : ℕ

-- Nothing is allocated before the first call.
abbrev pub boot_vmem : Vmem
boot_vmem = record { blocks = []; initialized = false; allocated = 0; freed = 0 }

abbrev pub free_block : (size addr : ℕ) → VmemBlock
free_block size addr = record { size = size; is_free = true; virt_addr = addr; phys_addr = 0 }

-- `none` is a kernel panic.
unfoldable pub vmalloc_init : Vmem → Bool → Option Vmem
vmalloc_init st ok =
    if st.initialized
    then some st
    else if ok
    then some (record st { blocks = free_block vmem_size vmem_begin ∷ []; initialized = true })
    else none

-- Up to a multiple of the page size, modulo 2 ^ 32.
abbrev pub page_aligned : ℕ → ℕ
page_aligned size = (size + 4095) % 0x100000000 / 4096 * 4096

unfoldable pub find_free_vmem_block : List VmemBlock → ℕ → Option VmemBlock
find_free_vmem_block [] size = none
find_free_vmem_block (b ∷ bs) size =
    let rest = find_free_vmem_block bs size in if b.is_free && leb size b.size then some b else rest

-- The header of a split, if there is room for it. Its size is that of the whole range less the size of
-- the block.
abbrev pub split_rest : Bool → (size addr : ℕ) → List VmemBlock → List VmemBlock
split_rest header size addr bs =
    if ltb size vmem_size && header
    then free_block (vmem_size - size) ((addr + size) % 0x100000000) ∷ bs
    else bs

-- The chain after the block that `find_free_vmem_block` finds is taken.
unfoldable pub take_block : Bool → ℕ → List VmemBlock → List VmemBlock
take_block header size [] = []
take_block header size (b ∷ bs) =
    let rest = take_block header size bs in
    if b.is_free && leb size b.size
    then record b { is_free = false; size = size } ∷ split_rest header size b.virt_addr bs
    else b ∷ rest

-- The loop over the pages from `n` down: whether all are allocated.
unfoldable pub all_pages : ℕ → (ℕ → Bool) → Bool
all_pages zero pages = true
all_pages (suc n) pages = pages n && all_pages n pages

unfoldable pub allocate : Vmem → ℕ → (ℕ → Bool) → Bool → Option ℕ × Vmem
unfolding find_free_vmem_block take_block all_pages
allocate st size pages header = elim (find_free_vmem_block st.blocks size) [
  | none ↦ (none, st)
  | some b ↦ if not (all_pages (size / page_size) pages) then (none, st) else (
    some b.virt_addr,
    record st {
      blocks = take_block header size st.blocks;
      allocated = (st.allocated + size) % 0x100000000;
    },
  )
]

-- The address, with the state after the call. The outer `none` is a panic in the first call.
unfoldable pub vmalloc : Vmem → ℕ → Bool → (ℕ → Bool) → Bool → Option (Option ℕ × Vmem)
unfolding vmalloc_init allocate
vmalloc st size ok pages header = elim (vmalloc_init st ok) [
  | none ↦ none
  | some st' ↦
      if size == 0 then some (none, st') else some (allocate st' (page_aligned size) pages header)
]

-- A free block takes the free blocks behind it, from the first block on.
unfoldable pub merge_from : VmemBlock → List VmemBlock → List VmemBlock
merge_from b [] = b ∷ []
merge_from b (c ∷ bs) =
    let merged = merge_from (record b { size = (b.size + c.size) % 0x100000000 }) bs in
    let next = merge_from c bs in if b.is_free && c.is_free then merged else b ∷ next

unfoldable pub merge : List VmemBlock → List VmemBlock
unfolding merge_from
merge [] = []
merge (b ∷ bs) = merge_from b bs

-- The block that is in use at the address, with the chain in which it is free.
unfoldable pub release : ℕ → List VmemBlock → Option (ℕ × List VmemBlock)
release addr [] = none
release addr (b ∷ bs) =
    let rest : Option (ℕ × List VmemBlock) = elim (release addr bs) [
      | none ↦ none
      | some (size, bs') ↦ some (size, b ∷ bs')
    ] in
    if (b.virt_addr == addr) && not b.is_free
    then some (b.size, record b { is_free = true } ∷ bs)
    else rest

-- Another pointer gives a warning.
unfoldable pub vfree : Vmem → ℕ → Vmem
unfolding release merge
vfree st addr = if addr == 0 then st else elim (release addr st.blocks) [
  | none ↦ st
  | some (size, bs) ↦ record st { blocks = merge bs; freed = (st.freed + size) % 0x100000000 }
]

unfoldable size_at : ℕ → List VmemBlock → ℕ
size_at addr [] = 0
size_at addr (b ∷ bs) = let rest = size_at addr bs in if b.virt_addr == addr then b.size else rest

unfoldable pub vsize : Vmem → ℕ → ℕ
unfolding size_at
vsize st addr = if addr == 0 then 0 else size_at addr st.blocks
