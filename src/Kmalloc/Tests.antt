-- ===== src/Kmalloc/Tests.antt =====
-- Runs of the heap, and the theorems at concrete heaps.
use kfs.Prelude.{ℕ, ◌≡◌, ◌⊎◌, refl, true, false, [], ◌∷◌, arith}
use kfs.Kmalloc.{
  Block, Heap, block_magic, boot_heap, kmalloc, kmalloc_aligned, kfree, ksize, panic, done,
}
use kfs.Kmalloc.Alloc.{IsHeap, kmalloc-IsHeap, NoRoom, Served, kmalloc-Served}
use kfs.Kmalloc.Free.{kfree_used, kfree-kmalloc}
use kfs.Kmalloc.Merge.{Coalesced, live}

abbrev block : ℕ → ℕ → Block
block a n = record { addr = a; size = n; is_free = false; magic = block_magic }

abbrev free_block : ℕ → ℕ → Block
free_block a n = record { addr = a; size = n; is_free = true; magic = block_magic }

-- 100 bytes in use, then the rest of the megabyte.
abbrev used_heap : Heap
used_heap = record {
  blocks = block 0x500000 116 ∷ free_block 0x500074 0xfff8c ∷ [];
  initialized = true;
  total_allocated = 100;
  total_freed = 0;
  num_allocations = 1;
}

abbrev junk : Block
junk = record { addr = 0; size = 0; is_free = false; magic = 0 }

first_allocation : kmalloc boot_heap 98 ≡ (0x500010, used_heap)
unfolding kmalloc
first_allocation = refl

size_of_first : ksize used_heap 0x500010 junk ≡ 100
unfolding ksize
size_of_first = refl

-- The address that `kmalloc_aligned` returns is no block's: `kfree` of it reads other memory.
aligned_free_panics :
    kfree (kmalloc_aligned used_heap 4096 4096).1 (kmalloc_aligned used_heap 4096 4096).0 junk
    ≡ panic
unfolding kfree kmalloc_aligned
aligned_free_panics = refl

used-IsHeap : IsHeap used_heap
used-IsHeap = record { ready = refl; tiled = omega arith }

kmalloc-IsHeap_example : IsHeap (kmalloc used_heap 50).1
kmalloc-IsHeap_example = kmalloc-IsHeap used_heap 50 (omega arith) used-IsHeap

kmalloc-Served_example :
    ((kmalloc used_heap 50 ≡ (0, used_heap)) × NoRoom used_heap 50)
    ⊎ Served used_heap 50 (kmalloc used_heap 50).0 (kmalloc used_heap 50).1
kmalloc-Served_example = kmalloc-Served used_heap 50 (omega arith) (omega arith) used-IsHeap

kfree_used_example :
    (h' : Heap) × (kfree used_heap 0x500010 junk ≡ done h')
    × IsHeap h'
    × Coalesced h'.blocks
    × (live h'.blocks ≡ [])
kfree_used_example = kfree_used used_heap 0x500010 0 junk used-IsHeap refl refl refl

kfree-kmalloc_example :
    (h' : Heap) × (kfree (kmalloc used_heap 50).1 (kmalloc used_heap 50).0 junk ≡ done h')
    × (h'.blocks ≡ used_heap.blocks)
unfolding kmalloc
kfree-kmalloc_example =
    kfree-kmalloc used_heap 50 junk (omega arith) (omega arith) used-IsHeap (refl, (tt, tt))
      (omega arith)
