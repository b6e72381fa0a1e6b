-- ===== src/Vmalloc/Tests.antt =====
-- Runs of the virtual memory allocator, and the theorems at concrete input.
use kfs.Prelude.{ℕ, ◌≡◌, ◌⊎◌, refl, true, Option, none, some, List, [], ◌∷◌, arith}
use kfs.Vmalloc.{Vmem, boot_vmem, vmalloc, vfree, vsize}
use kfs.Vmalloc.Fresh.{fresh-ranges, served_calls, Follow}
use kfs.Vmalloc.Merged.{vfree-released, in_use, without, Separated}

-- The state after a call that has all memory it asks for.
abbrev after : Option (Option ℕ × Vmem) → Vmem
after none = boot_vmem
after (some (a, st)) = st

abbrev call : Vmem → ℕ → Vmem
call st size = after (vmalloc st size true (λ i. true) true)

abbrev two : Vmem
two = call (call boot_vmem 4096) 4096

-- The first of two ranges is freed and allocated again: the next call returns the second, which is still
-- in use.
abbrev reused : Vmem
reused = call (vfree two 0x10000000) 4096

second_range : in_use two.blocks ≡ (0x10000000, 4096) ∷ (0x10001000, 4096) ∷ []
unfolding vmalloc in_use
second_range = refl

overlap :
    in_use (call reused 4096).blocks
    ≡ (0x10000000, 4096) ∷ (0x10001000, 4096) ∷ (0x10001000, 4096) ∷ []
unfolding vmalloc vfree in_use
overlap = refl

-- A size near 2 ^ 32 becomes 0, and is served.
zero_pages : in_use (call boot_vmem 0xfffff001).blocks ≡ (0x10000000, 0) ∷ []
unfolding vmalloc in_use
zero_pages = refl

size_back : vsize two 0x10001000 ≡ 4096
unfolding vmalloc vsize
size_back = refl

fresh-ranges_example :
    (addresses : List ℕ) × (served_calls boot_vmem (1 ∷ 8192 ∷ 4097 ∷ []) ≡ some addresses)
    × Follow 0x10000000 (1 ∷ 8192 ∷ 4097 ∷ []) addresses
fresh-ranges_example =
    fresh-ranges (1 ∷ 8192 ∷ 4097 ∷ []) (omega arith, (omega arith, (omega arith, tt)))
      (omega arith)

vfree-released_example :
    (in_use (vfree two 0x10000000).blocks ≡ without 0x10000000 (in_use two.blocks))
    × ((vfree two 0x10000000 ≡ two) ⊎ Separated (vfree two 0x10000000).blocks)
vfree-released_example = vfree-released two 0x10000000 (omega arith)
