-- ===== src/Vmalloc/Fresh.antt =====
-- The addresses that src/vmalloc.c hands out while nothing is freed.
use kfs.Prelude.{
  ℕ, ◌+◌, ◌-◌, ◌/◌, ◌%◌, ◌<◌, ◌≤◌, ◌≡◌, refl, ap, ◌∙◌, true, false, Option, none, some, List, [],
  ◌∷◌, ◌++◌, ◌==◌, ltb, leb, All, All-snoc, arith, subst,
}
use kfs.Vmalloc.{
  VmemBlock, Vmem, boot_vmem, free_block, vmalloc, vmalloc_init, allocate, find_free_vmem_block,
  take_block, page_aligned, vmem_size, all_pages,
}

abbrev used_block : (size addr : ℕ) → VmemBlock
used_block size addr = record { size = size; is_free = false; virt_addr = addr; phys_addr = 0 }

abbrev IsUsed : VmemBlock → Type 0
IsUsed b = b.is_free ≡ false

-- The chain has blocks in use and then one free block.
find-tail :
    (us : List VmemBlock) (f a r : ℕ)
    → All IsUsed us
    → r ≤ f
    → find_free_vmem_block (us ++ (free_block f a ∷ [])) r ≡ some (free_block f a)
unfolding find_free_vmem_block
find-tail [] f a r u h = let l : leb r f ≡ true = ground arith in rw l refl
find-tail (b ∷ us) f a r u h = rw u.0 (find-tail us f a r u.1 h)

take-tail :
    (us : List VmemBlock) (f a r : ℕ)
    → All IsUsed us
    → r ≤ f
    → r < vmem_size
    → take_block true r (us ++ (free_block f a ∷ []))
      ≡ (us ++ (used_block r a ∷ [])) ++ (free_block (vmem_size - r) ((a + r) % 0x100000000) ∷ [])
unfolding take_block
take-tail [] f a r u h k =
    let l : leb r f ≡ true = ground arith in
    let m : ltb r vmem_size ≡ true = ground arith in rw (l, m) refl
take-tail (b ∷ us) f a r u h k = simp u.0 (ap (λ bs. b ∷ bs) (take-tail us f a r u.1 h k))

pages_served : (n : ℕ) → all_pages n (λ i. true) ≡ true
unfolding all_pages
pages_served ℕ.zero = refl
pages_served (ℕ.suc n) = pages_served n

-- One call, where all memory that it asks for is there.
abbrev served_call : Vmem → ℕ → Option (Option ℕ × Vmem)
served_call st size = vmalloc st size true (λ i. true) true

record Tail (st : Vmem) (f a : ℕ) : Type 0 where
  busy : List VmemBlock
  chain : st.blocks ≡ busy ++ (free_block f a ∷ [])
  used : All IsUsed busy
  ready : st.initialized ≡ true

init_ready : (st : Vmem) → st.initialized ≡ true → vmalloc_init st true ≡ some st
unfolding vmalloc_init
init_ready st r = rw r refl

served_ready :
    (st : Vmem) (size : ℕ)
    → st.initialized ≡ true
    → 0 < size
    → served_call st size ≡ some (allocate st (page_aligned size) (λ i. true) true)
unfolding vmalloc
served_ready st size r p =
    let z : (size == 0) ≡ false = ground arith in rw (vmalloc, init_ready st r, z) refl

allocate_found :
    (st : Vmem) (r : ℕ) (b : VmemBlock)
    → find_free_vmem_block st.blocks r ≡ some b
    → allocate st r (λ i. true) true ≡ (
      some b.virt_addr,
      record st {
        blocks = take_block true r st.blocks;
        allocated = (st.allocated + r) % 0x100000000;
      },
    )
unfolding allocate
allocate_found st r b e = rw (allocate, e, pages_served (r / 4096)) refl

next-Tail :
    (st : Vmem) (f a size : ℕ)
    → Tail st f a
    → 0 < size
    → page_aligned size ≤ f
    → page_aligned size < vmem_size
    → (st' : Vmem) × (served_call st size ≡ some (some a, st'))
      × Tail st' (vmem_size - page_aligned size) ((a + page_aligned size) % 0x100000000)
next-Tail st f a size v p h k =
    let r = page_aligned size in
    let found : find_free_vmem_block st.blocks r ≡ some (free_block f a) =
      ap (λ bs. find_free_vmem_block bs r) v.chain ∙ find-tail v.busy f a r v.used h in
    (
      _,
      served_ready st size v.ready p ∙ ap some (allocate_found st r (free_block f a) found),
      record {
        busy = v.busy ++ (used_block r a ∷ []);
        chain = ap (take_block true r) v.chain ∙ take-tail v.busy f a r v.used h k;
        used = All-snoc IsUsed v.busy (used_block r a) v.used refl;
        ready = v.ready;
      },
    )

-- Calls one after the other, with what they return; a call that panics or fails ends them.
unfoldable pub served_calls : Vmem → List ℕ → Option (List ℕ)
unfolding vmalloc
served_calls st [] = some []
served_calls st (size ∷ sizes) = elim (served_call st size) [
  | none ↦ none
  | some (none, st') ↦ none
  | some (some a, st') ↦ elim (served_calls st' sizes) [
    | none ↦ none
    | some later ↦ some (a ∷ later)
  ]
]

-- The addresses are those of ranges that follow each other from `a` on, each of whole pages, the fewest
-- that hold its size.
pub Follow : ℕ → (sizes addresses : List ℕ) → Type 0
Follow a [] [] = Unit
Follow a (size ∷ sizes) (address ∷ addresses) =
    (address ≡ a)
    × ((r : ℕ) × (size ≤ r) × (r < size + 4096) × (r % 4096 ≡ 0) × Follow (a + r) sizes addresses)
Follow a _ _ = ⊥

-- A bound on what the ranges take up.
abbrev pub taken : List ℕ → ℕ
taken [] = 0
taken (size ∷ sizes) = (size + 4095) + taken sizes

calls-Tail :
    (st : Vmem) (f a : ℕ) (sizes : List ℕ)
    → Tail st f a
    → 0x8000000 ≤ f
    → All (λ size. 0 < size) sizes
    → taken sizes ≤ 0x100000
    → a + taken sizes < 0x100000000
    → (addresses : List ℕ) × (served_calls st sizes ≡ some addresses) × Follow a sizes addresses
unfolding served_calls Follow
calls-Tail st f a [] v h m k w = ([], refl, tt)
calls-Tail st f a (size ∷ sizes) v h (p, m) k w =
    let r = page_aligned size in
    let small : r ≤ 0x8000000 = omega (arith, p, k) in
    let (st', e, v') = next-Tail st f a size v p (omega (arith, small, h)) (omega (arith, small)) in
    let no_wrap : (a + r) % 0x100000000 ≡ a + r = omega (arith, k, w) in
    let (later, e', follow) =
      calls-Tail st' (vmem_size - r) (a + r) sizes (subst (Tail st' (vmem_size - r)) no_wrap v')
        (omega (arith, small)) m (omega (arith, k)) (omega (arith, k, w)) in
    (
      a ∷ later,
      rw (served_calls, e, e') refl,
      (refl, (r, omega (arith, k), omega (arith, k), omega (arith, k), follow)),
    )

abbrev started : Vmem
started = record boot_vmem { blocks = free_block vmem_size 0x10000000 ∷ []; initialized = true }

first_call : (size : ℕ) → served_call boot_vmem size ≡ served_call started size
unfolding vmalloc vmalloc_init
first_call size = refl

first_calls : (sizes : List ℕ) → served_calls boot_vmem sizes ≡ served_calls started sizes
unfolding served_calls
first_calls [] = refl
first_calls (size ∷ sizes) = rw (served_calls, first_call size) refl

-- From the start, for sizes above 0 that fit into 1 MB with 4095 bytes more each, the size of the heap
-- that gives the pages: while nothing is freed and all memory that is asked for is there, every call of
-- `vmalloc` is served, and the addresses are those of ranges that follow each other from 256 MB on, each
-- of the fewest whole pages that hold its size, so that no two of them meet.
pub fresh-ranges :
    (sizes : List ℕ)
    → All (λ size. 0 < size) sizes
    → taken sizes ≤ 0x100000
    → (addresses : List ℕ) × (served_calls boot_vmem sizes ≡ some addresses)
      × Follow 0x10000000 sizes addresses
fresh-ranges sizes m k =
    let (addresses, e, follow) =
      calls-Tail started vmem_size 0x10000000 sizes
        (record { busy = []; chain = refl; used = tt; ready = refl }) (omega arith) m k
        (omega (arith, k)) in
    (addresses, first_calls sizes ∙ e, follow)
