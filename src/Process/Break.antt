-- ===== src/Process/Break.antt =====
-- What `process_brk` of src/process.c makes of the end of the heap.
use kfs.Prelude.{
  ℕ, zero, suc, ◌+◌, ◌-◌, ◌*◌, ◌%◌, ◌<◌, ◌≤◌, ◌≡◌, refl, ap, ◌∙◌, Bool, true, false, Option, some,
  List, ◌==◌, ltb, length, get_or-modify_self, arith, Bool-cases, inl, inr,
}
use kfs.Process.{Processes, Effect, word, page_size, zero_process, at_index, change}
use kfs.Process.Memory.{
  map_pages, process_mmap, process_brk, brk_at, grow, pages_needed, page_start, new_break,
  raise_end,
}

-- Every `kmalloc` of the call finds room.
abbrev pub Room : (ℕ → ℕ) → Type 0
Room alloc = (k : ℕ) → (alloc k == 0) ≡ false

map_pages-all :
    (alloc phys : ℕ → ℕ) (directory virt flags : ℕ) (anonymous : Bool) (n i : ℕ)
    → Room alloc
    → (map_pages alloc phys directory virt flags anonymous n i).0 ≡ true
unfolding map_pages
map_pages-all alloc phys d v f a zero i r = refl
map_pages-all alloc phys d v f a (suc n) i r =
    rw (r i) (map_pages-all alloc phys d v f a n (i + 1) r)

-- The result and the end of the heap of the process in slot `i`.
abbrev Break : ℕ → ℕ → Option ℕ × Processes × List Effect → Type 0
Break i brk (r, st, es) = (r ≡ some brk) × ((at_index st i).heap_end ≡ brk)

module _ (st : Processes) (i brk : ℕ) (alloc phys : ℕ → ℕ) where
  abbrev old : ℕ
  old = (at_index st i).heap_end

  grown :
      i < length st.table
      → old % page_size ≡ 0
      → 0 < old
      → old < brk
      → brk % page_size ≡ 0
      → brk < word
      → Room alloc
      → Break i brk (grow (process_mmap st (some i) old (brk - old) 3 0x22 alloc phys) i)
  unfolding process_mmap
  grown inside aligned set up whole small room =
      let z : (old == 0) ≡ false = ground arith in
      let l : (brk - old == 0) ≡ false = ground arith in
      let s : page_start old ≡ old = omega arith in
      let e : (old + pages_needed (brk - old) * page_size) % word ≡ brk = omega arith in
      let a =
        map_pages-all alloc phys (at_index st i).page_directory old 6 true
          (pages_needed (brk - old)) 0 room in
      let u : ltb old brk ≡ true = ground arith in
      let h : (at_index (change st i (raise_end brk)) i).heap_end ≡ brk =
        ap (λ p. p.heap_end) (get_or-modify_self (raise_end brk) st.table i zero_process inside)
        ∙ rw u refl in
      rw (z, process_mmap, l, s, a, e) (ap some h, h)

  brk_at-Break :
      i < length st.table
      → old % page_size ≡ 0
      → 0 < old
      → brk % page_size ≡ 0
      → brk < word
      → Room alloc
      → Break i brk (brk_at st i brk alloc phys)
  unfolding brk_at
  brk_at-Break inside aligned set whole small room = elim (Bool-cases (ltb old brk)) [
    | inl u ↦ rw u (grown inside aligned set (ground arith) whole small room)
    | inr u ↦ elim (Bool-cases (ltb brk old)) [
      | inl d ↦
          let h : (at_index (change st i (λ p. record p { heap_end = brk })) i).heap_end ≡ brk =
            ap (λ p. p.heap_end)
              (get_or-modify_self (λ p. record p { heap_end = brk }) st.table i zero_process
                inside) in
          rw (u, d) (ap some h, h)
      | inr d ↦ let e : old ≡ brk = ground arith in rw (u, d) (ap some e, e)
    ]
  ]

-- If the heap of a process ends at a page boundary other than 0 and every allocation finds room,
-- `process_brk` with a nonzero address that does not wrap when it is rounded up returns the first page
-- boundary at or above the address, and the heap then ends there, grown or shrunk.
brk_rounds :
    (st : Processes) (i addr : ℕ) (alloc phys : ℕ → ℕ)
    → i < length st.table
    → (at_index st i).heap_end % page_size ≡ 0
    → 0 < (at_index st i).heap_end
    → 0 < addr
    → addr + 4095 < word
    → Room alloc
    → let (r, st', es) = process_brk st (some i) addr alloc phys in
      (brk : ℕ) × (brk % page_size ≡ 0)
      × (addr ≤ brk)
      × (brk < addr + page_size)
      × (r ≡ some brk)
      × ((at_index st' i).heap_end ≡ brk)
unfolding process_brk
brk_rounds st i addr alloc phys inside aligned set given small room =
    let z : (addr == 0) ≡ false = ground arith in
    let b =
      brk_at-Break st i (new_break addr) alloc phys inside aligned set (omega arith) (omega arith)
        room in
    rw (z, process_brk) (new_break addr, omega arith, omega arith, omega arith, b.0, b.1)
