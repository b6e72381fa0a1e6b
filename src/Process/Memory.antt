-- ===== src/Process/Memory.antt =====
-- `process_mmap`, `process_munmap`, `process_brk` and the system calls of src/process.c that act on the
-- current process.
--
-- `alloc i` is what the `i`-th `kmalloc` of the call returns, `phys` is `paging_get_physical_address`
-- during the call. A result of -1 is `none`.
use kfs.Prelude.{
  ℕ, zero, suc, ◌+◌, ◌-◌, ◌*◌, ◌/◌, ◌%◌, Bool, true, false, ◌||◌, Option, none, some, List, [], ◌∷◌,
  ◌++◌, ◌==◌, ltb, ℤ, minus_one, to_int, if◌then◌else◌,
}
use kfs.Process.{
  Process, Processes, Effect, kfree, map_page, clear_page, unmap_page, word, page_size, at_index,
  change, process_get_current_uid,
}
use kfs.Process.Family.{process_fork, process_wait}

-- `(length + PAGE_SIZE - 1) / PAGE_SIZE`
abbrev pub pages_needed : ℕ → ℕ
pages_needed length = (length + 4095) % word / page_size

-- `addr & ~(PAGE_SIZE - 1)`
abbrev pub page_start : ℕ → ℕ
page_start addr = addr - addr % page_size

abbrev pub page_at : ℕ → ℕ → ℕ
page_at virt i = (virt + i * page_size) % word

-- The pages from number `j` on, `n` of them, freed and unmapped after a failure.
unfoldable cleanup : (ℕ → ℕ) → ℕ → ℕ → ℕ → List Effect
cleanup phys virt zero j = []
cleanup phys virt (suc n) j =
    (if phys (page_at virt j) == 0 then [] else kfree (phys (page_at virt j)) ∷ [])
    ++ (unmap_page (page_at virt j) ∷ cleanup phys virt n (j + 1))

-- The loop over the pages from number `i` on, `n` of them: whether all were allocated, and the effects.
unfoldable pub map_pages :
    (alloc phys : ℕ → ℕ) → (directory virt flags : ℕ) → Bool → (n i : ℕ) → Bool × List Effect
unfolding cleanup
map_pages alloc phys directory virt flags anonymous zero i = (true, [])
map_pages alloc phys directory virt flags anonymous (suc n) i =
    let (all, es) = map_pages alloc phys directory virt flags anonymous n (i + 1) in
    let clear = if anonymous then clear_page (alloc i) ∷ [] else [] in
    if alloc i == 0
    then (false, cleanup phys virt i 0)
    else (all, clear ++ (map_page directory (page_at virt i) (alloc i) flags ∷ es))

-- PAGE_USER, and PAGE_WRITE where PROT_WRITE is asked for.
abbrev pub page_flags : ℕ → ℕ
page_flags prot = if prot / 2 % 2 == 1 then 6 else 4

abbrev pub is_anonymous : ℕ → Bool
is_anonymous flags = flags / 32 % 2 == 1

abbrev pub raise_end : ℕ → Process → Process
raise_end limit p = record p { heap_end = if ltb p.heap_end limit then limit else p.heap_end }

abbrev pub mmap_at :
    Processes
    → ℕ
    → (virt pages prot flags : ℕ) → (alloc phys : ℕ → ℕ) → Option ℕ × Processes × List Effect
mmap_at st i virt pages prot flags alloc phys =
    let (all, es) =
      map_pages alloc phys (at_index st i).page_directory virt (page_flags prot)
        (is_anonymous flags) pages 0 in
    if all
    then (some virt, change st i (raise_end ((virt + pages * page_size) % word)), es)
    else (none, st, es)

unfoldable pub process_mmap :
    Processes
    → Option ℕ
    → (addr length prot flags : ℕ) → (alloc phys : ℕ → ℕ) → Option ℕ × Processes × List Effect
unfolding map_pages
process_mmap st none addr length prot flags alloc phys = (none, st, [])
process_mmap st (some i) addr length prot flags alloc phys =
    let virt = if addr == 0 then (at_index st i).heap_end else page_start addr in
    if length == 0
    then (none, st, [])
    else mmap_at st i virt (pages_needed length) prot flags alloc phys

-- The loop of `process_munmap`.
unfoldable unmap_pages : (ℕ → ℕ) → ℕ → ℕ → ℕ → List Effect
unmap_pages phys virt zero i = []
unmap_pages phys virt (suc n) i =
    (if phys (page_at virt i) == 0
      then []
      else kfree (phys (page_at virt i)) ∷ unmap_page (page_at virt i) ∷ [])
    ++ unmap_pages phys virt n (i + 1)

unfoldable pub process_munmap : Option ℕ → (addr length : ℕ) → (ℕ → ℕ) → Bool × List Effect
unfolding unmap_pages
process_munmap none addr length phys = (false, [])
process_munmap (some i) addr length phys =
    if (addr == 0) || (length == 0)
    then (false, [])
    else (true, unmap_pages phys (page_start addr) (pages_needed length) 0)

-- `(addr + PAGE_SIZE - 1) & ~(PAGE_SIZE - 1)`
abbrev pub new_break : ℕ → ℕ
new_break addr = page_start ((addr + 4095) % word)

abbrev pub grow : Option ℕ × Processes × List Effect → ℕ → Option ℕ × Processes × List Effect
grow (none, st, es) i = (none, st, es)
grow (some virt, st, es) i = (some (at_index st i).heap_end, st, es)

unfoldable pub brk_at :
    Processes → ℕ → ℕ → (alloc phys : ℕ → ℕ) → Option ℕ × Processes × List Effect
unfolding process_mmap process_munmap
brk_at st i brk alloc phys =
    let old = (at_index st i).heap_end in
    if ltb old brk
    then grow (process_mmap st (some i) old (brk - old) 3 0x22 alloc phys) i
    else if ltb brk old
    then (
      some (at_index (change st i (λ p. record p { heap_end = brk })) i).heap_end,
      change st i (λ p. record p { heap_end = brk }),
      (process_munmap (some i) brk (old - brk) phys).1,
    )
    else (some old, st, [])

unfoldable pub process_brk :
    Processes → Option ℕ → ℕ → (alloc phys : ℕ → ℕ) → Option ℕ × Processes × List Effect
unfolding brk_at
process_brk st none addr alloc phys = (none, st, [])
process_brk st (some i) addr alloc phys =
    if addr == 0
    then (some (at_index st i).heap_end, st, [])
    else brk_at st i (new_break addr) alloc phys

abbrev pub sys_mmap :
    Processes
    → (addr length prot flags : ℕ) → (alloc phys : ℕ → ℕ) → Option ℕ × Processes × List Effect
sys_mmap st addr length prot flags alloc phys =
    process_mmap st st.current_process addr length prot flags alloc phys

abbrev pub sys_brk : Processes → ℕ → (alloc phys : ℕ → ℕ) → Option ℕ × Processes × List Effect
sys_brk st addr alloc phys = process_brk st st.current_process addr alloc phys

abbrev fork_result : Option ℕ × Processes × List Effect → ℤ × Processes × List Effect
fork_result (none, st, es) = (minus_one, st, es)
fork_result (some i, st, es) = (to_int (at_index st i).pid, st, es)

abbrev pub sys_fork : Processes → (directory kernel : ℕ) → ℤ × Processes × List Effect
sys_fork st directory kernel = fork_result (process_fork st st.current_process directory kernel)

abbrev pub sys_wait : Processes → ℤ × Option ℤ × Processes
sys_wait st = process_wait st st.current_process

abbrev pub sys_getuid : Processes → ℤ
sys_getuid st = to_int (process_get_current_uid st)
