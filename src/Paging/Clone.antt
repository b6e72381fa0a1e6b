-- ===== src/Paging/Clone.antt =====
-- `paging_destroy_directory` and `paging_clone_directory` of src/paging.c.
--
-- The addresses that go to `kfree` are listed in order; the memory of what is freed is left as it is.
use kfs.Prelude.{
  ℕ, zero, suc, ◌+◌, ◌-◌, ◌*◌, ◌%◌, Bool, true, false, ◌&&◌, Option, none, some, List, [], ◌∷◌,
  ◌++◌, ◌==◌, leb, ltb, if◌then◌else◌, bit_or,
}
use kfs.Paging.{Memory, store, write_table, entry, is_present, frame, page_size, paging_alloc_table}

-- The pages of a table from entry `j` on, `n` of them.
unfoldable free_pages : Memory → ℕ → ℕ → ℕ → List ℕ
free_pages mem table zero j = []
free_pages mem table (suc n) j =
    (if is_present (entry mem table j) then frame (entry mem table j) ∷ [] else [])
    ++ free_pages mem table n (j + 1)

-- The tables of a directory from entry `i` on, `n` of them, each after its pages.
unfoldable free_tables : Memory → ℕ → ℕ → ℕ → List ℕ
unfolding free_pages
free_tables mem dir zero i = []
free_tables mem dir (suc n) i =
    (if is_present (entry mem dir i)
      then free_pages mem (frame (entry mem dir i)) 1024 0 ++ (frame (entry mem dir i) ∷ [])
      else [])
    ++ free_tables mem dir n (i + 1)

-- Entries 0 and 1 are the kernel's.
unfoldable pub paging_destroy_directory : Memory → ℕ → List ℕ
unfolding free_tables
paging_destroy_directory mem dir = if dir == 0 then [] else free_tables mem dir 1022 2 ++ (dir ∷ [])

-- `memcpy` of a page.
abbrev pub copy_page : Memory → (to from : ℕ) → Memory
copy_page mem to from =
    λ x. if leb to x && ltb x (to + page_size) then mem (from + (x - to)) else mem x

-- Whether all went well, how many allocations were made so far, and memory.
abbrev pub Cloned : Type 0
Cloned = Bool × ℕ × Memory

-- The `c`-th allocation of the call returns `alloc c`. The entries of a table from `j` on.
unfoldable clone_pages : (ℕ → ℕ) → (src_table dst_table n j c : ℕ) → Memory → Cloned
clone_pages alloc src_table dst_table zero j c mem = (true, c, mem)
clone_pages alloc src_table dst_table (suc n) j c mem =
    let e = entry mem src_table j in
    let absent =
      clone_pages alloc src_table dst_table n (j + 1) c (store mem (dst_table + 4 * j) 0) in
    let copy = copy_page mem (alloc c) (frame e) in
    let copied =
      clone_pages alloc src_table dst_table n (j + 1) (c + 1)
        (store copy (dst_table + 4 * j) (bit_or (alloc c) (entry copy src_table j % page_size))) in
    if is_present e then (if alloc c == 0 then (false, c + 1, mem) else copied) else absent

-- Whether all went well, memory, and what was freed after a failure.
abbrev pub CloneResult : Type 0
CloneResult = Bool × Memory × List ℕ

-- A table whose pages could not all be copied is freed before the directory.
abbrev pub give_up : ℕ → Memory → List ℕ → CloneResult
give_up dst mem tables = (false, mem, tables ++ paging_destroy_directory mem dst)

-- The tables of a directory from entry `i` on, `n` of them.
unfoldable clone_tables : (ℕ → ℕ) → (src dst n i c : ℕ) → Memory → CloneResult
unfolding clone_pages paging_destroy_directory
clone_tables alloc src dst zero i c mem = (true, mem, [])
clone_tables alloc src dst (suc n) i c mem =
    let e = entry mem src i in
    let (all, c', mem') =
      clone_pages alloc (frame e) (alloc c) 1024 0 (c + 1) (paging_alloc_table mem (alloc c)) in
    let next =
      clone_tables alloc src dst n (i + 1) c'
        (store mem' (dst + 4 * i) (bit_or (alloc c) (entry mem' src i % page_size))) in
    let absent = clone_tables alloc src dst n (i + 1) c mem in
    if is_present e
    then (if alloc c == 0
        then give_up dst mem []
        else if all
        then next
        else give_up dst mem' (alloc c ∷ []))
    else absent

-- The new directory, memory, and what was freed. `none` is NULL.
abbrev pub clone_result : ℕ → CloneResult → Option ℕ × Memory × List ℕ
clone_result dst (true, mem, freed) = (some dst, mem, freed)
clone_result dst (false, mem, freed) = (none, mem, freed)

unfoldable pub paging_clone_directory : (ℕ → ℕ) → ℕ → Memory → Option ℕ × Memory × List ℕ
unfolding clone_tables
paging_clone_directory alloc src mem =
    let dst = alloc 0 in
    let clear = write_table mem dst (λ i. 0) in
    let first = store clear dst (entry clear src 0) in
    let second = store first (dst + 4) (entry first src 1) in
    let cloned = clone_tables alloc src dst 1022 2 1 second in
    if src == 0
    then (none, mem, [])
    else if dst == 0
    then (none, mem, [])
    else clone_result dst cloned
