-- ===== src/Paging/Mapped.antt =====
-- `paging_map_page`, `paging_unmap_page` and `paging_map_page_in_directory` of src/paging.c against the
-- translation of addresses.
use kfs.Prelude.{
  ℕ, ◌+◌, ◌*◌, ◌%◌, ◌<◌, ◌≡◌, refl, sym, ap, ◌∙◌, true, false, none, some, ◌==◌, if◌then◌else◌,
  arith, Bool-cases, inl, inr,
}
use kfs.Paging.{
  Memory, Paging, store, entry, is_present, frame, dir_index, table_index, page_entry,
  paging_map_page, physical_address, paging_map_page_in_directory, directory_entry,
}
use kfs.Paging.Translate.{
  present_at, table_at, IsSeparate, same_page, store-address, store-IsSeparate,
}
use kfs.Paging.Fresh.{IsFresh, added, added-IsSeparate, added-address, present_added, here_added}

is_present-page_entry : (phys flags : ℕ) → is_present (page_entry phys flags) ≡ true
is_present-page_entry phys flags = ground arith

frame-page_entry : (phys flags : ℕ) → frame (page_entry phys flags) ≡ frame phys
frame-page_entry phys flags = omega arith

-- The translation once the page of `virt` is mapped to that of `phys`, and no other changed.
abbrev pub Mapped : Memory → Memory → (dir virt phys : ℕ) → Type 0
Mapped mem mem' dir virt phys =
    (v : ℕ)
    → v < 0x100000000
    → physical_address mem' dir v
      ≡ (if same_page v virt then frame phys + v % 4096 else physical_address mem dir v)

-- The entry for a page in a table that is present.
store-Mapped :
    (mem : Memory) (dir virt phys flags : ℕ)
    → IsSeparate mem dir
    → virt < 0x100000000
    → present_at mem dir (dir_index virt) ≡ true
    → Mapped mem
        (store mem
          (table_at mem dir (dir_index virt) + 4 * table_index virt)
          (page_entry phys flags))
        dir
        virt
        phys
store-Mapped mem dir virt phys flags sep small there v l =
    store-address mem dir virt (page_entry phys flags) sep small there v l
    ∙ rw (is_present-page_entry phys flags, frame-page_entry phys flags) refl

-- In a directory, not NULL, whose tables are separate pages, a page number below 2 ^ 20 and flags below 4096,
-- `paging_map_page_in_directory` maps exactly that page: every address on it is translated into the
-- page of `phys_addr` with its own offset, every other address as before, and the tables stay
-- separate pages. If the page's table is absent this holds if the allocator finds a page that the
-- directory does not use.
pub map-Mapped :
    (mem : Memory) (dir virt phys flags new : ℕ)
    → IsSeparate mem dir
    → 0 < dir
    → virt < 0x100000000
    → flags < 4096
    → (present_at mem dir (dir_index virt) ≡ false → IsFresh mem dir new)
    → (mem' : Memory) × (paging_map_page_in_directory mem dir virt phys flags new ≡ some mem')
      × Mapped mem mem' dir virt phys
      × IsSeparate mem' dir
unfolding paging_map_page_in_directory
map-Mapped mem dir virt phys flags new sep given small low free =
    let z : (dir == 0) ≡ false = ground arith in
    elim (Bool-cases (present_at mem dir (dir_index virt))) [
      | inl p ↦ (
        _,
        rw (z, p) refl,
        store-Mapped mem dir virt phys flags sep small p,
        store-IsSeparate mem dir virt (page_entry phys flags) sep small p,
      )
      | inr p ↦
          let f = free p in
          let di = dir_index virt in
          let inside : di < 1024 = omega arith in
          let n : (new == 0) ≡ false = ground (arith, f.found) in
          let mem1 = added mem dir new di flags sep f inside low p in
          let entries =
            λ (e : ℕ). store mem1 (frame e + 4 * table_index virt) (page_entry phys flags) in
          let here : entry mem1 dir di ≡ directory_entry new flags =
            here_added mem dir new di flags sep f inside low p in
          let there = present_added mem dir new di flags sep f inside low p in
          let apart = added-IsSeparate mem dir new di flags sep f inside low p in
          (
            entries (entry mem1 dir di),
            rw (z, p, n) (ap (λ e. some (entries e)) (sym here)),
            λ v l.
                store-Mapped mem1 dir virt phys flags apart small there v l
                ∙ ap (λ a. if same_page v virt then frame phys + v % 4096 else a)
                    (added-address mem dir new di flags sep f inside low p v l),
            store-IsSeparate mem1 dir virt (page_entry phys flags) apart small there,
          )
    ]

-- `paging_map_page` maps exactly the page in the current directory, and halts if its table is absent.
map_page-Mapped :
    (st : Paging) (virt phys flags : ℕ)
    → IsSeparate st.memory st.current_directory
    → virt < 0x100000000
    → (present_at st.memory st.current_directory (dir_index virt) ≡ false
        → paging_map_page st virt phys flags ≡ none)
      × (present_at st.memory st.current_directory (dir_index virt) ≡ true
          → (st' : Paging) × (paging_map_page st virt phys flags ≡ some st')
            × Mapped st.memory st'.memory st.current_directory virt phys
            × (st'.current_directory ≡ st.current_directory))
unfolding paging_map_page
map_page-Mapped st virt phys flags sep small = (
  λ p. rw p refl,
  λ p. (
    record st {
      memory =
          store st.memory
            (table_at st.memory st.current_directory (dir_index virt) + 4 * table_index virt)
            (page_entry phys flags);
    },
    rw p refl,
    store-Mapped st.memory st.current_directory virt phys flags sep small p,
    refl,
  ),
)
