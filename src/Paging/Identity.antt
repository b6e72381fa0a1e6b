-- ===== src/Paging/Identity.antt =====
-- The directory that `paging_init` of src/paging.c leaves.
use kfs.Prelude.{
  ℕ, ◌+◌, ◌*◌, ◌%◌, ◌<◌, ◌≡◌, ◌≢◌, refl, sym, ap, ◌∙◌, true, false, ◌&&◌, ◌==◌, leb, ltb,
  if◌then◌else◌, arith, Bool-cases, inl, inr, bit_or-page, ◌⊎◌,
}
use kfs.Paging.{
  Memory, Paging, KernelTables, store, write_table, entry, is_present, frame, dir_index,
  table_index, directory_entry, paging_init, paging_get_physical_address, physical_address,
  page_size, page_entries,
}
use kfs.Paging.Fresh.{IsFresh}
use kfs.Paging.Translate.{present_at, table_at, IsSeparate}

-- The linker puts the directory and the tables on three pages.
pub record IsPlaced (k : KernelTables) : Type 0 where
  pub directory_page : k.kernel_directory % 4096 ≡ 0
  pub table_0_page : k.kernel_table_0 % 4096 ≡ 0
  pub table_1_page : k.kernel_table_1 % 4096 ≡ 0
  pub not_table_0 : k.kernel_directory ≢ k.kernel_table_0
  pub not_table_1 : k.kernel_directory ≢ k.kernel_table_1
  pub two_tables : k.kernel_table_0 ≢ k.kernel_table_1

write_table-here :
    (mem : Memory) (b : ℕ) (f : ℕ → ℕ) (i : ℕ) → i < 1024 → entry (write_table mem b f) b i ≡ f i
write_table-here mem b f i h =
    let o : (leb b (b + 4 * i) && ltb (b + 4 * i) (b + 4096)) ≡ true = ground arith in
    rw o (ap f (omega arith))

write_table-other :
    (mem : Memory) (b c : ℕ) (f : ℕ → ℕ) (i : ℕ)
    → b % 4096 ≡ 0
    → c % 4096 ≡ 0
    → c ≢ b
    → i < 1024
    → entry (write_table mem b f) c i ≡ entry mem c i
write_table-other mem b c f i p q n h =
    let o : (leb b (c + 4 * i) && ltb (c + 4 * i) (b + 4096)) ≡ false = ground arith in rw o refl

-- The two entries of a directory at `d` are not in a table at `c`.
store_two-other :
    (mem : Memory) (d c v w i : ℕ)
    → d % 4096 ≡ 0
    → c % 4096 ≡ 0
    → d ≢ c
    → i < 1024
    → entry (store (store mem d v) (d + 4) w) c i ≡ entry mem c i
store_two-other mem d c v w i p q n h =
    let a : (c + 4 * i == d) ≡ false = ground arith in
    let b : (c + 4 * i == d + 4) ≡ false = ground arith in rw (a, b) refl

store_two-here :
    (mem : Memory) (d v w i : ℕ)
    → entry (store (store mem d v) (d + 4) w) d i
      ≡ (if i == 0 then v else if i == 1 then w else entry mem d i)
store_two-here mem d v w i = ground arith

table_entry_present : (table : ℕ) → table % 4096 ≡ 0 → is_present (directory_entry table 0) ≡ true
table_entry_present table a = ground (arith, bit_or-page table 3 a (omega arith))

table_entry_frame : (table : ℕ) → table % 4096 ≡ 0 → frame (directory_entry table 0) ≡ table
table_entry_frame table a = omega (arith, bit_or-page table 3 a (omega arith))

module _ (k : KernelTables) (st : Paging) (placed : IsPlaced k) where
  -- The memory after each loop of the function.
  abbrev directory_clear : Memory
  directory_clear = write_table st.memory k.kernel_directory (λ i. 0)

  abbrev clear : Memory
  clear =
      write_table (write_table directory_clear k.kernel_table_0 (λ i. 0)) k.kernel_table_1 (λ i. 0)

  abbrev entries_0 : ℕ → ℕ
  entries_0 i = i * page_size + 3

  abbrev entries_1 : ℕ → ℕ
  entries_1 i = (page_entries + i) * page_size + 3

  abbrev first : Memory
  first = write_table clear k.kernel_table_0 entries_0

  abbrev second : Memory
  second = write_table first k.kernel_table_1 entries_1

  abbrev after : Memory
  after =
      store (store second k.kernel_directory (directory_entry k.kernel_table_0 0))
        (k.kernel_directory + 4) (directory_entry k.kernel_table_1 0)

  init_memory : (paging_init k st).memory ≡ after
  unfolding paging_init
  init_memory = refl

  other_0 :
      (mem : Memory) (f : ℕ → ℕ) (i : ℕ)
      → i < 1024
      → entry (write_table mem k.kernel_table_0 f) k.kernel_directory i
        ≡ entry mem k.kernel_directory i
  other_0 mem f i h =
      write_table-other mem k.kernel_table_0 k.kernel_directory f i placed.table_0_page
        placed.directory_page placed.not_table_0 h

  other_1 :
      (mem : Memory) (f : ℕ → ℕ) (i : ℕ)
      → i < 1024
      → entry (write_table mem k.kernel_table_1 f) k.kernel_directory i
        ≡ entry mem k.kernel_directory i
  other_1 mem f i h =
      write_table-other mem k.kernel_table_1 k.kernel_directory f i placed.table_1_page
        placed.directory_page placed.not_table_1 h

  second_directory : (i : ℕ) → i < 1024 → entry second k.kernel_directory i ≡ 0
  second_directory i h =
      other_1 first entries_1 i h
      ∙ other_0 clear entries_0 i h
      ∙ other_1 (write_table directory_clear k.kernel_table_0 (λ j. 0)) (λ j. 0) i h
      ∙ other_0 directory_clear (λ j. 0) i h
      ∙ write_table-here st.memory k.kernel_directory (λ j. 0) i h

  directory_after :
      (i : ℕ)
      → i < 1024
      → entry after k.kernel_directory i ≡ (
          if i == 0
          then directory_entry k.kernel_table_0 0
          else if i == 1
          then directory_entry k.kernel_table_1 0
          else 0)
  directory_after i h =
      store_two-here second k.kernel_directory _ _ i ∙ rw (second_directory i h) refl

  table_0_after : (i : ℕ) → i < 1024 → entry after k.kernel_table_0 i ≡ i * 4096 + 3
  table_0_after i h =
      store_two-other second k.kernel_directory k.kernel_table_0 _ _ i placed.directory_page
        placed.table_0_page placed.not_table_0 h
      ∙ write_table-other first k.kernel_table_1 k.kernel_table_0 entries_1 i placed.table_1_page
          placed.table_0_page placed.two_tables h
      ∙ write_table-here clear k.kernel_table_0 entries_0 i h

  table_1_after : (i : ℕ) → i < 1024 → entry after k.kernel_table_1 i ≡ (1024 + i) * 4096 + 3
  table_1_after i h =
      store_two-other second k.kernel_directory k.kernel_table_1 _ _ i placed.directory_page
        placed.table_1_page placed.not_table_1 h
      ∙ write_table-here first k.kernel_table_1 entries_1 i h

  translated :
      (v : ℕ)
      → v < 0x100000000
      → physical_address after k.kernel_directory v ≡ (if ltb v 0x800000 then v else 0)
  unfolding physical_address
  translated v l =
      let d = directory_after (dir_index v) (omega arith) in
      elim (Bool-cases (dir_index v == 0)) [
        | inl z ↦
            rw
              (
                d,
                z,
                table_entry_present k.kernel_table_0 placed.table_0_page,
                table_entry_frame k.kernel_table_0 placed.table_0_page,
                table_0_after (table_index v) (omega arith),
              )
              (ground arith)
        | inr z ↦ elim (Bool-cases (dir_index v == 1)) [
          | inl o ↦
              rw
                (
                  d,
                  z,
                  o,
                  table_entry_present k.kernel_table_1 placed.table_1_page,
                  table_entry_frame k.kernel_table_1 placed.table_1_page,
                  table_1_after (table_index v) (omega arith),
                )
                (ground arith)
          | inr o ↦ rw (d, z, o) (ground arith)
        ]
      ]

-- The only present entries are the first two.
two_entries :
    (k : KernelTables) (st : Paging) (placed : IsPlaced k) (i : ℕ)
    → i < 1024
    → present_at (after k st placed) k.kernel_directory i ≡ true
    → ((i ≡ 0) × (table_at (after k st placed) k.kernel_directory i ≡ k.kernel_table_0))
      ⊎ ((i ≡ 1) × (table_at (after k st placed) k.kernel_directory i ≡ k.kernel_table_1))
two_entries k st placed i h p =
    let d = directory_after k st placed i h in
    elim (Bool-cases (i == 0)) [
      | inl z ↦ inl (
        ground arith,
        ap frame (d ∙ rw z refl) ∙ table_entry_frame k.kernel_table_0 placed.table_0_page,
      )
      | inr z ↦ elim (Bool-cases (i == 1)) [
        | inl o ↦ inr (
          ground arith,
          ap frame (d ∙ rw (z, o) refl) ∙ table_entry_frame k.kernel_table_1 placed.table_1_page,
        )
        | inr o ↦
            let n : entry (after k st placed) k.kernel_directory i ≡ 0 = d ∙ rw (z, o) refl in
            absurd (ground (arith, n))
      ]
    ]

-- The directory that `paging_init` leaves is one the other operations can map pages in.
pub init-IsSeparate :
    (k : KernelTables) (st : Paging)
    → IsPlaced k
    → IsSeparate (paging_init k st).memory (paging_init k st).current_directory
unfolding paging_init
init-IsSeparate k st placed = record {
  aligned = placed.directory_page;
  other = λ i h p. elim (two_entries k st placed i h p) [
    | inl (z, t) ↦ λ e. placed.not_table_0 (sym e ∙ t)
    | inr (z, t) ↦ λ e. placed.not_table_1 (sym e ∙ t)
  ];
  own = λ i j h l p q e. elim (two_entries k st placed i h p) [
    | inl (z, t) ↦ elim (two_entries k st placed j l q) [
      | inl (w, u) ↦ z ∙ sym w
      | inr (w, u) ↦ absurd (placed.two_tables (sym t ∙ (e ∙ u)))
    ]
    | inr (z, t) ↦ elim (two_entries k st placed j l q) [
      | inl (w, u) ↦ absurd (placed.two_tables (sym u ∙ (sym e ∙ t)))
      | inr (w, u) ↦ z ∙ sym w
    ]
  ];
}

-- Any other page is unused there.
pub init-IsFresh :
    (k : KernelTables) (st : Paging) (new : ℕ)
    → IsPlaced k
    → new % 4096 ≡ 0
    → 0 < new
    → new ≢ k.kernel_directory
    → k.kernel_table_0 ≢ new
    → k.kernel_table_1 ≢ new
    → IsFresh (paging_init k st).memory (paging_init k st).current_directory new
unfolding paging_init
init-IsFresh k st new placed a n d t u = record {
  page = a;
  found = n;
  apart = d;
  unused = λ i h p. elim (two_entries k st placed i h p) [
    | inl (_, q) ↦ λ e. t (sym q ∙ e)
    | inr (_, q) ↦ λ e. u (sym q ∙ e)
  ];
}

-- After `paging_init`, if its directory and its two tables are on three pages, the translation of an
-- address below 8 MB is the address, and that of any other is 0.
pub init-identity :
    (k : KernelTables) (st : Paging) (v : ℕ)
    → IsPlaced k
    → v < 0x100000000
    → paging_get_physical_address (paging_init k st) v ≡ (if ltb v 0x800000 then v else 0)
unfolding paging_init
init-identity k st v placed l =
    ap (λ m. physical_address m k.kernel_directory v) (init_memory k st placed)
    ∙ translated k st placed v l
