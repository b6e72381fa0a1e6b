-- ===== src/Paging/Fresh.antt =====
-- A new page table in a directory, as `paging_map_page_in_directory` of src/paging.c puts it there.
use kfs.Prelude.{
  ℕ, ◌+◌, ◌-◌, ◌*◌, ◌%◌, ◌<◌, ◌≡◌, ◌≢◌, refl, sym, ap, ◌∙◌, true, false, ◌&&◌, ◌==◌, leb, ltb,
  if◌then◌else◌, arith, Bool-cases, inl, inr, bit_or-page, ◌⊎◌,
}
use kfs.Paging.{
  Memory, store, write_table, entry, is_present, frame, dir_index, table_index, directory_entry,
  physical_address,
}
use kfs.Paging.Translate.{present_at, table_at, IsSeparate}

-- A page that the directory does not use.
pub record IsFresh (mem : Memory) (dir new : ℕ) : Type 0 where
  pub page : new % 4096 ≡ 0
  pub found : 0 < new
  pub apart : new ≢ dir
  pub unused : (i : ℕ) → i < 1024 → present_at mem dir i ≡ true → table_at mem dir i ≢ new

module _ (mem : Memory) (dir new di flags : ℕ) (sep : IsSeparate mem dir)
    (fresh : IsFresh mem dir new) (in_directory : di < 1024) (low : flags < 4096)
    (absent : present_at mem dir di ≡ false) where
  abbrev e' : ℕ
  e' = directory_entry new flags

  abbrev pub added : Memory
  added = store (write_table mem new (λ i. 0)) (dir + 4 * di) e'

  entry_sum : e' ≡ new + (flags - flags % 4 + 3)
  entry_sum = bit_or-page new (flags - flags % 4 + 3) fresh.page (omega arith)

  pub entry_present : is_present e' ≡ true
  entry_present = ground (arith, entry_sum, fresh.page)

  pub entry_frame : frame e' ≡ new
  entry_frame = omega (arith, entry_sum, fresh.page)

  directory_added :
      (i : ℕ) → i < 1024 → entry added dir i ≡ (if i == di then e' else entry mem dir i)
  directory_added i h = elim (Bool-cases (i == di)) [
    | inl s ↦ let q : (dir + 4 * i == dir + 4 * di) ≡ true = ground arith in rw (q, s) refl
    | inr s ↦
        let q : (dir + 4 * i == dir + 4 * di) ≡ false = ground arith in
        let o : (leb new (dir + 4 * i) && ltb (dir + 4 * i) (new + 4096)) ≡ false =
          ground (arith, sep.aligned, fresh.page, fresh.apart) in
        rw (q, s, o) refl
  ]

  other_added :
      (t j : ℕ) → t % 4096 ≡ 0 → t ≢ dir → t ≢ new → j < 1024 → entry added t j ≡ entry mem t j
  other_added t j a d n h =
      let q : (t + 4 * j == dir + 4 * di) ≡ false = ground (arith, sep.aligned) in
      let o : (leb new (t + 4 * j) && ltb (t + 4 * j) (new + 4096)) ≡ false =
        ground (arith, fresh.page) in
      rw (q, o) refl

  new_added : (j : ℕ) → j < 1024 → entry added new j ≡ 0
  new_added j h =
      let q : (new + 4 * j == dir + 4 * di) ≡ false =
        ground (arith, sep.aligned, fresh.page, fresh.apart) in
      let o : (leb new (new + 4 * j) && ltb (new + 4 * j) (new + 4096)) ≡ true = ground arith in
      rw (q, o) refl

  pub here_added : entry added dir di ≡ e'
  here_added =
      let s : (di == di) ≡ true = ground arith in directory_added di in_directory ∙ rw s refl

  pub present_added : present_at added dir di ≡ true
  present_added = ap is_present here_added ∙ entry_present

  -- An entry of the directory is the new one, or one from before.
  before :
      (i : ℕ)
      → i < 1024
      → present_at added dir i ≡ true
      → ((i ≡ di) × (table_at added dir i ≡ new))
        ⊎ ((i ≢ di) × (present_at mem dir i ≡ true) × (table_at added dir i ≡ table_at mem dir i))
  before i h p = elim (Bool-cases (i == di)) [
    | inl s ↦ inl (ground arith, rw (directory_added i h, s) entry_frame)
    | inr s ↦
        let d : entry added dir i ≡ entry mem dir i = directory_added i h ∙ rw s refl in
        inr (ground arith, ap is_present (sym d) ∙ p, ap frame d)
  ]

  pub added-IsSeparate : IsSeparate added dir
  added-IsSeparate = record {
    aligned = sep.aligned;
    other = λ i h p. elim (before i h p) [
      | inl (s, t) ↦ λ e. fresh.apart (sym t ∙ e)
      | inr (s, q, t) ↦ λ e. sep.other i h q (sym t ∙ e)
    ];
    own = λ i j h k p q e. elim (before i h p) [
      | inl (s, t) ↦ elim (before j k q) [
        | inl (s', t') ↦ s ∙ sym s'
        | inr (s', q', t') ↦ absurd (fresh.unused j k q' (sym t' ∙ (sym e ∙ t)))
      ]
      | inr (s, p', t) ↦ elim (before j k q) [
        | inl (s', t') ↦ absurd (fresh.unused i h p' (sym t ∙ (e ∙ t')))
        | inr (s', q', t') ↦ sep.own i j h k p' q' (sym t ∙ (e ∙ t'))
      ]
    ];
  }

  -- An empty table changes no translation.
  pub added-address :
      (v : ℕ) → v < 0x100000000 → physical_address added dir v ≡ physical_address mem dir v
  unfolding physical_address
  added-address v l = elim (Bool-cases (dir_index v == di)) [
    | inl s ↦
        let a : present_at mem dir (dir_index v) ≡ false =
          ap (present_at mem dir) (ground arith) ∙ absent in
        let d : entry added dir (dir_index v) ≡ e' =
          directory_added (dir_index v) (omega arith) ∙ rw s refl in
        rw (d, entry_present, entry_frame, new_added (table_index v) (omega arith), a) refl
    | inr s ↦
        let d : entry added dir (dir_index v) ≡ entry mem dir (dir_index v) =
          directory_added (dir_index v) (omega arith) ∙ rw s refl in
        elim (Bool-cases (present_at mem dir (dir_index v))) [
          | inl p ↦
              let t =
                other_added (table_at mem dir (dir_index v)) (table_index v) (omega arith)
                  (sep.other (dir_index v) (omega arith) p)
                  (fresh.unused (dir_index v) (omega arith) p) (omega arith) in
              rw (d, p, t) refl
          | inr p ↦ rw (d, p) refl
        ]
  ]
