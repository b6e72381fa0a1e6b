-- ===== src/Paging/Translate.antt =====
-- How src/paging.c changes what `paging_get_physical_address` finds.
use kfs.Prelude.{
  ℕ, ◌+◌, ◌*◌, ◌/◌, ◌%◌, ◌<◌, ◌≡◌, ◌≢◌, refl, sym, ap, ◌∙◌, Bool, true, false, ◌==◌, if◌then◌else◌,
  arith, Bool-cases, inl, inr,
}
use kfs.Paging.{Memory, store, entry, is_present, frame, dir_index, table_index, physical_address}

abbrev pub present_at : Memory → ℕ → ℕ → Bool
present_at mem dir i = is_present (entry mem dir i)

abbrev pub table_at : Memory → ℕ → ℕ → ℕ
table_at mem dir i = frame (entry mem dir i)

-- The tables of the directory at `dir` are pages other than it, and no two of its entries share one.
pub record IsSeparate (mem : Memory) (dir : ℕ) : Type 0 where
  pub aligned : dir % 4096 ≡ 0
  pub other : (i : ℕ) → i < 1024 → present_at mem dir i ≡ true → table_at mem dir i ≢ dir
  pub own :
      (i j : ℕ)
      → i < 1024
      → j < 1024
      → present_at mem dir i ≡ true
      → present_at mem dir j ≡ true
      → table_at mem dir i ≡ table_at mem dir j
      → i ≡ j

-- The two addresses are on one page.
abbrev pub same_page : ℕ → ℕ → Bool
same_page v w = v / 4096 == w / 4096

page_parts :
    (v w : ℕ) → dir_index v ≡ dir_index w → table_index v ≡ table_index w → v / 4096 ≡ w / 4096
page_parts v w d t = omega arith

-- A store of `val` into the entry of a present table for `virt`.
module _ (mem : Memory) (dir virt val : ℕ) (sep : IsSeparate mem dir) (small : virt < 0x100000000)
    (there : present_at mem dir (dir_index virt) ≡ true) where
  abbrev at : ℕ
  at = table_at mem dir (dir_index virt) + 4 * table_index virt

  -- The directory is as before.
  directory_same : (i : ℕ) → i < 1024 → entry (store mem at val) dir i ≡ entry mem dir i
  directory_same i h =
      let o = sep.other (dir_index virt) (omega arith) there in
      let e : (dir + 4 * i == at) ≡ false = ground (arith, sep.aligned) in rw e refl

  -- The entry that the translation of another address reads.
  table_same :
      (v : ℕ)
      → v < 0x100000000
      → present_at mem dir (dir_index v) ≡ true
      → entry (store mem at val) (table_at mem dir (dir_index v)) (table_index v) ≡ (
          if same_page v virt
          then val
          else entry mem (table_at mem dir (dir_index v)) (table_index v))
  table_same v l p = elim (Bool-cases (same_page v virt)) [
    | inl s ↦
        let d : dir_index v ≡ dir_index virt = ground arith in
        let t : table_index v ≡ table_index virt = ground arith in
        let q : table_at mem dir (dir_index v) + 4 * table_index v ≡ at =
          ap (λ k. table_at mem dir k + 4 * table_index v) d
          ∙ ap (λ k. table_at mem dir (dir_index virt) + 4 * k) t in
        let e : (table_at mem dir (dir_index v) + 4 * table_index v == at) ≡ true =
          ground (arith, q) in
        rw (s, e) refl
    | inr s ↦ elim (Bool-cases (table_at mem dir (dir_index v) + 4 * table_index v == at)) [
      | inl q ↦
          let b : table_at mem dir (dir_index v) ≡ table_at mem dir (dir_index virt) =
            ground arith in
          let t : table_index v ≡ table_index virt = ground arith in
          let d = sep.own (dir_index v) (dir_index virt) (omega arith) (omega arith) p there b in
          absurd (ground (arith, page_parts v virt d t))
      | inr q ↦ rw (s, q) refl
    ]
  ]

  -- An address whose table is absent is on another page.
  other_page : (v : ℕ) → present_at mem dir (dir_index v) ≡ false → same_page v virt ≡ false
  other_page v p = elim (Bool-cases (same_page v virt)) [
    | inl s ↦
        let d : dir_index v ≡ dir_index virt = ground arith in
        absurd (ground (arith, ap (present_at mem dir) d))
    | inr s ↦ s
  ]

  -- What the translation finds after the store.
  pub store-address :
      (v : ℕ)
      → v < 0x100000000
      → physical_address (store mem at val) dir v ≡ (
          if same_page v virt
          then (if is_present val then frame val + v % 4096 else 0)
          else physical_address mem dir v)
  unfolding physical_address
  store-address v l = elim (Bool-cases (present_at mem dir (dir_index v))) [
    | inl p ↦ elim (Bool-cases (same_page v virt)) [
      | inl s ↦ rw (directory_same (dir_index v) (omega arith), p, table_same v l p, s) refl
      | inr s ↦ rw (directory_same (dir_index v) (omega arith), p, table_same v l p, s) refl
    ]
    | inr p ↦ let s = other_page v p in rw (directory_same (dir_index v) (omega arith), p, s) refl
  ]

  pub store-IsSeparate : IsSeparate (store mem at val) dir
  store-IsSeparate = record {
    aligned = sep.aligned;
    other = λ i h p. λ e. sep.other i h (sym (same i h).0 ∙ p) (sym (same i h).1 ∙ e);
    own = λ i j h k p q e.
        sep.own i j h k (sym (same i h).0 ∙ p) (sym (same j k).0 ∙ q)
          (sym (same i h).1 ∙ (e ∙ (same j k).1));
  }
    where
      same :
          (i : ℕ)
          → i < 1024
          → (present_at (store mem at val) dir i ≡ present_at mem dir i)
            × (table_at (store mem at val) dir i ≡ table_at mem dir i)
      same i h = (ap is_present (directory_same i h), ap frame (directory_same i h))
