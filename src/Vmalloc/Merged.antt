-- ===== src/Vmalloc/Merged.antt =====
-- The chain after `vfree` of src/vmalloc.c.
use kfs.Prelude.{
  ℕ, ◌+◌, ◌%◌, ◌≡◌, ◌≢◌, ◌⊎◌, subst, refl, ap, sym, ◌∙◌, true, false, ◌&&◌, not, inl, inr, Option,
  none, some, List, [], ◌∷◌, ◌==◌, if◌then◌else◌, arith, Bool-cases, Option-cases,
}
use kfs.Vmalloc.{VmemBlock, Vmem, merge_from, merge, release, vfree}

-- No two neighbours are both free.
unfoldable pub Separated : List VmemBlock → Type 0
Separated [] = Unit
Separated (b ∷ []) = Unit
Separated (b ∷ c ∷ bs) = ((b.is_free && c.is_free) ≡ false) × Separated (c ∷ bs)

-- The address and the size of each block in use, in the order of the chain.
unfoldable pub in_use : List VmemBlock → List (ℕ × ℕ)
in_use [] = []
in_use (b ∷ bs) = let rest = in_use bs in if b.is_free then rest else (b.virt_addr, b.size) ∷ rest

-- Without the first entry of an address.
unfoldable pub without : ℕ → List (ℕ × ℕ) → List (ℕ × ℕ)
without addr [] = []
without addr ((a, size) ∷ us) =
    let rest = without addr us in if a == addr then us else (a, size) ∷ rest

-- What a merged chain is: a first block with the same flag, and neighbours that are not both free.
record Begins (b : VmemBlock) (bs : List VmemBlock) : Type 0 where
  first : VmemBlock
  later : List VmemBlock
  same : bs ≡ first ∷ later
  flag : first.is_free ≡ b.is_free
  parted : Separated (first ∷ later)

kept_block :
    (b c : VmemBlock) (bs : List VmemBlock)
    → (b.is_free && c.is_free) ≡ false
    → Begins c bs
    → Begins b (b ∷ bs)
unfolding Separated
kept_block b c bs n v = record {
  first = b;
  later = v.first ∷ v.later;
  same = ap (λ l. b ∷ l) v.same;
  flag = refl;
  parted = (rw v.flag n, v.parted);
}

merge_from-Begins : (b : VmemBlock) (bs : List VmemBlock) → Begins b (merge_from b bs)
unfolding merge_from Separated
merge_from-Begins b [] = record { first = b; later = []; same = refl; flag = refl; parted = tt }
merge_from-Begins b (c ∷ bs) = elim (Bool-cases (b.is_free && c.is_free)) [
  | inl e ↦
      let v = merge_from-Begins (record b { size = (b.size + c.size) % 0x100000000 }) bs in
      rw e (record {
        first = v.first;
        later = v.later;
        same = v.same;
        flag = v.flag;
        parted = v.parted;
      })
  | inr e ↦ rw e (kept_block b c _ e (merge_from-Begins c bs))
]

merge_from_used : (b : VmemBlock) (bs : List VmemBlock) → in_use (merge_from b bs) ≡ in_use (b ∷ bs)
unfolding merge_from in_use
merge_from_used b [] = refl
merge_from_used b (c ∷ bs) = elim (Bool-cases (b.is_free && c.is_free)) [
  | inl e ↦
      let f : b.is_free ≡ true = ground (arith, e) in
      let g : c.is_free ≡ true = ground (arith, e) in
      rw e
        (merge_from_used (record b { size = (b.size + c.size) % 0x100000000 }) bs ∙ rw (f, g) refl)
  | inr e ↦
      rw e (ap (λ l. if b.is_free then l else (b.virt_addr, b.size) ∷ l) (merge_from_used c bs))
]

merge_used : (bs : List VmemBlock) → in_use (merge bs) ≡ in_use bs
unfolding merge
merge_used [] = refl
merge_used (b ∷ bs) = merge_from_used b bs

merge-Separated : (bs : List VmemBlock) → Separated (merge bs)
unfolding merge Separated
merge-Separated [] = tt
merge-Separated (b ∷ bs) = let v = merge_from-Begins b bs in subst Separated (sym v.same) v.parted

-- The blocks in use after the search: those before without the one at the address.
abbrev used_after : Option (ℕ × List VmemBlock) → List VmemBlock → List (ℕ × ℕ)
used_after none bs = in_use bs
used_after (some (size, bs')) bs = in_use bs'

used_after-cons :
    (b : VmemBlock) (o : Option (ℕ × List VmemBlock)) (bs : List VmemBlock)
    → used_after
        (elim o as (λ x. Option (ℕ × List VmemBlock)) [
          | none ↦ none
          | some (size, bs') ↦ some (size, b ∷ bs')
        ])
        (b ∷ bs)
      ≡ (if b.is_free then used_after o bs else (b.virt_addr, b.size) ∷ used_after o bs)
unfolding in_use
used_after-cons b none bs = refl
used_after-cons b (some (size, bs')) bs = refl

release_used :
    (addr : ℕ) (bs : List VmemBlock) → used_after (release addr bs) bs ≡ without addr (in_use bs)
unfolding release in_use without
release_used addr [] = refl
release_used addr (b ∷ bs) = elim (Bool-cases b.is_free) [
  | inl f ↦
      let n : ((b.virt_addr == addr) && not b.is_free) ≡ false = ground (arith, f) in
      rw n (used_after-cons b (release addr bs) bs ∙ rw f (release_used addr bs))
  | inr f ↦ elim (Bool-cases (b.virt_addr == addr)) [
    | inl e ↦ rw (f, e) refl
    | inr e ↦
        simp (f, e)
          (used_after-cons b (release addr bs) bs
            ∙ rw f (ap (λ l. (b.virt_addr, b.size) ∷ l) (release_used addr bs)))
  ]
]

-- `vfree` of an address other than NULL takes the first block in use there out of those in use, and no
-- other, none if no block in use is there; it then changes nothing, or leaves no two neighbours free.
pub vfree-released :
    (st : Vmem) (addr : ℕ)
    → addr ≢ 0
    → (in_use (vfree st addr).blocks ≡ without addr (in_use st.blocks))
      × ((vfree st addr ≡ st) ⊎ Separated (vfree st addr).blocks)
unfolding vfree
vfree-released st addr n =
    let z : (addr == 0) ≡ false = ground (arith, n) in
    let used = release_used addr st.blocks in
    elim (Option-cases (release addr st.blocks)) [
      | inl e ↦ rw (z, e) (rw e at used, inl refl)
      | inr (r, e) ↦ rw (z, e) (merge_used r.1 ∙ (rw e at used), inr (merge-Separated r.1))
    ]
