-- ===== src/Kmalloc/Merge.antt =====
-- `merge_free_blocks` of src/kmalloc.c: what it joins and what it leaves alone.
use kfs.Prelude.{
  ℕ, ◌+◌, ◌-◌, ◌%◌, ◌≤◌, ◌≡◌, ◌∙◌, refl, ap, zero, suc, true, false, ◌&&◌, some, List, [], ◌∷◌, leb,
  if◌then◌else◌, get_elem?, modify, arith, Bool-cases, inl, inr,
}
use kfs.Kmalloc.{Block, word, split_block, merge_from, merge_free_blocks, mark}

-- Block `b` and the first of `bs` are not both free.
abbrev pub Apart : Block → List Block → Type 0
Apart b [] = Unit
Apart b (c ∷ bs) = (b.is_free && c.is_free) ≡ false

-- No two neighbours are both free.
abbrev pub Coalesced : List Block → Type 0
Coalesced [] = Unit
Coalesced (b ∷ bs) = Apart b bs × Coalesced bs

-- The blocks in use.
abbrev pub live : List Block → List Block
live [] = []
live (b ∷ bs) = if b.is_free then live bs else b ∷ live bs

merge_from_idle :
    (b : Block) (bs : List Block) → Apart b bs → merge_from b bs ≡ b ∷ merge_free_blocks bs
unfolding merge_from merge_free_blocks
merge_from_idle b [] h = refl
merge_from_idle b (c ∷ bs) h = rw (h, merge_from)

-- A chain with no two free neighbours is left as it is.
merge_idle : (bs : List Block) → Coalesced bs → merge_free_blocks bs ≡ bs
merge_idle [] h = merge_nil
  where
    merge_nil : merge_free_blocks [] ≡ []
    merge_nil = unfold merge_free_blocks in refl
merge_idle (b ∷ bs) h = first ∙ (merge_from_idle b bs h.0 ∙ ap (λ r. b ∷ r) (merge_idle bs h.1))
  where
    first : merge_free_blocks (b ∷ bs) ≡ merge_from b bs
    first = unfold merge_free_blocks in refl

merge_from-Apart :
    (bs : List Block) (x b : Block) → (x.is_free && b.is_free) ≡ false → Apart x (merge_from b bs)
unfolding merge_from
merge_from-Apart [] x b h = h
merge_from-Apart (c ∷ bs) x b h = elim (Bool-cases (b.is_free && c.is_free)) [
  | inl e ↦ rw (e, merge_from) (merge_from-Apart bs x (record b { size = b.size + c.size }) h)
  | inr e ↦ rw (e, merge_from) h
]

merge_from-Coalesced : (bs : List Block) (b : Block) → Coalesced (merge_from b bs)
unfolding merge_from
merge_from-Coalesced [] b = (tt, tt)
merge_from-Coalesced (c ∷ bs) b = elim (Bool-cases (b.is_free && c.is_free)) [
  | inl e ↦ rw (e, merge_from) (merge_from-Coalesced bs (record b { size = b.size + c.size }))
  | inr e ↦ rw (e, merge_from) (merge_from-Apart bs b c e, merge_from-Coalesced bs c)
]

-- After a merge no two neighbours are both free.
pub merge-Coalesced : (bs : List Block) → Coalesced (merge_free_blocks bs)
unfolding merge_free_blocks
merge-Coalesced [] = tt
merge-Coalesced (b ∷ bs) = merge_from-Coalesced bs b

live-merge_from : (bs : List Block) (b : Block) → live (merge_from b bs) ≡ live (b ∷ bs)
unfolding merge_from
live-merge_from [] b = refl
live-merge_from (c ∷ bs) b = elim (Bool-cases (b.is_free && c.is_free)) [
  | inl e ↦
      rw (e, merge_from) (ground (arith, live-merge_from bs (record b { size = b.size + c.size })))
  | inr e ↦ rw (e, merge_from) (ground (arith, live-merge_from bs c))
]

-- A merge leaves every block in use where and as it is.
pub live-merge : (bs : List Block) → live (merge_free_blocks bs) ≡ live bs
unfolding merge_free_blocks
live-merge [] = refl
live-merge (b ∷ bs) = live-merge_from bs b

-- The chain after block `i` was split, taken and marked free again.
abbrev pub carve : List Block → ℕ → ℕ → List Block
carve bs i size = modify (mark true) (modify (mark false) (split_block bs i size) i) i

carve-Apart :
    (bs : List Block) (x : Block) (i size : ℕ) {b : Block}
    → get_elem? bs i ≡ some b
    → b.is_free ≡ true
    → Apart x bs
    → Apart x (carve bs i size)
unfolding split_block
carve-Apart [] x i size g f h = h
carve-Apart (y ∷ bs) x zero size g f h = elim (Bool-cases (leb ((size + 16 + 16) % word) y.size)) [
  | inl e ↦ ground (arith, e)
  | inr e ↦ ground (arith, e)
]
carve-Apart (y ∷ bs) x (suc i) size g f h = h

merge_split :
    (x : Block) (bs : List Block) (size : ℕ)
    → x.is_free ≡ true
    → size ≤ x.size
    → Coalesced (x ∷ bs)
    → merge_free_blocks (carve (x ∷ bs) 0 size) ≡ x ∷ bs
unfolding split_block merge_free_blocks
merge_split x bs size f l h = elim (Bool-cases (leb ((size + 16 + 16) % word) x.size)) [
  | inl e ↦ rw e (ap (λ z. merge_from z bs) whole ∙ rest)
  | inr e ↦ rw e (ap (λ z. merge_from z bs) freed ∙ rest)
]
  where
    whole : record x { size = size + (x.size - size); is_free = true } ≡ x
    whole = ground arith

    freed : record x { is_free = true } ≡ x
    freed = ground arith

    rest : merge_from x bs ≡ x ∷ bs
    rest = merge_from_idle x bs h.0 ∙ ap (λ r. x ∷ r) (merge_idle bs h.1)

-- Freeing what was just taken and merging gives the chain back.
pub merge-carve :
    (bs : List Block) (i size : ℕ) {b : Block}
    → get_elem? bs i ≡ some b
    → b.is_free ≡ true
    → size ≤ b.size
    → Coalesced bs
    → merge_free_blocks (carve bs i size) ≡ bs
merge-carve [] i size g f l h = absurd (cc)
merge-carve (x ∷ bs) zero size g f l h = merge_split x bs size (ground arith) (ground arith) h
merge-carve (x ∷ bs) (suc i) size g f l h =
    step
    ∙ (merge_from_idle x (carve bs i size) (carve-Apart bs x i size g f h.0)
        ∙ ap (λ r. x ∷ r) (merge-carve bs i size g f l h.1))
  where
    step : merge_free_blocks (carve (x ∷ bs) (suc i) size) ≡ merge_from x (carve bs i size)
    step = unfold split_block merge_free_blocks in refl
