-- ===== src/Kmalloc/Tiling.antt =====
-- The blocks of the heap of src/kmalloc.c lie side by side and fill it.
use kfs.Prelude.{
  ℕ, ◌+◌, ◌-◌, ◌%◌, ◌<◌, ◌≤◌, ◌≡◌, refl, zero, suc, Bool, true, ◌&&◌, some, List, [], ◌∷◌, leb,
  ◌==◌, find_index, get_elem?, modify, arith, Bool-cases, inl, inr, find_index-cons_miss,
}
use kfs.Kmalloc.{
  Block, block_magic, block_header_size, word, split_block, merge_from, merge_free_blocks, mark,
}

-- The blocks cover the addresses from `a` to `e` without gap or overlap, each with its header, a
-- size that is a multiple of 4, and the magic number.
abbrev pub Tiles : ℕ → ℕ → List Block → Type 0
Tiles a e [] = a ≡ e
Tiles a e (b ∷ bs) =
    (b.addr ≡ a)
    × (block_header_size ≤ b.size)
    × (b.size % 4 ≡ 0)
    × (b.magic ≡ block_magic)
    × Tiles (a + b.size) e bs

Tiles-le : (a e : ℕ) (bs : List Block) → Tiles a e bs → a ≤ e
Tiles-le a e [] t = omega arith
Tiles-le a e (b ∷ bs) t = omega (arith, Tiles-le (a + b.size) e bs t.4)

-- Where a block of the chain lies, and what its header holds.
pub record InHeap (a e : ℕ) (b : Block) : Type 0 where
  pub from : a ≤ b.addr
  pub upto : b.addr + b.size ≤ e
  pub header : block_header_size ≤ b.size
  pub aligned : b.size % 4 ≡ 0
  pub marked : b.magic ≡ block_magic

pub block-InHeap :
    (a e : ℕ) (bs : List Block) (i : ℕ) {b : Block}
    → Tiles a e bs
    → get_elem? bs i ≡ some b
    → InHeap a e b
block-InHeap a e [] i t g = absurd (cc)
block-InHeap a e (x ∷ bs) zero t g = ground (arith, Tiles-le (a + x.size) e bs t.4)
block-InHeap a e (x ∷ bs) (suc i) t g =
    let r = block-InHeap (a + x.size) e bs i t.4 g in omega (arith, r, t)

-- Addresses of blocks are multiples of 4 if the heap starts at one.
pub block-addr_aligned :
    (a e : ℕ) (bs : List Block) (i : ℕ) {b : Block}
    → a % 4 ≡ 0
    → Tiles a e bs
    → get_elem? bs i ≡ some b
    → b.addr % 4 ≡ 0
block-addr_aligned a e [] i h t g = absurd (cc)
block-addr_aligned a e (x ∷ bs) zero h t g = ground arith
block-addr_aligned a e (x ∷ bs) (suc i) h t g =
    block-addr_aligned (a + x.size) e bs i (omega (arith, t)) t.4 g

-- The address of a block leads back to its position.
pub find-addr :
    (a e : ℕ) (bs : List Block) (i k : ℕ) {b : Block}
    → Tiles a e bs
    → get_elem? bs i ≡ some b
    → k ≡ b.addr
    → find_index (λ c. c.addr == k) bs ≡ some i
find-addr a e [] i k t g h = absurd (cc)
find-addr a e (x ∷ bs) zero k t g h = ground arith
find-addr a e (x ∷ bs) (suc i) k {b} t g h =
    find_index-cons_miss (λ c. c.addr == k) x bs i
      (let r = block-InHeap (a + x.size) e bs i t.4 g in ground (arith, r, t, h))
      (find-addr (a + x.size) e bs i k t.4 g h)

-- The two halves of a split block tile what it tiled.
halves-Tiles :
    (a e size : ℕ) (x : Block) (bs : List Block)
    → e < word
    → block_header_size ≤ size
    → size % 4 ≡ 0
    → size + 32 ≤ x.size
    → Tiles a e (x ∷ bs)
    → Tiles a e (
        record x { size = size }
        ∷ record {
          addr = (x.addr + size) % word;
          size = x.size - size;
          is_free = true;
          magic = block_magic;
        }
        ∷ bs)
halves-Tiles a e size x bs he hs hm hx t =
    let top : a + x.size ≤ e = Tiles-le (a + x.size) e bs t.4 in
    let same : a + size + (x.size - size) ≡ a + x.size = omega arith in
    (t.0, hs, hm, t.3, (omega (arith, t, top), omega arith, omega (arith, t), refl, rw same t.4))

-- Splitting keeps the tiling.
pub split-Tiles :
    (a e : ℕ) (bs : List Block) (i size : ℕ) {b : Block}
    → e < word
    → block_header_size ≤ size
    → size % 4 ≡ 0
    → size ≤ b.size
    → size + 32 < word
    → get_elem? bs i ≡ some b
    → Tiles a e bs
    → Tiles a e (split_block bs i size)
unfolding split_block
split-Tiles a e [] i size he hs hm hb hw g t = t
split-Tiles a e (x ∷ bs) zero size he hs hm hb hw g t =
    elim (Bool-cases (leb ((size + 16 + 16) % word) x.size)) [
      | inl h ↦ rw h (halves-Tiles a e size x bs he hs hm (ground arith) t)
      | inr h ↦ rw h t
    ]
split-Tiles a e (x ∷ bs) (suc i) size he hs hm hb hw g t =
    (t.0, t.1, t.2, t.3, split-Tiles (a + x.size) e bs i size he hs hm hb hw g t.4)

-- Marking a block leaves the tiling alone.
pub mark-Tiles :
    (f : Bool) (a e : ℕ) (bs : List Block) (i : ℕ) → Tiles a e bs → Tiles a e (modify (mark f) bs i)
mark-Tiles f a e [] i t = t
mark-Tiles f a e (x ∷ bs) zero t = t
mark-Tiles f a e (x ∷ bs) (suc i) t = (t.0, t.1, t.2, t.3, mark-Tiles f (a + x.size) e bs i t.4)

-- Two neighbours joined tile what they tiled.
joined-Tiles :
    (a e : ℕ) (b c : Block) (bs : List Block)
    → Tiles a e (b ∷ c ∷ bs)
    → Tiles a e (record b { size = b.size + c.size } ∷ bs)
joined-Tiles a e b c bs t =
    let same : a + (b.size + c.size) ≡ a + b.size + c.size = omega arith in
    (t.0, omega (arith, t), omega (arith, t), t.3, rw same t.4.4)

merge_from-Tiles :
    (bs : List Block) (a e : ℕ) (b : Block) → Tiles a e (b ∷ bs) → Tiles a e (merge_from b bs)
unfolding merge_from
merge_from-Tiles [] a e b t = t
merge_from-Tiles (c ∷ bs) a e b t = elim (Bool-cases (b.is_free && c.is_free)) [
  | inl h ↦
      rw (h, merge_from)
        (merge_from-Tiles bs a e (record b { size = b.size + c.size }) (joined-Tiles a e b c bs t))
  | inr h ↦ rw (h, merge_from) (t.0, t.1, t.2, t.3, merge_from-Tiles bs (a + b.size) e c t.4)
]

pub merge-Tiles : (a e : ℕ) (bs : List Block) → Tiles a e bs → Tiles a e (merge_free_blocks bs)
unfolding merge_free_blocks
merge-Tiles a e [] t = t
merge-Tiles a e (b ∷ bs) t = merge_from-Tiles bs a e b t
