-- ===== src/Ext2/FileBlocks.antt =====
-- The blocks of a file of src/ext2.c one after the other.
use kfs.Prelude.{
  ℕ, zero, suc, ◌+◌, ◌*◌, ◌≡◌, refl, ap, ◌∙◌, List, [], ◌∷◌, ◌++◌, length, length-append, drop,
  arith,
}
use native.Mathlib.Nat.{suc-mul}

-- The blocks of a file from block `i` on, `n` of them, where block `k` has the bytes `content k`.
unfoldable pub file_blocks : (ℕ → List ℕ) → (n i : ℕ) → List ℕ
file_blocks content zero i = []
file_blocks content (suc n) i = content i ++ file_blocks content n (i + 1)

drop-add : (a b : ℕ) (xs ys : List ℕ) → length xs ≡ a → drop (a + b) (xs ++ ys) ≡ drop b ys
drop-add a b [] ys h = ap (λ k. drop k ys) (omega arith)
drop-add a b (x ∷ xs) ys h =
    let longer : a + b ≡ suc (length xs + b) = omega (arith, h) in
    ap (λ k. drop k (x ∷ (xs ++ ys))) longer ∙ drop-add (length xs) b xs ys refl

pub drop-file_blocks :
    (content : ℕ → List ℕ) (bs k n i at : ℕ)
    → ((j : ℕ) → length (content j) ≡ bs)
    → drop (k * bs + at) (file_blocks content (k + n) i) ≡ drop at (file_blocks content n (i + k))
unfolding file_blocks
drop-file_blocks content bs zero n i at h =
    let from : 0 * bs + at ≡ at = omega arith in
    let number : 0 + n ≡ n = omega arith in
    let first : i ≡ i + 0 = omega arith in
    ap (λ k. drop k (file_blocks content (0 + n) i)) from
    ∙ ap (λ k. drop at (file_blocks content k i)) number
    ∙ ap (λ k. drop at (file_blocks content n k)) first
drop-file_blocks content bs (suc k) n i at h =
    let from : suc k * bs + at ≡ bs + (k * bs + at) = omega (arith, suc-mul k bs) in
    let number : suc k + n ≡ suc (k + n) = omega arith in
    let first : i + 1 + k ≡ i + suc k = omega arith in
    ap (λ m. drop m (file_blocks content (suc k + n) i)) from
    ∙ ap (λ m. drop (bs + (k * bs + at)) (file_blocks content m i)) number
    ∙ drop-add bs (k * bs + at) (content i) (file_blocks content (k + n) (i + 1)) (h i)
    ∙ drop-file_blocks content bs k n (i + 1) at h
    ∙ ap (λ m. drop at (file_blocks content n m)) first

pub length-file_blocks :
    (content : ℕ → List ℕ) (bs n i : ℕ)
    → ((j : ℕ) → length (content j) ≡ bs)
    → length (file_blocks content n i) ≡ n * bs
unfolding file_blocks
length-file_blocks content bs zero i h = omega arith
length-file_blocks content bs (suc n) i h = omega (
  arith,
  length-append (content i) (file_blocks content n (i + 1)),
  h i,
  suc-mul n bs,
  length-file_blocks content bs n (i + 1) h,
)
