-- ===== src/Interrupts/Masks.antt =====
-- The masks of src/pic.c.
use kfs.Prelude.{
  ℕ, zero, suc, ◌-◌, ◌<◌, ◌≡◌, refl, ap, ap₂, sym, ◌∙◌, Bool, true, false, inl, inr, List, [], ◌∷◌,
  ◌++◌, ltb, length, set, replicate, take, drop, take_all, drop_all, take-append, drop-append, ◌≤◌,
  arith, Bool-cases,
}
use kfs.Interrupts.Pic.{
  Pic, put_bit, pic_mask_irq, pic_unmask_irq, pic_get_mask, pic_set_mask, pic_disable_all,
}

-- Both masks have eight bits.
pub record IsPic (st : Pic) : Type 0 where
  pub master_bits : length st.master ≡ 8
  pub slave_bits : length st.slave ≡ 8

set-append_first :
    (xs ys : List Bool) (i : ℕ) (b : Bool) → i < length xs → set (xs ++ ys) i b ≡ set xs i b ++ ys
set-append_first [] ys i b h = elim h [ ]
set-append_first (x ∷ xs) ys zero b h = refl
set-append_first (x ∷ xs) ys (suc i) b h =
    ap (λ r. x ∷ r) (set-append_first xs ys i b (omega arith))

set-append_second :
    (xs ys : List Bool) (i : ℕ) (b : Bool)
    → length xs ≤ i
    → set (xs ++ ys) i b ≡ xs ++ set ys (i - length xs) b
set-append_second [] ys i b h = let e : i ≡ i - 0 = omega arith in ap (λ k. set ys k b) e
set-append_second (x ∷ xs) ys zero b h = absurd (omega arith)
set-append_second (x ∷ xs) ys (suc i) b h =
    let e : i - length xs ≡ suc i - suc (length xs) = omega arith in
    ap (λ r. x ∷ r) (set-append_second xs ys i b (omega arith) ∙ ap (λ k. xs ++ set ys k b) e)

put_bit-get :
    (st : Pic) (irq : ℕ) (b : Bool)
    → IsPic st
    → pic_get_mask (put_bit st irq b) ≡ set (pic_get_mask st) irq b
unfolding pic_get_mask
put_bit-get st irq b v = elim (Bool-cases (ltb irq 8)) [
  | inl l ↦ rw l (sym (set-append_first st.master st.slave irq b (ground (arith, v.master_bits))))
  | inr l ↦ rw l (
      sym (
        set-append_second st.master st.slave irq b (ground (arith, v.master_bits))
        ∙ rw v.master_bits refl))
]

all_disabled : (st : Pic) → pic_get_mask (pic_disable_all st) ≡ replicate 16 true
unfolding pic_get_mask pic_disable_all
all_disabled st = refl

mask_back : (st other : Pic) → IsPic st → pic_set_mask other (pic_get_mask st) ≡ st
unfolding pic_set_mask pic_get_mask
mask_back st other v =
    let first : take 8 (st.master ++ st.slave) ≡ st.master =
      take-append 8 st.master st.slave (omega (arith, v.master_bits))
      ∙ take_all 8 st.master (omega (arith, v.master_bits)) in
    let second : drop 8 (st.master ++ st.slave) ≡ st.slave =
      drop-append 8 st.master st.slave (omega (arith, v.master_bits))
      ∙ ap (λ l. l ++ st.slave) (drop_all 8 st.master (omega (arith, v.master_bits))) in
    ap₂ (λ m s. record { master = m; slave = s }) first
      (ap (take 8) second ∙ take_all 8 st.slave (omega (arith, v.slave_bits)))

-- On controllers whose masks have eight bits each, the mask of sixteen bits that `pic_get_mask` returns
-- is the one before with bit `irq` set by `pic_mask_irq` and cleared by `pic_unmask_irq`, whichever
-- controller the interrupt belongs to; after `pic_disable_all` all its bits are set; and `pic_set_mask`
-- puts back any mask that was read, over whatever came between.
pub masks_are_one :
    (st other : Pic) (irq : ℕ)
    → IsPic st
    → (pic_get_mask (pic_mask_irq st irq) ≡ set (pic_get_mask st) irq true)
      × (pic_get_mask (pic_unmask_irq st irq) ≡ set (pic_get_mask st) irq false)
      × (pic_get_mask (pic_disable_all st) ≡ replicate 16 true)
      × (pic_set_mask other (pic_get_mask st) ≡ st)
unfolding pic_mask_irq pic_unmask_irq
masks_are_one st other irq v =
    (put_bit-get st irq true v, put_bit-get st irq false v, all_disabled st, mask_back st other v)
