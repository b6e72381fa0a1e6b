-- ===== src/Vfs/Reading.antt =====
-- Reads of a virtual file of src/vfs.c.
use kfs.Prelude.{
  ℕ, ◌+◌, ◌-◌, ◌%◌, ◌≤◌, ◌<◌, ◌≡◌, sym, ap, ◌∙◌, true, false, some, List, [], ◌∷◌, ◌++◌, leb, ltb,
  length, length-append, length-take, take_all, take, drop, drop_all, length-drop, drop-append,
  take-append, take_nil, pos, arith, Bool-cases, inl, inr,
}
use kfs.Vfs.{Node, file_data, vfs_virtual_read}

-- The part of a stored content before its end mark.
stored_part :
    (content : List ℕ) (offset k : ℕ)
    → offset ≤ length content
    → k ≤ length content - offset
    → take k (drop offset (content ++ (0 ∷ []))) ≡ take k (drop offset content)
stored_part content offset k h l =
    ap (take k) (drop-append offset content (0 ∷ []) h)
    ∙ take-append k (drop offset content) (0 ∷ []) (omega (arith, length-drop offset content))

-- A read whose end does not reach 2 ^ 32 stores the bytes of the content from `offset` on, `size` of
-- them or as many as there are, and returns their number.
pub read-content :
    (n : Node) (content : List ℕ) (offset size : ℕ)
    → n.inode ≡ file_data content
    → offset + size < 0x100000000
    → vfs_virtual_read n offset size true
      ≡ some (pos (length (take size (drop offset content))), take size (drop offset content))
unfolding vfs_virtual_read
read-content n content offset size e h = elim (Bool-cases (leb (length content) offset)) [
  | inl p ↦
      rw (e, p, drop_all offset content (ground arith))
        (ap (λ t. some (pos (length t), t)) (sym (take_nil size)))
  | inr p ↦ elim (Bool-cases (ltb (length content) ((offset + size) % 0x100000000))) [
    | inl o ↦
        let whole : take size (drop offset content) ≡ drop offset content =
          take_all size (drop offset content) (ground (arith, length-drop offset content)) in
        let part =
          stored_part content offset (length content - offset) (ground arith) (omega arith)
          ∙ take_all (length content - offset) (drop offset content)
              (omega (arith, length-drop offset content)) in
        rw (e, p, o, fits_store (length content - offset) (ground arith) (omega arith), part, whole)
          (ap (λ k. some (pos k, drop offset content)) (sym (length-drop offset content)))
    | inr o ↦
        let within : size ≤ length content - offset = ground arith in
        rw
          (
            e,
            p,
            o,
            fits_store size (ground arith) within,
            stored_part content offset size (ground arith) within,
          )
          (ap (λ k. some (pos k, take size (drop offset content)))
            (omega
              (arith, within, length-drop offset content, length-take size (drop offset content))))
  ]
]
  where
    fits_store :
        (k : ℕ)
        → offset ≤ length content
        → k ≤ length content - offset
        → ltb (length (drop offset (content ++ (0 ∷ [])))) k ≡ false
    fits_store k a l =
        ground (arith, length-drop offset (content ++ (0 ∷ [])), length-append content (0 ∷ []))
