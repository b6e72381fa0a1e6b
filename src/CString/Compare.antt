-- ===== src/CString/Compare.antt =====
-- `strlen`, `strcmp`, `strncmp` and `strchr` of src/string.c against the texts in memory.
use kfs.Prelude.{
  ℕ, zero, suc, ◌≡◌, ◌≢◌, ◌↔◌, refl, ap, ap₂, ◌∙◌, Option, none, some, List, [], ◌∷◌, ◌++◌, ◌==◌, ℤ,
  pos, arith, Bool-cases, inl, inr, sym, subst, some-injective, if◌then◌else◌, length, take, All,
}
use mathlib.Core.Option
use kfs.CString.{strlen, strcmp, strncmp, strchr, byte_sub}

-- A text has no zero byte.
abbrev pub IsText : List ℕ → Type 0
IsText = All (λ c. c ≢ 0)

-- A text in memory, with its end mark and what follows.
abbrev pub stored : List ℕ → List ℕ → List ℕ
stored t rest = t ++ (0 ∷ rest)

-- `strlen` of a stored text is its length.
strlen-stored : (t rest : List ℕ) → IsText t → strlen (stored t rest) ≡ some (length t)
unfolding strlen
strlen-stored [] rest h = refl
strlen-stored (c ∷ t) rest h = ground (arith, strlen-stored t rest h.1)

-- The first bytes in which two texts differ, with the end mark for the shorter; or both ends.
pub order : List ℕ → List ℕ → ℤ
order [] [] = pos 0
order [] (b ∷ u) = byte_sub 0 b
order (a ∷ t) [] = byte_sub a 0
order (a ∷ t) (b ∷ u) = let rest = order t u in if a == b then rest else byte_sub a b

strcmp-order :
    (t u r s : List ℕ) → IsText t → IsText u → strcmp (stored t r) (stored u s) ≡ some (order t u)
unfolding strcmp order
strcmp-order [] [] r s h g = refl
strcmp-order [] (b ∷ u) r s h g = refl
strcmp-order (a ∷ t) [] r s h g = ground arith
strcmp-order (a ∷ t) (b ∷ u) r s h g = ground (arith, strcmp-order t u r s h.1 g.1)

order-zero : (t u : List ℕ) → IsText t → IsText u → order t u ≡ pos 0 → t ≡ u
unfolding order
order-zero [] [] h g e = refl
order-zero [] (b ∷ u) h g e = absurd (ground arith)
order-zero (a ∷ t) [] h g e = absurd (ground arith)
order-zero (a ∷ t) (b ∷ u) h g e = elim (Bool-cases (a == b)) [
  | inl q ↦ ap₂ ◌∷◌ (ground arith) (order-zero t u h.1 g.1 (ground arith))
  | inr q ↦ absurd (ground arith)
]

order_self : (t : List ℕ) → order t t ≡ pos 0
unfolding order
order_self [] = refl
order_self (a ∷ t) = ground (arith, order_self t)

-- `strcmp` of two stored texts is 0 exactly when the texts are equal.
strcmp-zero_iff :
    (t u r s : List ℕ)
    → IsText t
    → IsText u
    → (strcmp (stored t r) (stored u s) ≡ some (pos 0)) ↔ (t ≡ u)
strcmp-zero_iff t u r s h g = (
  λ e. order-zero t u h g (some-injective (order t u) (pos 0) (sym (strcmp-order t u r s h g) ∙ e)),
  λ e. strcmp-order t u r s h g ∙ ap some (subst (λ v. order t v ≡ pos 0) e (order_self t)),
)

-- `strncmp` of two stored texts is what `strcmp` is of their first `n` bytes.
strncmp-strcmp :
    (t u r s : List ℕ) (n : ℕ)
    → IsText t
    → IsText u
    → strncmp (stored t r) (stored u s) n ≡ strcmp (stored (take n t) r) (stored (take n u) s)
unfolding strncmp strcmp
strncmp-strcmp t u r s zero h g = refl
strncmp-strcmp [] [] r s (suc n) h g = refl
strncmp-strcmp [] (b ∷ u) r s (suc n) h g = refl
strncmp-strcmp (a ∷ t) [] r s (suc n) h g = ground arith
strncmp-strcmp (a ∷ t) (b ∷ u) r s (suc n) h g = ground (arith, strncmp-strcmp t u r s n h.1 g.1)

-- The place of the first `c` in a text.
pub place : List ℕ → ℕ → Option ℕ
place [] c = none
place (a ∷ t) c = let rest = place t c in if a == c then some 0 else Option.map suc rest

-- `strchr` for a byte other than 0 finds its first place in a stored text, and NULL if it has none;
-- for 0 it finds the end mark.
strchr-place :
    (t rest : List ℕ) (c : ℕ)
    → IsText t
    → strchr (stored t rest) c ≡ (if c == 0 then some (some (length t)) else some (place t c))
unfolding strchr place
strchr-place [] rest c h = ground arith
strchr-place (a ∷ t) rest c h = ground (arith, strchr-place t rest c h.1)
