-- ===== src/CString/Copy.antt =====
-- `strcpy`, `strncpy`, `memcpy` and `memset` of src/string.c: what they write and where they stop.
use kfs.Prelude.{
  ℕ, zero, suc, ◌-◌, ◌%◌, ◌≤◌, ◌≡◌, refl, false, none, some, List, [], ◌∷◌, ◌++◌, ◌==◌, ltb, arith,
  if◌then◌else◌, length, take, drop, replicate,
}
use kfs.CString.{strcpy, strncpy, memcpy, memset}
use kfs.CString.Compare.{IsText, stored}

-- `strcpy` of a stored text into an array that is longer than the text writes the text and its end
-- mark and leaves the rest; into any other array it writes past the end.
strcpy-stored :
    (dest t rest : List ℕ)
    → IsText t
    → strcpy dest (stored t rest) ≡ (
        if ltb (length t) (length dest) then some (stored t (drop (suc (length t)) dest)) else none)
unfolding strcpy
strcpy-stored [] [] rest h = refl
strcpy-stored [] (c ∷ t) rest h = ground arith
strcpy-stored (d ∷ dest) [] rest h = ground arith
strcpy-stored (d ∷ dest) (c ∷ t) rest h = ground (arith, strcpy-stored dest t rest h.1)

-- `memset` fills the first `num` bytes with the value modulo 256.
memset_lem :
    (p : List ℕ) (value num : ℕ)
    → num ≤ length p
    → memset p value num ≡ some (replicate num (value % 256) ++ drop num p)
unfolding memset
memset_lem p value zero h = refl
memset_lem [] value (suc num) h = absurd (omega arith)
memset_lem (x ∷ p) value (suc num) h = rw (memset_lem p value num (omega arith))

-- `memcpy` copies exactly the first `num` bytes.
memcpy_lem :
    (dest src : List ℕ) (num : ℕ)
    → num ≤ length dest
    → num ≤ length src
    → memcpy dest src num ≡ some (take num src ++ drop num dest)
unfolding memcpy
memcpy_lem dest src zero h g = refl
memcpy_lem [] src (suc num) h g = absurd (omega arith)
memcpy_lem (d ∷ dest) [] (suc num) h g = absurd (omega arith)
memcpy_lem (d ∷ dest) (c ∷ src) (suc num) h g =
    rw (memcpy_lem dest src num (omega arith) (omega arith))

-- `strncpy` into at least `n` bytes writes the first `n` bytes of the text and fills up to `n` with
-- zeros. A text of `n` bytes or more gets no end mark.
strncpy-stored :
    (dest t rest : List ℕ) (n : ℕ)
    → IsText t
    → n ≤ length dest
    → strncpy dest (stored t rest) n
      ≡ some (take n t ++ (replicate (n - length t) 0 ++ drop n dest))
unfolding strncpy
strncpy-stored dest [] rest zero h g = refl
strncpy-stored dest (c ∷ t) rest zero h g = let e : 0 - suc (length t) ≡ 0 = omega arith in rw e
strncpy-stored [] t rest (suc n) h g = absurd (omega arith)
strncpy-stored (d ∷ dest) [] rest (suc n) h g =
    let e : suc n - 0 ≡ suc n = omega arith in rw e (memset_lem (d ∷ dest) 0 (suc n) g)
strncpy-stored (d ∷ dest) (c ∷ t) rest (suc n) h g =
    let e : suc n - suc (length t) ≡ n - length t = omega arith in
    let z : (c == 0) ≡ false = ground arith in
    rw (e, z, strncpy-stored dest t rest n h.1 (omega arith))
