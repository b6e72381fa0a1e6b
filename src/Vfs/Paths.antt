-- ===== src/Vfs/Paths.antt =====
-- What `vfs_resolve_path` of src/vfs.c does on a path of several names.
use kfs.Prelude.{
  ℕ, suc, ◌+◌, ◌≤◌, ◌≡◌, ◌≢◌, refl, sym, ap, ap₂, ◌∙◌, Bool, false, Option, none, some, List, [],
  ◌∷◌, ◌++◌, ◌==◌, length, length-append, take_all, if◌then◌else◌, All, arith, Bool-cases, inl, inr,
}
use kfs.Vfs.{Vfs, same_text}
use kfs.Vfs.Lookup.{tokens, walk, call_finddir, vfs_finddir, vfs_resolve_path}

-- A name without a slash.
abbrev pub IsName : List ℕ → Type 0
IsName c = All (λ b. (b == b'/') ≡ false) c

tokens-cons : (p : List ℕ) → (t : List ℕ) × (ts : List (List ℕ)) × (tokens p ≡ t ∷ ts)
unfolding tokens
tokens-cons [] = ([], [], refl)
tokens-cons (c ∷ p) = elim (Bool-cases (c == b'/')) [
  | inl s ↦ ([], tokens p, rw s refl)
  | inr s ↦ let (t, ts, e) = tokens-cons p in (c ∷ t, ts, rw (s, e) refl)
]

tokens-append : (p c : List ℕ) → tokens (p ++ (b'/' ∷ c)) ≡ tokens p ++ tokens c
unfolding tokens
tokens-append [] c = refl
tokens-append (b ∷ p) c = elim (Bool-cases (b == b'/')) [
  | inl s ↦ rw (s, tokens-append p c) refl
  | inr s ↦ let (t, ts, e) = tokens-cons p in rw (s, tokens-append p c, e) refl
]

tokens-name : (c : List ℕ) → IsName c → tokens c ≡ c ∷ []
unfolding tokens
tokens-name [] h = refl
tokens-name (b ∷ c) h = rw (h.0, tokens-name c h.1) refl

-- The lookup of a name in what a resolution found.
abbrev pub then_find : Bool → Option ℕ × Vfs → List ℕ → Option ℕ × Vfs
then_find ok (found, st) c = vfs_finddir ok st found (some c)

walk-append :
    (ok : ℕ → Bool) (st : Vfs) (n : ℕ) (ts : List (List ℕ)) (c : List ℕ)
    → walk ok st n (ts ++ (c ∷ [])) ≡ then_find (ok 0) (walk (λ i. ok (suc i)) st n ts) c
unfolding walk
walk-append ok st n [] c = go (call_finddir (ok 0) st n c)
  where
    go :
        (r : Option ℕ × Vfs)
        → (elim r.0 as (λ _. Option ℕ × Vfs) [ none ↦ (none, r.1) | some m ↦ (some m, r.1) ]) ≡ r
    go (none, st') = refl
    go (some m, st') = refl
walk-append ok st n (t ∷ ts) c =
    ap (λ k. onward (call_finddir (ok k) st n t)) (omega (arith, length-append ts (c ∷ [])))
    ∙ go (λ st' m. walk-append ok st' m ts c) (call_finddir (ok (suc (length ts))) st n t)
  where
    onward : Option ℕ × Vfs → Option ℕ × Vfs
    onward r = elim r.0 [ none ↦ (none, r.1) | some m ↦ walk ok r.1 m (ts ++ (c ∷ [])) ]

    go :
        ((st' : Vfs) (m : ℕ)
          → walk ok st' m (ts ++ (c ∷ [])) ≡ then_find (ok 0) (walk (λ i. ok (suc i)) st' m ts) c)
        → (r : Option ℕ × Vfs)
        → (elim r.0 as (λ _. Option ℕ × Vfs) [
          | none ↦ (none, r.1)
          | some m ↦ walk ok r.1 m (ts ++ (c ∷ []))
        ])
          ≡ then_find
              (ok 0)
              (elim r.0 as (λ _. Option ℕ × Vfs) [
                | none ↦ (none, r.1)
                | some m ↦ walk (λ i. ok (suc i)) r.1 m ts
              ])
              c
    go below (none, st') = refl
    go below (some m, st') = below st' m

-- A walk from the root, if there is one.
abbrev from_root : (ℕ → Bool) → Vfs → List (List ℕ) → Option ℕ × Vfs
from_root ok st ts = elim st.root [ none ↦ (none, st) | some n ↦ walk ok st n ts ]

resolve_walk :
    (ok : ℕ → Bool) (st : Vfs) (path : List ℕ)
    → same_text path [] ≡ false
    → length path ≤ 255
    → vfs_resolve_path ok st (some (b'/' ∷ path)) ≡ from_root ok st (tokens path)
unfolding vfs_resolve_path
resolve_walk ok st path given short =
    ap₂
      (λ e t. elim st.root as (λ _. Option ℕ × Vfs) [
        | none ↦ (none, st)
        | some n ↦ if e then (some n, st) else walk ok st n (tokens t)
      ])
      given (take_all 255 path short)

from_root-append :
    (ok : ℕ → Bool) (st : Vfs) (ts : List (List ℕ)) (c : List ℕ)
    → from_root ok st (ts ++ (c ∷ [])) ≡ then_find (ok 0) (from_root (λ i. ok (suc i)) st ts) c
from_root-append ok st ts c = go st.root
  where
    go :
        (r : Option ℕ)
        → (elim r as (λ _. Option ℕ × Vfs) [
          | none ↦ (none, st)
          | some n ↦ walk ok st n (ts ++ (c ∷ []))
        ])
          ≡ then_find
              (ok 0)
              (elim r as (λ _. Option ℕ × Vfs) [
                | none ↦ (none, st)
                | some n ↦ walk (λ i. ok (suc i)) st n ts
              ])
              c
    go none = refl
    go (some n) = walk-append ok st n ts c

single_name :
    (ok : ℕ → Bool) (st : Vfs) (c : List ℕ)
    → from_root ok st (c ∷ []) ≡ vfs_finddir (ok 0) st st.root (some c)
unfolding walk
single_name ok st c = from_root-append ok st [] c ∙ go st.root
  where
    go :
        (r : Option ℕ)
        → then_find
            (ok 0)
            (elim r as (λ _. Option ℕ × Vfs) [ none ↦ (none, st) | some n ↦ (some n, st) ])
            c
          ≡ vfs_finddir (ok 0) st r (some c)
    go none = refl
    go (some n) = refl

not_empty : (c : List ℕ) → c ≢ [] → same_text c [] ≡ false
unfolding same_text
not_empty [] n = absurd (n refl)
not_empty (x ∷ c) n = refl

-- The path of one name.
pub resolve_single :
    (ok : ℕ → Bool) (st : Vfs) (c : List ℕ)
    → IsName c
    → c ≢ []
    → length c ≤ 255
    → vfs_resolve_path ok st (some (b'/' ∷ c)) ≡ vfs_finddir (ok 0) st st.root (some c)
resolve_single ok st c name given short =
    resolve_walk ok st c (not_empty c given) short
    ∙ ap (from_root ok st) (tokens-name c name)
    ∙ single_name ok st c

-- Below the root, a path with one more name is resolved by looking that name up, with `vfs_finddir`,
-- in what the path before it resolves to, and a single name by looking it up in the root; this holds
-- up to 255 bytes after the first slash.
pub resolve-finddir :
    (ok : ℕ → Bool) (st : Vfs) (b : ℕ) (p c : List ℕ)
    → IsName c
    → c ≢ []
    → length (b ∷ p) + 1 + length c ≤ 255
    → (vfs_resolve_path ok st (some (b'/' ∷ c)) ≡ vfs_finddir (ok 0) st st.root (some c))
      × (vfs_resolve_path ok st (some (b'/' ∷ ((b ∷ p) ++ (b'/' ∷ c))))
          ≡ then_find (ok 0) (vfs_resolve_path (λ i. ok (suc i)) st (some (b'/' ∷ b ∷ p))) c)
resolve-finddir ok st b p c name given short = (
  resolve_single ok st c name given (omega arith),
  resolve_walk ok st ((b ∷ p) ++ (b'/' ∷ c)) (not_empty ((b ∷ p) ++ (b'/' ∷ c)) (λ e. absurd (cc)))
        (omega (arith, length-append (b ∷ p) (b'/' ∷ c)))
      ∙ ap (from_root ok st)
          (tokens-append (b ∷ p) c ∙ ap (λ t. tokens (b ∷ p) ++ t) (tokens-name c name))
      ∙ from_root-append ok st (tokens (b ∷ p)) c
      ∙ ap (λ r. then_find (ok 0) r c)
          (sym (
            resolve_walk (λ i. ok (suc i)) st (b ∷ p) (not_empty (b ∷ p) (λ e. absurd (cc)))
              (omega arith))),
)
