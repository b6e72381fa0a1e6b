-- ===== src/Prelude/Find.antt =====
-- The scan `for (i = 0; i < N; i++) if (test(table[i])) return i;` over a table, predicates on all
-- entries of a table, and counts of entries.
use Prim.Native.Nat.{ℕ, zero, suc, ◌+◌, ◌<◌, ◌≤◌}
use mathlib.Core.Path.{◌≡◌, refl, subst, ap}
use mathlib.Core.Logic.{inl, inr}
use mathlib.Core.Bool.{Bool, true, false}
use mathlib.Core.List.{List, [], ◌∷◌, ◌++◌}
use mathlib.Core.Option
use mathlib.Core.Option.{Option, none, some, some-injective}
use native.Mathlib.Omega.{arith}
use kfs.Prelude.Tests.{if◌then◌else◌, Bool-cases}
use kfs.Prelude.Lists.{
  length, get_elem?, get_elem?-lt, get_or, get_elem?-get_or, set, modify, replicate, take,
}

module _ {ℓ} {A : Type ℓ} where
  -- The index of the first entry that passes the test.
  abbrev pub find_index : (A → Bool) → List A → Option ℕ
  find_index p [] = none
  find_index p (x ∷ xs) = if p x then some 0 else Option.map suc (find_index p xs)

  -- Every entry has the property.
  abbrev pub All {κ} : (A → Type κ) → List A → Type κ
  All P [] = Unit
  All P (x ∷ xs) = P x × All P xs

  pub All-take {κ} : (P : A → Type κ) (n : ℕ) (xs : List A) → All P xs → All P (take n xs)
  All-take P zero xs h = tt
  All-take P (suc n) [] h = tt
  All-take P (suc n) (x ∷ xs) h = (h.0, All-take P n xs h.1)

  pub All-snoc {κ} :
      (P : A → Type κ) (xs : List A) (x : A) → All P xs → P x → All P (xs ++ (x ∷ []))
  All-snoc P [] x h p = (p, tt)
  All-snoc P (y ∷ xs) x (q, h) p = (q, All-snoc P xs x h p)

  -- How many entries pass the test.
  abbrev pub count : (A → Bool) → List A → ℕ
  count p [] = 0
  count p (x ∷ xs) = if p x then suc (count p xs) else count p xs

-- What a successful scan says: the entry passes, and none before it does.
pub record Found {ℓ} {A : Type ℓ} (p : A → Bool) (xs : List A) (i : ℕ) : Type ℓ where
  pub entry : A
  pub at : get_elem? xs i ≡ some entry
  pub passes : p entry ≡ true
  pub first : (j : ℕ) (a : A) → j < i → get_elem? xs j ≡ some a → p a ≡ false

module _ {ℓ} {A : Type ℓ} where
  pub find_index-cons_miss :
      (p : A → Bool) (x : A) (xs : List A) (i : ℕ)
      → p x ≡ false
      → find_index p xs ≡ some i
      → find_index p (x ∷ xs) ≡ some (suc i)
  find_index-cons_miss p x xs i m e = rw (m, e)

  Found-suc :
      (p : A → Bool) (x : A) (xs : List A) (i : ℕ)
      → p x ≡ false
      → Found p xs i
      → Found p (x ∷ xs) (suc i)
  Found-suc p x xs i m f = record { entry = f.entry; at = f.at; passes = f.passes; first = before }
    where
      before : (j : ℕ) (a : A) → j < suc i → get_elem? (x ∷ xs) j ≡ some a → p a ≡ false
      before zero a h e = ground arith
      before (suc j) a h e = f.first j a (omega arith) e

  pub find_index-Found :
      (p : A → Bool) (xs : List A) (i : ℕ) → find_index p xs ≡ some i → Found p xs i
  find_index-Found p [] i e = absurd (cc)
  find_index-Found p (x ∷ xs) zero e = elim (Bool-cases (p x)) [
    | inl h ↦ record { entry = x; at = refl; passes = h; first = λ j a lt. elim lt [ ] }
    | inr h ↦ absurd (ground arith)
  ]
  find_index-Found p (x ∷ xs) (suc i) e = elim (Bool-cases (p x)) [
    | inl h ↦ absurd (ground arith)
    | inr h ↦ Found-suc p x xs i h (find_index-Found p xs i (ground arith))
  ]

  pub find_index-none :
      (p : A → Bool) (xs : List A) → All (λ x. p x ≡ false) xs → find_index p xs ≡ none
  find_index-none p [] h = refl
  find_index-none p (x ∷ xs) h = rw (h.0, find_index-none p xs h.1)

  pub find_index-lt :
      (p : A → Bool) (xs : List A) (i : ℕ) → find_index p xs ≡ some i → i < length xs
  find_index-lt p xs i e = let f = find_index-Found p xs i e in get_elem?-lt xs i f.at

  -- A scan that fails means that every entry fails the test.
  pub none-find_index :
      (p : A → Bool) (xs : List A) → find_index p xs ≡ none → All (λ x. p x ≡ false) xs
  none-find_index p [] e = tt
  none-find_index p (x ∷ xs) e = elim (Bool-cases (p x)) [
    | inl h ↦ absurd (ground arith)
    | inr h ↦ (h, none-find_index p xs (ground arith))
  ]

  pub find_index-count_zero : (p : A → Bool) (xs : List A) → find_index p xs ≡ none → count p xs ≡ 0
  find_index-count_zero p [] e = refl
  find_index-count_zero p (x ∷ xs) e = elim (Bool-cases (p x)) [
    | inl h ↦ absurd (ground arith)
    | inr h ↦ rw h (find_index-count_zero p xs (ground arith))
  ]

  pub find_index-count_pos :
      (p : A → Bool) (xs : List A) (i : ℕ) → find_index p xs ≡ some i → 0 < count p xs
  find_index-count_pos p [] i e = absurd (cc)
  find_index-count_pos p (x ∷ xs) zero e = elim (Bool-cases (p x)) [
    | inl h ↦ rw h (omega arith)
    | inr h ↦ absurd (ground arith)
  ]
  find_index-count_pos p (x ∷ xs) (suc i) e = elim (Bool-cases (p x)) [
    | inl h ↦ rw h (omega arith)
    | inr h ↦ rw h (find_index-count_pos p xs i (ground arith))
  ]

  pub count-le-length : (p : A → Bool) (xs : List A) → count p xs ≤ length xs
  count-le-length p [] = omega arith
  count-le-length p (x ∷ xs) = ground (arith, count-le-length p xs)

  -- Overwriting an entry that passes by one that fails lowers the count by one.
  pub count-set_drop :
      (p : A → Bool) (xs : List A) (i : ℕ) (a v : A)
      → get_elem? xs i ≡ some a
      → p a ≡ true
      → p v ≡ false
      → count p (set xs i v) + 1 ≡ count p xs
  count-set_drop p [] i a v e ha hv = absurd (cc)
  count-set_drop p (x ∷ xs) zero a v e ha hv = ground arith
  count-set_drop p (x ∷ xs) (suc i) a v e ha hv = ground (arith, count-set_drop p xs i a v e ha hv)

  pub All-map {κ μ} :
      (P : A → Type κ) (Q : A → Type μ)
      → ((a : A) → P a → Q a)
      → (xs : List A) → All P xs
      → All Q xs
  All-map P Q f [] h = tt
  All-map P Q f (x ∷ xs) h = (f x h.0, All-map P Q f xs h.1)

  pub All-replicate {κ} : (P : A → Type κ) (n : ℕ) (a : A) → P a → All P (replicate n a)
  All-replicate P zero a h = tt
  All-replicate P (suc n) a h = (h, All-replicate P n a h)

  pub count-replicate : (p : A → Bool) (n : ℕ) (a : A) → p a ≡ true → count p (replicate n a) ≡ n
  count-replicate p zero a h = refl
  count-replicate p (suc n) a h = rw h (ap suc (count-replicate p n a h))

  pub All-set {κ} :
      (P : A → Type κ) (xs : List A) (i : ℕ) (v : A) → All P xs → P v → All P (set xs i v)
  All-set P [] i v h hv = h
  All-set P (x ∷ xs) zero v h hv = (hv, h.1)
  All-set P (x ∷ xs) (suc i) v h hv = (h.0, All-set P xs i v h.1 hv)

  pub All-get {κ} :
      (P : A → Type κ) (xs : List A) (i : ℕ) (a : A) → All P xs → get_elem? xs i ≡ some a → P a
  All-get P [] i a h e = absurd (cc)
  All-get P (x ∷ xs) zero a h e = subst P (some-injective x a e) h.0
  All-get P (x ∷ xs) (suc i) a h e = All-get P xs i a h.1 e

  pub All-modify {κ} :
      (P : A → Type κ) (f : A → A) (xs : List A) (i : ℕ)
      → All P xs
      → ((a : A) → P a → P (f a))
      → All P (modify f xs i)
  All-modify P f [] i h k = h
  All-modify P f (x ∷ xs) zero h k = (k x h.0, h.1)
  All-modify P f (x ∷ xs) (suc i) h k = (h.0, All-modify P f xs i h.1 k)

  pub All-get_or {κ} :
      (P : A → Type κ) (xs : List A) (i : ℕ) (d : A) → All P xs → P d → P (get_or xs i d)
  All-get_or P [] i d h hd = hd
  All-get_or P (x ∷ xs) zero d h hd = h.0
  All-get_or P (x ∷ xs) (suc i) d h hd = All-get_or P xs i d h.1 hd

  -- An update that the test does not see leaves the scan as it is.
  pub find_index-modify :
      (p : A → Bool) (f : A → A) (xs : List A) (i : ℕ)
      → ((a : A) → p (f a) ≡ p a)
      → find_index p (modify f xs i) ≡ find_index p xs
  find_index-modify p f [] i h = refl
  find_index-modify p f (x ∷ xs) zero h = rw (h x)
  find_index-modify p f (x ∷ xs) (suc i) h = rw (find_index-modify p f xs i h)

  -- The entry that a scan found passes the test.
  pub find_index-passes :
      (p : A → Bool) (xs : List A) (i : ℕ) (d : A)
      → find_index p xs ≡ some i
      → p (get_or xs i d) ≡ true
  find_index-passes p xs i d e =
      let f = find_index-Found p xs i e in rw (get_elem?-get_or xs i d f.at) f.passes

  -- An update of one entry, at the value that stands there.
  pub All-modify_at {κ} :
      (P : A → Type κ) (f : A → A) (xs : List A) (i : ℕ) (d : A)
      → All P xs
      → P (f (get_or xs i d))
      → All P (modify f xs i)
  All-modify_at P f [] i d h k = h
  All-modify_at P f (x ∷ xs) zero d h k = (k, h.1)
  All-modify_at P f (x ∷ xs) (suc i) d h k = (h.0, All-modify_at P f xs i d h.1 k)

  pub find_index-modify_at :
      (p : A → Bool) (f : A → A) (xs : List A) (i : ℕ) (d : A)
      → p (f (get_or xs i d)) ≡ p (get_or xs i d)
      → find_index p (modify f xs i) ≡ find_index p xs
  find_index-modify_at p f [] i d h = refl
  find_index-modify_at p f (x ∷ xs) zero d h = rw h
  find_index-modify_at p f (x ∷ xs) (suc i) d h = rw (find_index-modify_at p f xs i d h)

  pub find_index-set_at :
      (p : A → Bool) (xs : List A) (i : ℕ) (v d : A)
      → p v ≡ p (get_or xs i d)
      → find_index p (set xs i v) ≡ find_index p xs
  find_index-set_at p [] i v d h = refl
  find_index-set_at p (x ∷ xs) zero v d h = rw h
  find_index-set_at p (x ∷ xs) (suc i) v d h = rw (find_index-set_at p xs i v d h)

  -- An update that leaves a field alone leaves it alone in every entry.
  pub get_or-modify_field {κ} :
      {B : Type κ} (g : A → B) (f : A → A) (xs : List A) (i j : ℕ) (d : A)
      → ((a : A) → g (f a) ≡ g a)
      → g (get_or (modify f xs i) j d) ≡ g (get_or xs j d)
  get_or-modify_field g f [] i j d h = refl
  get_or-modify_field g f (x ∷ xs) zero zero d h = h x
  get_or-modify_field g f (x ∷ xs) zero (suc j) d h = refl
  get_or-modify_field g f (x ∷ xs) (suc i) zero d h = refl
  get_or-modify_field g f (x ∷ xs) (suc i) (suc j) d h = get_or-modify_field g f xs i j d h
