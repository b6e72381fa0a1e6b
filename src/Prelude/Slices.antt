-- ===== src/Prelude/Slices.antt =====
-- Parts of lists: `take` and `drop` with joins and with each other.
use Prim.Native.Nat.{ℕ, zero, suc, ◌-◌, ◌<◌, ◌≤◌, min}
use mathlib.Core.Path.{◌≡◌, refl, ap, ◌∙◌}
use mathlib.Core.List.{List, [], ◌∷◌, ◌++◌}
use native.Mathlib.Omega.{arith}
use kfs.Prelude.Lists.{length, set, take, drop, replicate}

module _ {ℓ} {A : Type ℓ} where
  pub drop_all : (o : ℕ) (c : List A) → length c ≤ o → drop o c ≡ []
  drop_all zero [] h = refl
  drop_all zero (x ∷ c) h = absurd (omega arith)
  drop_all (suc o) [] h = refl
  drop_all (suc o) (x ∷ c) h = drop_all o c (omega arith)

  pub length-drop : (o : ℕ) (c : List A) → length (drop o c) ≡ length c - o
  length-drop zero c = omega arith
  length-drop (suc o) [] = omega arith
  length-drop (suc o) (x ∷ c) = omega (arith, length-drop o c)

  pub drop-append : (o : ℕ) (c e : List A) → o ≤ length c → drop o (c ++ e) ≡ drop o c ++ e
  drop-append zero c e h = refl
  drop-append (suc o) [] e h = absurd (omega arith)
  drop-append (suc o) (x ∷ c) e h = drop-append o c e (omega arith)

  pub take-append : (k : ℕ) (c e : List A) → k ≤ length c → take k (c ++ e) ≡ take k c
  take-append zero c e h = refl
  take-append (suc k) [] e h = absurd (omega arith)
  take-append (suc k) (x ∷ c) e h = ap (λ r. x ∷ r) (take-append k c e (omega arith))

  pub take_nil : (k : ℕ) → take {A = A} k [] ≡ []
  take_nil zero = refl
  take_nil (suc k) = refl

  pub drop_nil : (k : ℕ) → drop {A = A} k [] ≡ []
  drop_nil zero = refl
  drop_nil (suc k) = refl

  -- A prefix that may reach into the second list.
  pub take-append_both :
      (k : ℕ) (c e : List A) → take k (c ++ e) ≡ take k c ++ take (k - length (take k c)) e
  take-append_both zero c e = refl
  take-append_both (suc k) [] e =
      let none_taken : suc k ≡ suc k - 0 = omega arith in ap (λ n. take n e) none_taken
  take-append_both (suc k) (x ∷ c) e =
      let s : suc k - suc (length (take k c)) ≡ k - length (take k c) = omega arith in
      rw s (ap (λ r. x ∷ r) (take-append_both k c e))

  pub take-min : (k : ℕ) (c : List A) → take (min (length c) k) c ≡ take k c
  take-min zero c = let nothing : min (length c) 0 ≡ 0 = omega arith in ap (λ n. take n c) nothing
  take-min (suc k) [] = take_nil (min 0 (suc k))
  take-min (suc k) (x ∷ c) =
      let one_less : min (suc (length c)) (suc k) ≡ suc (min (length c) k) = omega arith in
      ap (λ n. take n (x ∷ c)) one_less ∙ ap (λ r. x ∷ r) (take-min k c)

  pub take-replicate : (k n : ℕ) (a : A) → take k (replicate n a) ≡ replicate (min n k) a
  take-replicate zero n a =
      let nothing : 0 ≡ min n 0 = omega arith in ap (λ m. replicate m a) nothing
  take-replicate (suc k) zero a =
      let nothing : 0 ≡ min 0 (suc k) = omega arith in ap (λ m. replicate m a) nothing
  take-replicate (suc k) (suc n) a =
      let one_more : suc (min n k) ≡ min (suc n) (suc k) = omega arith in
      ap (λ r. a ∷ r) (take-replicate k n a) ∙ ap (λ m. replicate m a) one_more

  pub take-set :
      (at : ℕ) (v : A) (b : List A)
      → at < length b
      → take (suc at) (set b at v) ≡ take at b ++ (v ∷ [])
  take-set at v [] h = elim h [ ]
  take-set zero v (x ∷ b) h = refl
  take-set (suc at) v (x ∷ b) h = ap (λ r. x ∷ r) (take-set at v b (omega arith))

  pub take-set_after : (at : ℕ) (v : A) (b : List A) → take at (set b at v) ≡ take at b
  take-set_after zero v b = refl
  take-set_after (suc at) v [] = refl
  take-set_after (suc at) v (x ∷ b) = ap (λ r. x ∷ r) (take-set_after at v b)

  take_both : (n : ℕ) (b : List A) → take n b ≡ take n (take (suc n) b)
  take_both n [] = refl
  take_both zero (x ∷ b) = refl
  take_both (suc n) (x ∷ b) = ap (λ r. x ∷ r) (take_both n b)

  pub take-take_pred : (at : ℕ) (b : List A) → take (at - 1) b ≡ take (at - 1) (take at b)
  take-take_pred zero b = refl
  take-take_pred (suc at) b = let e : suc at - 1 ≡ at = omega arith in rw e (take_both at b)
