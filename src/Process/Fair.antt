-- ===== src/Process/Fair.antt =====
-- The order in which the scheduler of src/process.c serves the ready processes.
use kfs.Prelude.{
  ℕ, zero, suc, ◌+◌, ◌-◌, ◌<◌, ◌≤◌, ◌≡◌, inl, inr, refl, ap, subst, Bool, true, false, Option, none,
  some, List, [], ◌∷◌, ◌==◌, ltb, if◌then◌else◌, length, get_or, arith, Bool-cases, ◌∙◌,
}
use kfs.Process.{Process, Processes, is_ready, zero_process}
use kfs.Process.Schedule.{scan_after, scan_before, next_after, pick}

-- Slot `k` holds a ready process; there is none beyond the table.
abbrev pub ready_at : List Process → ℕ → Bool
ready_at t k = is_ready (get_or t k zero_process).state

-- The first index from `lo` on that passes, or none does.
abbrev FirstFrom : (ℕ → Bool) → ℕ → Option ℕ → Type 0
FirstFrom r lo none = (k : ℕ) → lo ≤ k → r k ≡ false
FirstFrom r lo (some n) = (lo ≤ n) × (r n ≡ true) × ((k : ℕ) → lo ≤ k → k < n → r k ≡ false)

-- The same below `hi`.
abbrev FirstBelow : (ℕ → Bool) → ℕ → ℕ → Option ℕ → Type 0
FirstBelow r lo hi none = (k : ℕ) → lo ≤ k → k < hi → r k ≡ false
FirstBelow r lo hi (some n) =
    (lo ≤ n) × (n < hi) × (r n ≡ true) × ((k : ℕ) → lo ≤ k → k < n → r k ≡ false)

-- `r` agrees with the entries of `ps`, which start at index `i`.
abbrev Agrees : (ℕ → Bool) → ℕ → List Process → Type 0
Agrees r i ps = (k : ℕ) → r (i + k) ≡ ready_at ps k

module _ (r : ℕ → Bool) where
  Agrees-tail :
      (i : ℕ) (p : Process) (ps : List Process) → Agrees r i (p ∷ ps) → Agrees r (i + 1) ps
  Agrees-tail i p ps a k = let e : i + 1 + k ≡ i + suc k = omega arith in rw e (a (suc k))

  Agrees-head :
      (i : ℕ) (p : Process) (ps : List Process) → Agrees r i (p ∷ ps) → r i ≡ is_ready p.state
  Agrees-head i p ps a = let e : i + 0 ≡ i = omega arith in rw e at (a 0)

  Agrees-end : (i : ℕ) → Agrees r i [] → (k : ℕ) → i ≤ k → r k ≡ false
  Agrees-end i a k h = let e : i + (k - i) ≡ k = omega arith in rw e at (a (k - i))

  -- One more index that fails in front.
  FirstFrom-skip : (i : ℕ) (o : Option ℕ) → r i ≡ false → FirstFrom r (i + 1) o → FirstFrom r i o
  FirstFrom-skip i none h f = λ k l. elim (Bool-cases (i == k)) [
    | inl e ↦ let e' : i ≡ k = ground arith in subst (λ j. r j ≡ false) e' h
    | inr e ↦ f k (ground arith)
  ]
  FirstFrom-skip i (some n) h f = (omega arith, f.1, before)
    where
      before : (k : ℕ) → i ≤ k → k < n → r k ≡ false
      before k l u = elim (Bool-cases (i == k)) [
        | inl e ↦ let e' : i ≡ k = ground arith in subst (λ j. r j ≡ false) e' h
        | inr e ↦ f.2 k (ground arith) u
      ]

  FirstBelow-skip :
      (i hi : ℕ) (o : Option ℕ) → r i ≡ false → FirstBelow r (i + 1) hi o → FirstBelow r i hi o
  FirstBelow-skip i hi none h f = λ k l u. elim (Bool-cases (i == k)) [
    | inl e ↦ let e' : i ≡ k = ground arith in subst (λ j. r j ≡ false) e' h
    | inr e ↦ f k (ground arith) u
  ]
  FirstBelow-skip i hi (some n) h f = (omega arith, f.1, f.2, before)
    where
      before : (k : ℕ) → i ≤ k → k < n → r k ≡ false
      before k l u = elim (Bool-cases (i == k)) [
        | inl e ↦ let e' : i ≡ k = ground arith in subst (λ j. r j ≡ false) e' h
        | inr e ↦ f.3 k (ground arith) u
      ]

  scan_after-found :
      (ps : List Process) (i cur : ℕ)
      → Agrees r i ps
      → cur < i
      → FirstFrom r i (scan_after ps i cur true)
  unfolding scan_after
  scan_after-found [] i cur a h = Agrees-end i a
  scan_after-found (p ∷ ps) i cur a h =
      let other : (i == cur) ≡ false = ground arith in
      let rest = scan_after-found ps (i + 1) cur (Agrees-tail i p ps a) (omega arith) in
      elim (Bool-cases (is_ready p.state)) [
        | inl e ↦
            rw (other, e) (omega arith, Agrees-head i p ps a ∙ e, λ k l u. absurd (omega arith))
        | inr e ↦ rw (other, e) (FirstFrom-skip i _ (Agrees-head i p ps a ∙ e) rest)
      ]

  scan_after-seek :
      (ps : List Process) (i cur : ℕ)
      → Agrees r i ps
      → i ≤ cur
      → FirstFrom r (cur + 1) (scan_after ps i cur false)
  unfolding scan_after
  scan_after-seek [] i cur a h = λ k l. Agrees-end i a k (omega arith)
  scan_after-seek (p ∷ ps) i cur a h = elim (Bool-cases (i == cur)) [
    | inl e ↦
        let e' : i ≡ cur = ground arith in
        rw e (
          subst (λ j. FirstFrom r (j + 1) (scan_after ps (i + 1) cur true)) e'
            (scan_after-found ps (i + 1) cur (Agrees-tail i p ps a) (omega arith)))
    | inr e ↦ rw e (scan_after-seek ps (i + 1) cur (Agrees-tail i p ps a) (ground arith))
  ]

  scan_before-below :
      (ps : List Process) (i cur : ℕ)
      → Agrees r i ps
      → i ≤ cur
      → FirstBelow r i cur (scan_before ps i cur)
  unfolding scan_before
  scan_before-below [] i cur a h = λ k l u. Agrees-end i a k l
  scan_before-below (p ∷ ps) i cur a h = elim (Bool-cases (i == cur)) [
    | inl e ↦ rw e (λ k l u. absurd (ground arith))
    | inr e ↦ elim (Bool-cases (is_ready p.state)) [
      | inl q ↦
          rw (e, q)
            (omega arith, ground arith, Agrees-head i p ps a ∙ q, λ k l u. absurd (omega arith))
      | inr q ↦
          rw (e, q)
            (FirstBelow-skip i cur _ (Agrees-head i p ps a ∙ q)
              (scan_before-below ps (i + 1) cur (Agrees-tail i p ps a) (ground arith)))
    ]
  ]

-- How many slots after slot `cur`, going round a table of `n`, slot `k` comes; `cur` itself is last.
abbrev pub distance : ℕ → ℕ → ℕ → ℕ
distance n cur k = if ltb cur k then k - cur - 1 else k + n - cur - 1

-- The pick is a ready process and none comes before it, or there is no ready process.
abbrev pub Nearest : List Process → ℕ → Option ℕ → Type 0
Nearest t cur none = (k : ℕ) → ready_at t k ≡ false
Nearest t cur (some j) =
    (ready_at t j ≡ true)
    × ((k : ℕ) → ready_at t k ≡ true → distance (length t) cur j ≤ distance (length t) cur k)

pub ready_at-lt : (t : List Process) (k : ℕ) → ready_at t k ≡ true → k < length t
ready_at-lt [] k h = absurd (cc)
ready_at-lt (p ∷ t) zero h = omega arith
ready_at-lt (p ∷ t) (suc k) h = omega (arith, ready_at-lt t k h)

module _ (st : Processes) (cur : ℕ) (inside : cur < length st.table) where
  abbrev t : List Process
  t = st.table

  after : FirstFrom (ready_at t) (cur + 1) (scan_after t 0 cur false)
  after = scan_after-seek (ready_at t) t 0 cur (λ k. ap (ready_at t) (omega arith)) (omega arith)

  before : FirstBelow (ready_at t) 0 cur (scan_before t 0 cur)
  before = scan_before-below (ready_at t) t 0 cur (λ k. ap (ready_at t) (omega arith)) (omega arith)

  next_after-Nearest :
      (a b : Option ℕ)
      → scan_after t 0 cur false ≡ a
      → scan_before t 0 cur ≡ b
      → Nearest t cur (next_after st cur)
  unfolding next_after
  next_after-Nearest (some n) b ea eb =
      let f = subst (FirstFrom (ready_at t) (cur + 1)) ea after in
      rw (ea, next_after)
        (f.1, λ k h. ground (arith, f.2 k, ready_at-lt t n f.1, ready_at-lt t k h))
  next_after-Nearest none (some n) ea eb =
      let f = subst (FirstFrom (ready_at t) (cur + 1)) ea after in
      let g = subst (FirstBelow (ready_at t) 0 cur) eb before in
      rw (ea, next_after, eb)
        (g.2, λ k h. ground (arith, f k, g.3 k, ready_at-lt t n g.2, ready_at-lt t k h))
  next_after-Nearest none none ea eb =
      let f = subst (FirstFrom (ready_at t) (cur + 1)) ea after in
      let g = subst (FirstBelow (ready_at t) 0 cur) eb before in
      elim (Bool-cases (ready_at t cur)) [
        | inl q ↦ rw (ea, next_after, eb, q) (q, λ k h. ground (arith, f k, g k, ready_at-lt t k h))
        | inr q ↦
            rw (ea, next_after, eb, q)
              (λ k. elim (Bool-cases (cur == k)) [
                | inl e ↦ let e' : cur ≡ k = ground arith in subst (λ j. ready_at t j ≡ false) e' q
                | inr e ↦ elim (Bool-cases (ltb k cur)) [
                  | inl l ↦ g k (omega arith) (ground arith)
                  | inr l ↦ f k (ground arith)
                ]
              ])
      ]

-- While a process is current, the scheduler picks a ready process such that no other ready one comes
-- before it in the table, counting round from the slot after the current one, and it picks none only
-- if no process is ready.
pub pick-Nearest :
    (st : Processes) (cur : ℕ) → cur < length st.table → Nearest st.table cur (pick st (some cur))
unfolding pick
pick-Nearest st cur h = next_after-Nearest st cur h _ _ refl refl
