-- ===== src/Process/Siblings.antt =====
-- The chains of children in the process table of src/process.c, and their walks.
use kfs.Prelude.{
  ℕ, zero, suc, ◌<◌, ◌≤◌, ◌≡◌, ◌≢◌, refl, sym, ap, subst, ◌∙◌, true, Option, none, some, List, [],
  ◌∷◌, ◌==◌, if◌then◌else◌, length, length-modify, get_or, get_or-modify_self, get_or-modify_ne,
  modify, All, All-map, arith, Bool-cases, Option-cases, inl, inr,
}
use kfs.Process.{Process, zero_process, is_zombie, max_processes}
use kfs.Process.Family.{zombie_child, unlink, unlink_after}

abbrev pub next : List Process → ℕ → Option ℕ
next t k = (get_or t k zero_process).next_sibling

abbrev pub first_child : List Process → ℕ → Option ℕ
first_child t k = (get_or t k zero_process).children

-- The walk along `next_sibling` from `c` passes exactly the slots `ks`, in order.
abbrev pub Linked : List Process → Option ℕ → List ℕ → Type 0
Linked t c [] = c ≡ none
Linked t c (k ∷ ks) = (c ≡ some k) × Linked t (next t k) ks

-- `j` is none of `ks`.
abbrev pub Away : ℕ → List ℕ → Type 0
Away j ks = All (λ k. j ≢ k) ks

abbrev pub Distinct : List ℕ → Type 0
Distinct [] = Unit
Distinct (k ∷ ks) = Away k ks × Distinct ks

-- The first of the slots that holds a zombie.
abbrev pub first_zombie : List Process → List ℕ → Option ℕ
first_zombie t [] = none
first_zombie t (k ∷ ks) =
    let rest = first_zombie t ks in
    if is_zombie (get_or t k zero_process).state then some k else rest

-- The slots but the first that is `c`.
abbrev pub without : List ℕ → ℕ → List ℕ
without [] c = []
without (k ∷ ks) c = let rest = without ks c in if k == c then ks else k ∷ rest

pub Linked-same :
    (t u : List Process) (c : Option ℕ) (ks : List ℕ)
    → All (λ k. next u k ≡ next t k) ks
    → Linked t c ks
    → Linked u c ks
Linked-same t u c [] s h = h
Linked-same t u c (k ∷ ks) s h =
    (h.0, subst (λ n. Linked u n ks) (sym s.0) (Linked-same t u (next t k) ks s.1 h.1))

pub zombie_child-first :
    (n : ℕ) (t : List Process) (c : Option ℕ) (ks : List ℕ)
    → Linked t c ks
    → length ks ≤ n
    → zombie_child n t c ≡ first_zombie t ks
unfolding zombie_child
zombie_child-first zero t c [] h l = refl
zombie_child-first zero t c (k ∷ ks) h l = absurd (omega arith)
zombie_child-first (suc n) t c [] h l = rw (h, zombie_child) refl
zombie_child-first (suc n) t c (k ∷ ks) h l =
    rw (h.0, zombie_child, zombie_child-first n t (next t k) ks h.1 (omega arith)) refl

-- A change of one entry leaves the links of the others.
Away-same :
    (t : List Process) (f : Process → Process) (q : ℕ) (ks : List ℕ)
    → Away q ks
    → All (λ k. next (modify f t q) k ≡ next t k) ks
Away-same t f q ks a =
    All-map (λ k. q ≢ k) (λ k. next (modify f t q) k ≡ next t k)
      (λ k n. ap (λ p. p.next_sibling) (get_or-modify_ne f t q k zero_process n)) ks a

-- What `unlink_after` from slot `q`, before the slots `ks`, leaves.
abbrev Unlinked : List Process → List Process → ℕ → List ℕ → ℕ → Type 0
Unlinked t u q ks child =
    Linked u (next u q) (without ks child)
    × ((j : ℕ) → q ≢ j → Away j ks → get_or u j zero_process ≡ get_or t j zero_process)

unlink_after-Unlinked :
    (n : ℕ) (t : List Process) (q child : ℕ) (ks : List ℕ)
    → Linked t (next t q) ks
    → All (λ k. k < length t) (q ∷ ks)
    → Distinct (q ∷ ks)
    → length ks ≤ n
    → Unlinked t (unlink_after n t q child) q ks child
unfolding unlink_after
unlink_after-Unlinked zero t q child [] h i d l = (h, λ j n a. refl)
unlink_after-Unlinked zero t q child (k ∷ ks) h i d l = absurd (omega arith)
unlink_after-Unlinked (suc n) t q child [] h i d l = rw (h, unlink_after) (h, λ j n a. refl)
unlink_after-Unlinked (suc n) t q child (k ∷ ks) h i d l = elim (Bool-cases (k == child)) [
  | inl e ↦ rw (h.0, unlink_after, e) (found e)
  | inr e ↦
      let later = unlink_after-Unlinked n t k child ks h.1 i.1 d.1 (omega arith) in
      rw (h.0, unlink_after, e)
        (
          (ap (λ p. p.next_sibling) (later.1 q (λ x. d.0.0 (sym x)) d.0.1) ∙ h.0, later.0),
          λ j m a. later.1 j (λ x. a.0 (sym x)) a.1,
        )
]
  where
    past : Process → Process
    past s = record s { next_sibling = next t child }

    same : next (modify past t q) q ≡ next t child
    same = ap (λ p. p.next_sibling) (get_or-modify_self past t q zero_process i.0)

    found :
        (k == child) ≡ true
        → Linked (modify past t q) (next (modify past t q) q) ks
          × ((j : ℕ)
              → q ≢ j
              → Away j (k ∷ ks)
              → get_or (modify past t q) j zero_process ≡ get_or t j zero_process)
    found e =
        let k' : next t child ≡ next t k = ap (next t) (ground arith) in
        (
          subst (λ c. Linked (modify past t q) c ks) (sym (same ∙ k'))
              (Linked-same t (modify past t q) (next t k) ks (Away-same t past q ks d.0.1) h.1),
          λ j n a. get_or-modify_ne past t q j zero_process n,
        )

length-unlink_after :
    (n : ℕ) (t : List Process) (q child : ℕ) → length (unlink_after n t q child) ≡ length t
unfolding unlink_after
length-unlink_after zero t q child = refl
length-unlink_after (suc n) t q child = elim (Option-cases (next t q)) [
  | inl h ↦ rw (h, unlink_after) refl
  | inr (c, h) ↦ elim (Bool-cases (c == child)) [
    | inl e ↦ rw (h, unlink_after, e) (length-modify _ t q)
    | inr e ↦ rw (h, unlink_after, e) (length-unlink_after n t c child)
  ]
]

pub length-unlink :
    (t : List Process) (parent child : ℕ) → length (unlink t parent child) ≡ length t
unfolding unlink
length-unlink t parent child = elim (Option-cases (first_child t parent)) [
  | inl h ↦ rw (h, unlink) refl
  | inr (c, h) ↦ elim (Bool-cases (c == child)) [
    | inl e ↦ rw (h, unlink, e) (length-modify _ t parent)
    | inr e ↦ rw (h, unlink, e) (length-unlink_after max_processes t c child)
  ]
]

-- `unlink` takes exactly the given child out of the parent's chain.
pub unlink-Linked :
    (t : List Process) (parent child : ℕ) (ks : List ℕ)
    → Linked t (first_child t parent) ks
    → All (λ k. k < length t) (parent ∷ ks)
    → Distinct (parent ∷ ks)
    → length ks ≤ max_processes
    → Linked (unlink t parent child) (first_child (unlink t parent child) parent) (without ks child)
unfolding unlink
unlink-Linked t parent child [] h i d l = rw (h, unlink) h
unlink-Linked t parent child (k ∷ ks) h i d l = elim (Bool-cases (k == child)) [
  | inl e ↦ rw (h.0, unlink, e) (found e)
  | inr e ↦
      rw (h.0, unlink, e)
        (ap (λ p. p.children) (later.1 parent (λ x. d.0.0 (sym x)) d.0.1) ∙ h.0, later.0)
]
  where
    past : Process → Process
    past s = record s { children = next t child }

    same : first_child (modify past t parent) parent ≡ next t child
    same = ap (λ p. p.children) (get_or-modify_self past t parent zero_process i.0)

    found :
        (k == child) ≡ true
        → Linked (modify past t parent) (first_child (modify past t parent) parent) ks
    found e =
        let k' : next t child ≡ next t k = ap (next t) (ground arith) in
        subst (λ c. Linked (modify past t parent) c ks) (sym (same ∙ k'))
          (Linked-same t (modify past t parent) (next t k) ks (Away-same t past parent ks d.0.1)
            h.1)

    later : Unlinked t (unlink_after max_processes t k child) k ks child
    later = unlink_after-Unlinked max_processes t k child ks h.1 i.1 d.1 (omega arith)
