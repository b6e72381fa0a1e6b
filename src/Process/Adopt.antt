-- ===== src/Process/Adopt.antt =====
-- `process_fork` of src/process.c and the chain of the parent's children.
use kfs.Prelude.{
  ℕ, ◌<◌, ◌≡◌, ◌≢◌, refl, sym, ap, subst, ◌∙◌, Bool, true, false, ◌||◌, Option, none, some, List,
  [], ◌∷◌, ◌==◌, if◌then◌else◌, length, length-set, get_or, get_or-modify_self, get_or-modify_ne,
  get_or-set_self, get_or-set_ne, set, modify, All, arith, Bool-cases, inl, inr,
}
use kfs.Process.{
  Process, Processes, ProcessState, Effect, destroy_directory, copy_page, zero_process, at_index,
  ready, unused, process_alloc_slot,
}
use kfs.Process.Family.{Outcome, process_fork, fork_in, copied, adopt}
use kfs.Process.Siblings.{next, first_child, Linked, Away, Linked-same}
use kfs.Process.Wait.{Children}

All-both :
    (P Q R : ℕ → Type 0)
    → ((k : ℕ) → P k → Q k → R k)
    → (ks : List ℕ) → All P ks
    → All Q ks
    → All R ks
All-both P Q R f [] p q = tt
All-both P Q R f (k ∷ ks) p q = (f k p.0 q.0, All-both P Q R f ks p.1 q.1)

-- An outcome of a fork: the result, the state of the slot, and the chain of children.
abbrev Forked : ℕ → ℕ → List ℕ → Option ℕ → ProcessState → Outcome (Option ℕ) → Type 0
Forked parent i ks expected s (r, st, es) =
    (r ≡ expected)
    × ((at_index st i).state ≡ s)
    × Linked st.table (first_child st.table parent) (i ∷ ks)

-- The child `p` in slot `i` with the link to its siblings comes first in the chain.
adopt-Linked :
    (st : Processes) (parent i : ℕ) (ks : List ℕ) (p : Process) {r : Option ℕ}
    → Children st parent ks
    → Away i (parent ∷ ks)
    → i < length st.table
    → p.next_sibling ≡ first_child st.table parent
    → (es : List Effect) → Forked parent i ks r p.state (r, adopt st parent i p, es)
adopt-Linked st parent i ks p v a inside s es =
    (refl, ap (λ q. q.state) at_child, (at_parent, links))
  where
    t : List Process
    t = set st.table i p

    f : Process → Process
    f q = record q { children = some i }

    at_child : get_or (modify f t parent) i zero_process ≡ p
    at_child =
        get_or-modify_ne f t parent i zero_process (λ e. a.0 (sym e))
        ∙ get_or-set_self st.table i p zero_process inside

    at_parent : first_child (modify f t parent) parent ≡ some i
    at_parent =
        ap (λ q. q.children)
          (get_or-modify_self f t parent zero_process (rw (length-set st.table i p) v.inside.0))

    same : All (λ k. next (modify f t parent) k ≡ next st.table k) ks
    same =
        All-both (λ k. parent ≢ k) (λ k. i ≢ k) (λ k. next (modify f t parent) k ≡ next st.table k)
          (λ k n m.
            ap (λ q. q.next_sibling)
              (get_or-modify_ne f t parent k zero_process n
                ∙ get_or-set_ne st.table i k p zero_process m))
          ks v.distinct.0 a.1

    links : Linked (modify f t parent) (next (modify f t parent) i) ks
    links =
        subst (λ c. Linked (modify f t parent) c ks) (sym (ap (λ q. q.next_sibling) at_child ∙ s))
          (Linked-same st.table (modify f t parent) (first_child st.table parent) ks same v.linked)

-- By whether an allocation failed.
abbrev Expected : ℕ → ℕ → List ℕ → Bool → Outcome (Option ℕ) → Type 0
Expected parent i ks failed o =
    Forked parent i ks (if failed then none else some i) (if failed then unused else ready) o

fork_in-Expected :
    (st : Processes) (parent i : ℕ) (ks : List ℕ) (directory kernel : ℕ)
    → Children st parent ks
    → Away i (parent ∷ ks)
    → i < length st.table
    → Expected parent i ks
        ((directory == 0) || (kernel == 0))
        (fork_in st parent i directory kernel)
unfolding fork_in
fork_in-Expected st parent i ks d kn v a inside = elim (Bool-cases (d == 0)) [
  | inl b ↦
      let f : (d == 0) || (kn == 0) ≡ true = ground arith in
      let p = record (copied st parent) { page_directory = 0; state = unused } in
      let q : fork_in st parent i d kn ≡ (none, adopt st parent i p, []) = rw b refl in
      by_path f q (adopt-Linked st parent i ks p v a inside refl [])
  | inr b ↦ elim (Bool-cases (kn == 0)) [
    | inl c ↦
        let f : (d == 0) || (kn == 0) ≡ true = ground arith in
        let p = record (copied st parent) {
          page_directory = d;
          kernel_stack = 0;
          state = unused;
        } in
        let es = destroy_directory d ∷ [] in
        let q : fork_in st parent i d kn ≡ (none, adopt st parent i p, es) = rw (b, c) refl in
        by_path f q (adopt-Linked st parent i ks p v a inside refl es)
    | inr c ↦
        let f : (d == 0) || (kn == 0) ≡ false = ground arith in
        let p = record (copied st parent) {
          page_directory = d;
          kernel_stack = kn;
          context = record (at_index st parent).context { eax = 0 };
        } in
        let es = copy_page kn (at_index st parent).kernel_stack ∷ [] in
        let q : fork_in st parent i d kn ≡ (some i, adopt st parent i p, es) = rw (b, c) refl in
        by_path f q (adopt-Linked st parent i ks p v a inside refl es)
  ]
]
  where
    by_path :
        {f g : Bool} {o u : Outcome (Option ℕ)}
        → f ≡ g
        → o ≡ u
        → Expected parent i ks g u
        → Expected parent i ks f o
    by_path {f} {g} {o} {u} e q x =
        subst (λ w. Expected parent i ks f w) (sym q)
          (subst (λ w. Expected parent i ks w u) (sym e) x)

-- Where the parent's chain of children is a chain of separate slots of the table, other than the
-- parent's own, and the free slot that is found is neither the parent's nor in that chain: whether or
-- not its allocations succeed, `process_fork` puts the new slot in front of the chain. If both succeed
-- the result is that slot and it is ready; else the result is NULL, the slot is unused, and it stays in
-- the chain.
pub fork-Linked :
    (st : Processes) (parent : ℕ) (ks : List ℕ) (i directory kernel : ℕ)
    → Children st parent ks
    → Away i (parent ∷ ks)
    → i < length st.table
    → process_alloc_slot st ≡ some i
    → let (r, st', es) = process_fork st (some parent) directory kernel in
      let failed = (directory == 0) || (kernel == 0) in
      (r ≡ (if failed then none else some i))
      × ((at_index st' i).state ≡ (if failed then unused else ready))
      × Linked st'.table (first_child st'.table parent) (i ∷ ks)
unfolding process_fork
fork-Linked st parent ks i d kn v a inside e =
    subst (Expected parent i ks ((d == 0) || (kn == 0))) (sym here)
      (fork_in-Expected st parent i ks d kn v a inside)
  where
    here : process_fork st (some parent) d kn ≡ fork_in st parent i d kn
    here = rw (e, process_fork) refl
