-- ===== src/Process/Wait.antt =====
-- `process_wait` of src/process.c over the chain of the parent's children.
use kfs.Prelude.{
  ℕ, zero, suc, ◌<◌, ◌≤◌, ◌≡◌, refl, sym, ap, subst, Option, none, some, List, [], ◌∷◌, length,
  get_or, get_or-modify_self, modify, All, Bool-cases, inl, inr, minus_one, to_int, some-injective,
}
use kfs.Process.{
  Process, Processes, zero_process, at_index, set_state, unused, is_zombie, max_processes,
}
use kfs.Process.Family.{process_wait, unlink}
use kfs.Process.Siblings.{
  next, first_child, Linked, Distinct, first_zombie, without, zombie_child-first, unlink-Linked,
  length-unlink,
}

-- The children of the process in slot `parent` are in the slots `ks`, in the order of the chain; no
-- slot is twice in it.
pub record Children (st : Processes) (parent : ℕ) (ks : List ℕ) : Type 0 where
  pub linked : Linked st.table (first_child st.table parent) ks
  pub inside : All (λ k. k < length st.table) (parent ∷ ks)
  pub distinct : Distinct (parent ∷ ks)
  pub few : length ks ≤ max_processes

-- A field that a change leaves alone.
field-modify :
    {A : Type 0} (g : Process → A) (f : Process → Process)
    → ((p : Process) → g (f p) ≡ g p)
    → (t : List Process) (i j : ℕ)
    → g (get_or (modify f t i) j zero_process) ≡ g (get_or t j zero_process)
field-modify g f e [] i j = refl
field-modify g f e (x ∷ t) zero zero = e x
field-modify g f e (x ∷ t) zero (suc j) = refl
field-modify g f e (x ∷ t) (suc i) zero = refl
field-modify g f e (x ∷ t) (suc i) (suc j) = field-modify g f e t i j

Linked-freed :
    (t : List Process) (i : ℕ) (c : Option ℕ) (ks : List ℕ)
    → Linked t c ks
    → Linked (modify (set_state unused) t i) c ks
Linked-freed t i c [] h = h
Linked-freed t i c (k ∷ ks) h = (
  h.0,
  subst (λ n. Linked (modify (set_state unused) t i) n ks)
      (sym (field-modify (λ p. p.next_sibling) (set_state unused) (λ p. refl) t i k))
      (Linked-freed t i (next t k) ks h.1),
)

first_zombie-inside :
    (t : List Process) (ks : List ℕ) {c : ℕ}
    → All (λ k. k < length t) ks
    → first_zombie t ks ≡ some c
    → c < length t
first_zombie-inside t [] i e = absurd (cc)
first_zombie-inside t (k ∷ ks) {c} i e =
    elim (Bool-cases (is_zombie (get_or t k zero_process).state)) [
      | inl z ↦ let s : k ≡ c = some-injective k c (rw z at e) in subst (λ j. j < length t) s i.0
      | inr z ↦ first_zombie-inside t ks i.1 (rw z at e)
    ]

-- While no child is a zombie, `process_wait` returns -1 and changes nothing.
wait_none :
    (st : Processes) (parent : ℕ) (ks : List ℕ)
    → Children st parent ks
    → first_zombie st.table ks ≡ none
    → process_wait st (some parent) ≡ (minus_one, none, st)
unfolding process_wait
wait_none st parent ks v e =
    rw
      (
        zombie_child-first max_processes st.table (first_child st.table parent) ks v.linked v.few,
        e,
        process_wait,
      )
      refl

-- `process_wait` reaps the first zombie along the chain of the parent's children: it returns its
-- identifier and exit status, leaves its slot unused, and leaves the parent's chain as it was but for
-- that child.
pub wait-Linked :
    (st : Processes) (parent : ℕ) (ks : List ℕ) (c : ℕ)
    → Children st parent ks
    → first_zombie st.table ks ≡ some c
    → let (r, status, st') = process_wait st (some parent) in
      (r ≡ to_int (at_index st c).pid)
      × (status ≡ some (at_index st c).exit_status)
      × ((at_index st' c).state ≡ unused)
      × Linked st'.table (first_child st'.table parent) (without ks c)
unfolding process_wait
wait-Linked st parent ks c v e =
    rw
      (
        zombie_child-first max_processes st.table (first_child st.table parent) ks v.linked v.few,
        e,
        process_wait,
      )
      (refl, refl, freed, chain)
  where
    u : List Process
    u = unlink st.table parent c

    freed : (get_or (modify (set_state unused) u c) c zero_process).state ≡ unused
    freed =
        ap (λ p. p.state)
          (get_or-modify_self (set_state unused) u c zero_process
            (rw (length-unlink st.table parent c) (first_zombie-inside st.table ks v.inside.1 e)))

    chain :
        Linked
          (modify (set_state unused) u c)
          (first_child (modify (set_state unused) u c) parent)
          (without ks c)
    chain =
        subst (λ n. Linked (modify (set_state unused) u c) n (without ks c))
          (sym (field-modify (λ p. p.children) (set_state unused) (λ p. refl) u c parent))
          (Linked-freed u c (first_child u parent) (without ks c)
            (unlink-Linked st.table parent c ks v.linked v.inside v.distinct v.few))
