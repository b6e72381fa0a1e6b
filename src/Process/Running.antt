-- ===== src/Process/Running.antt =====
-- The operations on families in src/process.c start no process.
use kfs.Prelude.{
  ℕ, zero, suc, ◌≡◌, inl, inr, refl, Bool, true, false, Option, none, some, List, [], ◌∷◌, ◌==◌,
  get_or, set, modify, Bool-cases, Option-cases, ◌∙◌, ℤ,
}
use kfs.Process.{
  Process, Processes, unused, is_running, zero_process, at_index, set_state, process_alloc_slot,
  put, max_processes,
}
use kfs.Process.Family.{
  process_create, create_in, process_fork, fork_in, process_exit, process_wait, orphan, unlink,
  unlink_after, zombie_child, buried, adopt, next_id,
}

abbrev pub running_at : List Process → ℕ → Bool
running_at t k = is_running (get_or t k zero_process).state

-- A process that runs is the current one.
abbrev pub OneRunning : Processes → Type 0
OneRunning st = (k : ℕ) → running_at st.table k ≡ true → st.current_process ≡ some k

-- No process of `u` runs that does not run in `t`.
abbrev pub Fewer : List Process → List Process → Type 0
Fewer t u = (k : ℕ) → running_at u k ≡ true → running_at t k ≡ true

Fewer-set :
    (t : List Process) (i : ℕ) (p : Process) → is_running p.state ≡ false → Fewer t (set t i p)
Fewer-set [] i p h k e = e
Fewer-set (x ∷ t) zero p h zero e = absurd (cc)
Fewer-set (x ∷ t) zero p h (suc k) e = e
Fewer-set (x ∷ t) (suc i) p h zero e = e
Fewer-set (x ∷ t) (suc i) p h (suc k) e = Fewer-set t i p h k e

pub Fewer-modify :
    (f : Process → Process) (t : List Process) (i : ℕ)
    → ((p : Process) → is_running (f p).state ≡ true → is_running p.state ≡ true)
    → Fewer t (modify f t i)
Fewer-modify f [] i h k e = e
Fewer-modify f (x ∷ t) zero h zero e = h x e
Fewer-modify f (x ∷ t) zero h (suc k) e = e
Fewer-modify f (x ∷ t) (suc i) h zero e = e
Fewer-modify f (x ∷ t) (suc i) h (suc k) e = Fewer-modify f t i h k e

Fewer-orphan : (n : ℕ) (t : List Process) (c : Option ℕ) → Fewer t (orphan n t c)
unfolding orphan
Fewer-orphan zero t c k e = e
Fewer-orphan (suc n) t none k e = e
Fewer-orphan (suc n) t (some c) k e =
    Fewer-modify (λ q. record q { parent = none }) t c (λ p h. h) k
      (Fewer-orphan n (modify (λ q. record q { parent = none }) t c) _ k e)

Fewer-unlink_after : (n : ℕ) (t : List Process) (q child : ℕ) → Fewer t (unlink_after n t q child)
unfolding unlink_after
Fewer-unlink_after zero t q child = λ k e. e
Fewer-unlink_after (suc n) t q child = elim (Option-cases (get_or t q zero_process).next_sibling) [
  | inl h ↦ rw (h, unlink_after) (λ k e. e)
  | inr (c, h) ↦ elim (Bool-cases (c == child)) [
    | inl b ↦
        rw (h, unlink_after, b)
          (Fewer-modify
            (λ s. record s { next_sibling = (get_or t child zero_process).next_sibling }) t q
            (λ p e. e))
    | inr b ↦ rw (h, unlink_after, b) (Fewer-unlink_after n t c child)
  ]
]

Fewer-unlink : (t : List Process) (parent child : ℕ) → Fewer t (unlink t parent child)
unfolding unlink
Fewer-unlink t parent child = elim (Option-cases (get_or t parent zero_process).children) [
  | inl h ↦ rw (h, unlink) (λ k e. e)
  | inr (c, h) ↦ elim (Bool-cases (c == child)) [
    | inl b ↦
        rw (h, unlink, b)
          (Fewer-modify (λ s. record s { children = (get_or t child zero_process).next_sibling }) t
            parent (λ p e. e))
    | inr b ↦ rw (h, unlink, b) (Fewer-unlink_after max_processes t c child)
  ]
]

-- An operation that starts no process and leaves the current one current.
pub keep :
    (st st' : Processes)
    → OneRunning st
    → Fewer st.table st'.table
    → st'.current_process ≡ st.current_process
    → OneRunning st'
keep st st' v f e k h = e ∙ v k (f k h)

keep_put :
    (st : Processes) (i n : ℕ) (p : Process)
    → OneRunning st
    → is_running p.state ≡ false
    → OneRunning (record (put st i p) { next_pid = n })
keep_put st i n p v h k e = v k (Fewer-set st.table i p h k e)

pub create-OneRunning :
    (st : Processes) (entry_point uid directory kernel user : ℕ)
    → OneRunning st
    → OneRunning (process_create st entry_point uid directory kernel user).1
unfolding process_create create_in
create-OneRunning st entry_point uid d kn us v = elim (Option-cases (process_alloc_slot st)) [
  | inl e ↦ rw (e, process_create) v
  | inr (i, e) ↦ elim (Bool-cases (d == 0)) [
    | inl b ↦ rw (e, process_create, b) (keep_put st i (next_id st) _ v refl)
    | inr b ↦ elim (Bool-cases (kn == 0)) [
      | inl c ↦ rw (e, process_create, b, c) (keep_put st i (next_id st) _ v refl)
      | inr c ↦ elim (Bool-cases (us == 0)) [
        | inl f ↦ rw (e, process_create, b, c, f) (keep_put st i (next_id st) _ v refl)
        | inr f ↦ rw (e, process_create, b, c, f) (keep_put st i (next_id st) _ v refl)
      ]
    ]
  ]
]

adopt-OneRunning :
    (st : Processes) (parent i : ℕ) (p : Process)
    → OneRunning st
    → is_running p.state ≡ false
    → OneRunning (adopt st parent i p)
adopt-OneRunning st parent i p v h k e = v k (
    Fewer-set st.table i p h k
      (Fewer-modify (λ q. record q { children = some i }) (set st.table i p) parent (λ q g. g) k e))

pub fork-OneRunning :
    (st : Processes) (parent : Option ℕ) (directory kernel : ℕ)
    → OneRunning st
    → OneRunning (process_fork st parent directory kernel).1
unfolding process_fork fork_in
fork-OneRunning st none d kn v = v
fork-OneRunning st (some p) d kn v = elim (Option-cases (process_alloc_slot st)) [
  | inl e ↦ rw (e, process_fork) v
  | inr (i, e) ↦ elim (Bool-cases (d == 0)) [
    | inl b ↦ rw (e, process_fork, b) (adopt-OneRunning st p i _ v refl)
    | inr b ↦ elim (Bool-cases (kn == 0)) [
      | inl c ↦ rw (e, process_fork, b, c) (adopt-OneRunning st p i _ v refl)
      | inr c ↦ rw (e, process_fork, b, c) (adopt-OneRunning st p i _ v refl)
    ]
  ]
]

pub exit-OneRunning :
    (st : Processes) (p : Option ℕ) (status : ℤ)
    → OneRunning st
    → OneRunning (process_exit st p status).0
unfolding process_exit
exit-OneRunning st none status v = v
exit-OneRunning st (some i) status v = λ k e. v k (
    Fewer-modify (buried status) st.table i (λ p h. absurd (cc)) k
      (Fewer-orphan max_processes (modify (buried status) st.table i) _ k e))

pub wait-OneRunning :
    (st : Processes) (p : Option ℕ) → OneRunning st → OneRunning (process_wait st p).2
unfolding process_wait
wait-OneRunning st none v = v
wait-OneRunning st (some p) v =
    elim (Option-cases (zombie_child max_processes st.table (at_index st p).children)) [
      | inl e ↦ rw (e, process_wait) v
      | inr (c, e) ↦
          rw (e, process_wait)
            (λ k h. v k (
              Fewer-unlink st.table p c k
                (Fewer-modify (set_state unused) (unlink st.table p c) c (λ q g. absurd (cc)) k h)))
    ]
