-- ===== src/Process/Progress.antt =====
-- No ready process waits for ever: repeated calls of `process_schedule` of src/process.c.
use kfs.Prelude.{
  ℕ, zero, suc, ◌+◌, ◌<◌, ◌≤◌, ◌≡◌, ◌≢◌, ◌⊎◌, inl, inr, refl, ap, subst, true, false, Option, none,
  some, List, [], ◌==◌, length, length-modify, get_or-modify_ne, modify, arith, Bool-cases, ◌∙◌,
}
use kfs.Process.{Process, Processes, running, is_ready, zero_process, set_state}
use kfs.Process.Signals.{process_signal_process}
use kfs.Process.Schedule.{pick, step_down, process_switch, process_schedule}
use kfs.Process.Fair.{ready_at, distance, Nearest, ready_at-lt, pick-Nearest}

-- Slot `k` waits while slot `cur` is the current process.
pub record Waits (st : Processes) (cur k : ℕ) : Type 0 where
  pub at_work : st.current_process ≡ some cur
  pub inside : cur < length st.table
  pub willing : ready_at st.table k ≡ true
  pub other : cur ≢ k

abbrev emptied : Process → Process
emptied p = record p { signal_queue = [] }

-- The table after a switch from slot `cur` to slot `j`.
abbrev switch_table : List Process → ℕ → ℕ → List Process
switch_table t cur j = modify emptied (modify (set_state running) (modify step_down t cur) j) j

length-switch_table : (t : List Process) (cur j : ℕ) → length (switch_table t cur j) ≡ length t
length-switch_table t cur j =
    length-modify emptied (modify (set_state running) (modify step_down t cur) j) j
    ∙ (length-modify (set_state running) (modify step_down t cur) j ∙ length-modify step_down t cur)

ready-switch_table :
    (t : List Process) (cur j k : ℕ)
    → cur ≢ k
    → j ≢ k
    → ready_at (switch_table t cur j) k ≡ ready_at t k
ready-switch_table t cur j k h g =
    ap (λ (p : Process). is_ready p.state)
      (get_or-modify_ne emptied (modify (set_state running) (modify step_down t cur) j) j k
          zero_process g
        ∙ (get_or-modify_ne (set_state running) (modify step_down t cur) j k zero_process g
            ∙ get_or-modify_ne step_down t cur k zero_process h))

switch_lem :
    (st : Processes) (cur j : ℕ)
    → st.current_process ≡ some cur
    → pick st (some cur) ≡ some j
    → cur ≢ j
    → ((process_schedule st).0.current_process ≡ some j)
      × ((process_schedule st).0.table ≡ switch_table st.table cur j)
unfolding process_schedule process_switch process_signal_process
switch_lem st cur j e p h =
    let d : (cur == j) ≡ false = ground arith in
    let q : pick st st.current_process ≡ some j = rw e p in
    rw (q, process_schedule, e, d) (refl, refl)

-- One call serves the process that waits, or brings it nearer.
schedule_step :
    (st : Processes) (cur k : ℕ)
    → Waits st cur k
    → let st' = (process_schedule st).0 in
      (st'.current_process ≡ some k)
      ⊎ ((j : ℕ) × Waits st' j k
          × (distance (length st'.table) j k < distance (length st.table) cur k))
schedule_step st cur k w = go (pick st (some cur)) refl
  where
    near : Nearest st.table cur (pick st (some cur))
    near = pick-Nearest st cur w.inside

    go :
        (o : Option ℕ)
        → pick st (some cur) ≡ o
        → let st' = (process_schedule st).0 in
          (st'.current_process ≡ some k)
          ⊎ ((j : ℕ) × Waits st' j k
              × (distance (length st'.table) j k < distance (length st.table) cur k))
    go none e =
        let f = subst (Nearest st.table cur) e near in absurd (ground (arith, f k, w.willing))
    go (some j) e =
        let f = subst (Nearest st.table cur) e near in
        let closer = f.1 k w.willing in
        let inj = ready_at-lt st.table j f.0 in
        let ink = ready_at-lt st.table k w.willing in
        let away : cur ≢ j = ground (arith, w.other) in
        let s = switch_lem st cur j w.at_work e away in
        elim (Bool-cases (j == k)) [
          | inl q ↦ let q' : j ≡ k = ground arith in inl (s.0 ∙ ap some q')
          | inr q ↦ inr (
            j,
            record {
              at_work = s.0;
              inside = rw (s.1, length-switch_table st.table cur j) inj;
              willing =
                  rw (s.1, ready-switch_table st.table cur j k w.other (ground arith)) w.willing;
              other = ground arith;
            },
            rw (s.1, length-switch_table st.table cur j) (ground arith),
          )
        ]

-- `n` calls of the scheduler with nothing between them.
unfoldable pub rounds : ℕ → Processes → Processes
rounds zero st = st
rounds (suc n) st = rounds n (process_schedule st).0

-- A ready process that waits behind the current one runs after at most as many further calls of the
-- scheduler as there are slots from the current one to it, going round, if nothing but the scheduler
-- changes the table in between.
pub rounds-serve :
    (d : ℕ) (st : Processes) (cur k : ℕ)
    → Waits st cur k
    → distance (length st.table) cur k ≤ d
    → (n : ℕ) × (n ≤ d + 1) × ((rounds n st).current_process ≡ some k)
unfolding rounds
rounds-serve zero st cur k w h = elim (schedule_step st cur k w) [
  | inl e ↦ (1, omega arith, e)
  | inr (j, w', less) ↦ absurd (omega arith)
]
rounds-serve (suc d) st cur k w h = elim (schedule_step st cur k w) [
  | inl e ↦ (1, omega arith, e)
  | inr (j, w', less) ↦
      let r = rounds-serve d (process_schedule st).0 j k w' (omega arith) in
      (suc r.0, omega arith, r.2)
]
