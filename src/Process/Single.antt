-- ===== src/Process/Single.antt =====
-- At most one process runs, and it is the current one: src/process.c.
use kfs.Prelude.{
  ℕ, zero, suc, ◌≡◌, inl, inr, refl, ap, Bool, true, false, Option, none, some, List, [], ◌∷◌,
  replicate, ◌==◌, get_or-modify_ne, set, modify, arith, Bool-cases, Option-cases, ℤ, pos, negsuc,
}
use kfs.Process.{
  Process, Processes, running, ready, is_running, zero_process, set_state, boot_processes, change,
  max_processes,
}
use kfs.Process.Signals.{
  process_signal_register, process_signal_send, process_kill, process_signal_process,
  process_handle_exception, signal_number, signal_for, exception_to_signal_map, exception_for,
  raise_at, push_signal,
}
use kfs.Process.Schedule.{
  process_schedule, process_switch, process_set_current, pick, switched, is_current, step_down,
  displace, stop_current,
}
use kfs.Process.Calls.{
  Call, create, fork, exit, wait, register, kill, process_signals, exception, schedule, set_current,
  mmap, brk, apply, run,
}
use kfs.Process.Mapping.{mmap-OneRunning, brk-OneRunning}
use kfs.Process.Running.{
  running_at, OneRunning, Fewer-modify, keep, create-OneRunning, fork-OneRunning, exit-OneRunning,
  wait-OneRunning,
}

-- An update of one entry that starts no process.
keep_change :
    (st : Processes) (i : ℕ) (f : Process → Process)
    → OneRunning st
    → ((p : Process) → is_running (f p).state ≡ true → is_running p.state ≡ true)
    → OneRunning (change st i f)
keep_change st i f v h = keep st (change st i f) v (Fewer-modify f st.table i h) refl

send-OneRunning :
    (st : Processes) (p : Option ℕ) (signal : ℤ) (memory : Bool)
    → OneRunning st
    → OneRunning (process_signal_send st p signal memory).1
unfolding process_signal_send
send-OneRunning st none signal memory v = v
send-OneRunning st (some i) signal memory v = elim (Option-cases (signal_number signal)) [
  | inl e ↦ rw (e, process_signal_send) v
  | inr (s, e) ↦ elim (Bool-cases memory) [
    | inl b ↦ rw (e, process_signal_send, b) (keep_change st i (push_signal s) v (λ p h. h))
    | inr b ↦ rw (e, process_signal_send, b) v
  ]
]

kill-OneRunning :
    (st : Processes) (p : Option ℕ) (signal : ℤ) (memory : Bool)
    → OneRunning st
    → OneRunning (process_kill st p signal memory)
unfolding process_kill
kill-OneRunning st none signal memory v = v
kill-OneRunning st (some i) signal memory v = send-OneRunning st (some i) signal memory v

register-OneRunning :
    (st : Processes) (p : Option ℕ) (signal : ℤ) (handler : ℕ)
    → OneRunning st
    → OneRunning (process_signal_register st p signal handler).1
unfolding process_signal_register
register-OneRunning st none signal handler v = v
register-OneRunning st (some i) signal handler v = elim (Option-cases (signal_number signal)) [
  | inl e ↦ rw (e, process_signal_register) v
  | inr (s, e) ↦
      rw (e, process_signal_register)
        (keep_change st i (λ p. record p { signal_handlers = set p.signal_handlers s handler }) v
          (λ p h. h))
]

signals-OneRunning :
    (st : Processes) (p : Option ℕ) → OneRunning st → OneRunning (process_signal_process st p).0
unfolding process_signal_process
signals-OneRunning st none v = v
signals-OneRunning st (some i) v =
    keep_change st i (λ p. record p { signal_queue = [] }) v (λ p h. h)

raise-OneRunning :
    (st : Processes) (i : ℕ) (signal : ℤ) (memory : Bool)
    → OneRunning st
    → OneRunning (raise_at st i signal memory).0
raise-OneRunning st i (negsuc n) memory v = v
raise-OneRunning st i (pos n) memory v =
    signals-OneRunning (process_signal_send st (some i) (pos n) memory).1 (some i)
      (send-OneRunning st (some i) (pos n) memory v)

exception_for-OneRunning :
    (st : Processes) (c : Option ℕ) (e : ℕ) (memory : Bool)
    → OneRunning st
    → OneRunning (exception_for st c e memory).0
exception_for-OneRunning st none e memory v = v
exception_for-OneRunning st (some i) e memory v =
    raise-OneRunning st i (signal_for exception_to_signal_map e) memory v

exception-OneRunning :
    (st : Processes) (e : ℕ) (memory : Bool)
    → OneRunning st
    → OneRunning (process_handle_exception st e memory).0
unfolding process_handle_exception
exception-OneRunning st e memory v = exception_for-OneRunning st st.current_process e memory v

-- At most slot `i` runs.
abbrev Only : ℕ → List Process → Type 0
Only i t = (k : ℕ) → running_at t k ≡ true → i ≡ k

Only-start : (t : List Process) (i : ℕ) → Only i t → Only i (modify (set_state running) t i)
Only-start t i h k e = elim (Bool-cases (i == k)) [
  | inl b ↦ ground arith
  | inr b ↦ h k (rw (get_or-modify_ne (set_state running) t i k zero_process (ground arith)) at e)
]

stopped :
    (f : Process → Process) (u : List Process) (j : ℕ)
    → ((p : Process) → is_running (f p).state ≡ false)
    → running_at (modify f u j) j ≡ true
    → ⊥
stopped f [] j h q = cc
stopped f (x ∷ u) zero h q = cc (h x)
stopped f (x ∷ u) (suc j) h q = stopped f u j h q

-- A process whose state becomes one that does not run leaves the others as they are.
Only-stop :
    (f : Process → Process) (t : List Process) (c i : ℕ)
    → ((p : Process) → is_running (f p).state ≡ false)
    → Only c t
    → Only i (modify f t c)
Only-stop f t c i h o k e = elim (Bool-cases (c == k)) [
  | inl b ↦ let b' : k ≡ c = ground arith in absurd (stopped f t c h (rw b' at e))
  | inr b ↦
      let g : c ≡ k = o k (rw (get_or-modify_ne f t c k zero_process (ground arith)) at e) in
      absurd (ground arith)
]

stop-Only :
    (st : Processes) (c : Option ℕ) (i : ℕ)
    → st.current_process ≡ c
    → OneRunning st
    → Only i (stop_current st c).table
stop-Only st none i e v = λ k h. absurd (cc (v k h))
stop-Only st (some c) i e v =
    Only-stop step_down st.table c i (λ p. ground arith) (λ k h. ground (arith, v k h))

switch-OneRunning :
    (st : Processes) (n : ℕ) → OneRunning st → OneRunning (process_switch st (some n)).0
unfolding process_switch
switch-OneRunning st n v =
    signals-OneRunning (switched st n) (some n)
      (λ k e. ap some (Only-start _ n (stop-Only st st.current_process n refl v) k e))

schedule-OneRunning : (st : Processes) → OneRunning st → OneRunning (process_schedule st).0
unfolding process_schedule
schedule-OneRunning st v = elim (Option-cases (pick st st.current_process)) [
  | inl e ↦ rw (e, process_schedule) v
  | inr (n, e) ↦ elim (Bool-cases (is_current st.current_process n)) [
    | inl b ↦ rw (e, process_schedule, b) v
    | inr b ↦ rw (e, process_schedule, b) (switch-OneRunning st n v)
  ]
]

displace-Only :
    (st : Processes) (c : Option ℕ) (i : ℕ)
    → st.current_process ≡ c
    → OneRunning st
    → Only i (displace st c (some i)).table
displace-Only st none i e v = λ k h. absurd (cc (v k h))
displace-Only st (some c) i e v = elim (Bool-cases (c == i)) [
  | inl b ↦ rw b (λ k h. ground (arith, v k h))
  | inr b ↦
      rw b (Only-stop (set_state ready) st.table c i (λ p. refl) (λ k h. ground (arith, v k h)))
]

displace-none :
    (st : Processes) (c : Option ℕ) (k : ℕ)
    → st.current_process ≡ c
    → OneRunning st
    → running_at (displace st c none).table k ≡ true
    → ⊥
displace-none st none k e v h = cc (v k h)
displace-none st (some c) k e v h =
    let o =
      Only-stop (set_state ready) st.table c (suc k) (λ p. refl) (λ j g. ground (arith, v j g)) in
    let q : suc k ≡ k = o k h in omega arith

set_current-OneRunning :
    (st : Processes) (p : Option ℕ) → OneRunning st → OneRunning (process_set_current st p).0
unfolding process_set_current
set_current-OneRunning st none v = λ k e. absurd (displace-none st st.current_process k refl v e)
set_current-OneRunning st (some i) v =
    λ k e. ap some (Only-start _ i (displace-Only st st.current_process i refl v) k e)

apply-OneRunning : (st : Processes) (c : Call) → OneRunning st → OneRunning (apply st c)
unfolding apply
apply-OneRunning st (create entry_point uid d kn us) v =
    create-OneRunning st entry_point uid d kn us v
apply-OneRunning st (fork p d kn) v = fork-OneRunning st p d kn v
apply-OneRunning st (exit p status) v = exit-OneRunning st p status v
apply-OneRunning st (wait p) v = wait-OneRunning st p v
apply-OneRunning st (register p signal handler) v = register-OneRunning st p signal handler v
apply-OneRunning st (kill p signal memory) v = kill-OneRunning st p signal memory v
apply-OneRunning st (process_signals p) v = signals-OneRunning st p v
apply-OneRunning st (exception e memory) v = exception-OneRunning st e memory v
apply-OneRunning st schedule v = schedule-OneRunning st v
apply-OneRunning st (set_current p) v = set_current-OneRunning st p v
apply-OneRunning st (mmap p addr length prot flags alloc phys) v =
    mmap-OneRunning st p addr length prot flags alloc phys v
apply-OneRunning st (brk p addr alloc phys) v = brk-OneRunning st p addr alloc phys v

run-OneRunning : (st : Processes) (cs : List Call) → OneRunning st → OneRunning (run st cs)
unfolding run
run-OneRunning st [] v = v
run-OneRunning st (c ∷ cs) v = run-OneRunning (apply st c) cs (apply-OneRunning st c v)

nothing_runs : (n k : ℕ) → running_at (replicate n zero_process) k ≡ true → ⊥
nothing_runs zero k h = cc
nothing_runs (suc n) zero h = cc
nothing_runs (suc n) (suc k) h = nothing_runs n k h

-- After any history of calls from boot on, with any answers of the allocator and the paging code, a
-- process that is marked running is the current process; so at most one is.
pub run_single :
    (cs : List Call) (k : ℕ)
    → running_at (run boot_processes cs).table k ≡ true
    → (run boot_processes cs).current_process ≡ some k
run_single cs = run-OneRunning boot_processes cs (λ k h. absurd (nothing_runs max_processes k h))
