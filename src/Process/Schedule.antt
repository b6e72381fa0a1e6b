-- ===== src/Process/Schedule.antt =====
-- The round-robin scheduler of src/process.c.
use kfs.Prelude.{
  ℕ, ◌+◌, Bool, true, false, ◌&&◌, Option, none, some, List, [], ◌∷◌, ◌++◌, ◌==◌, if◌then◌else◌,
  find_index,
}
use kfs.Process.{
  Process, Processes, running, ready, is_running, is_ready, set_state, at_index, change, Effect,
  switch_directory,
}
use kfs.Process.Signals.{process_signal_process}

-- The first pass over the table from slot `i` on, with `found_current`.
unfoldable pub scan_after : List Process → ℕ → ℕ → Bool → Option ℕ
scan_after [] i cur found = none
scan_after (p ∷ ps) i cur found =
    let skip = scan_after ps (i + 1) cur true in
    let on = scan_after ps (i + 1) cur found in
    if i == cur then skip else if found && is_ready p.state then some i else on

-- The second pass, which stops at the current process.
unfoldable pub scan_before : List Process → ℕ → ℕ → Option ℕ
scan_before [] i cur = none
scan_before (p ∷ ps) i cur =
    let on = scan_before ps (i + 1) cur in
    if i == cur then none else if is_ready p.state then some i else on

abbrev pub is_ready_process : Process → Bool
is_ready_process p = is_ready p.state

-- The two passes, then the current process itself if it is ready.
unfoldable pub next_after : Processes → ℕ → Option ℕ
unfolding scan_after scan_before
next_after st cur = elim (scan_after st.table 0 cur false) [
  | some n ↦ some n
  | none ↦ elim (scan_before st.table 0 cur) [
    | some n ↦ some n
    | none ↦ if is_ready (at_index st cur).state then some cur else none
  ]
]

-- The process that `process_schedule` picks.
unfoldable pub pick : Processes → Option ℕ → Option ℕ
unfolding next_after
pick st (some cur) = next_after st cur
pick st none = find_index is_ready_process st.table

-- A running process becomes ready, any other keeps its state.
abbrev pub step_down : Process → Process
step_down p = record p { state = if is_running p.state then ready else p.state }

abbrev pub stop_current : Processes → Option ℕ → Processes
stop_current st none = st
stop_current st (some c) = change st c step_down

abbrev pub load_directory : ℕ → List Effect
load_directory d = if d == 0 then [] else switch_directory d ∷ []

-- The table after `process_switch` has set the current process, before its signals are delivered.
abbrev pub switched : Processes → ℕ → Processes
switched st next = record (change (stop_current st st.current_process) next (set_state running)) {
  current_process = some next;
}

unfoldable pub process_switch : Processes → Option ℕ → Processes × List Effect
unfolding process_signal_process
process_switch st none = (st, [])
process_switch st (some next) =
    let (st', es) = process_signal_process (switched st next) (some next) in
    (st', load_directory (at_index st next).page_directory ++ es)

abbrev pub is_current : Option ℕ → ℕ → Bool
is_current none n = false
is_current (some c) n = c == n

unfoldable pub process_schedule : Processes → Processes × List Effect
unfolding pick process_switch
process_schedule st = elim (pick st st.current_process) [
  | none ↦ (st, [])
  | some n ↦ if is_current st.current_process n then (st, []) else process_switch st (some n)
]

-- Any other current process becomes ready, whatever its state.
abbrev pub displace : Processes → Option ℕ → Option ℕ → Processes
displace st none proc = st
displace st (some c) none = change st c (set_state ready)
displace st (some c) (some i) = if c == i then st else change st c (set_state ready)

unfoldable pub process_set_current : Processes → Option ℕ → Processes × List Effect
process_set_current st none =
    (record (displace st st.current_process none) { current_process = none }, [])
process_set_current st (some i) = (
  record (change (displace st st.current_process (some i)) i (set_state running)) {
    current_process = some i;
  },
  load_directory (at_index st i).page_directory,
)
