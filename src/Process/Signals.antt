-- ===== src/Process/Signals.antt =====
-- Signals of processes and the exceptions that become signals, in src/process.c.
use kfs.Prelude.{
  ℕ, Bool, Option, none, some, List, [], ◌∷◌, ◌==◌, ltb, ℤ, pos, negsuc, minus_one, to_int, get_or,
  set, if◌then◌else◌,
}
use kfs.Process.{Process, Processes, at_index, change, Effect, call_handler, process_get_by_pid}

-- `signal >= 0 && signal < 32`, with the signal as a number.
abbrev pub signal_number : ℤ → Option ℕ
signal_number (pos n) = if ltb n 32 then some n else none
signal_number (negsuc n) = none

abbrev pub register_at : Processes → ℕ → Option ℕ → ℕ → ℤ × Processes
register_at st i none handler = (minus_one, st)
register_at st i (some s) handler =
    (pos 0, change st i (λ p. record p { signal_handlers = set p.signal_handlers s handler }))

-- A handler is its address, 0 for none.
unfoldable pub process_signal_register : Processes → Option ℕ → ℤ → ℕ → ℤ × Processes
process_signal_register st none signal handler = (minus_one, st)
process_signal_register st (some i) signal handler = register_at st i (signal_number signal) handler

abbrev pub push_signal : ℕ → Process → Process
push_signal s p = record p { signal_queue = s ∷ p.signal_queue }

abbrev pub send_to : Processes → ℕ → Option ℕ → Bool → ℤ × Processes
send_to st i none memory = (minus_one, st)
send_to st i (some s) memory =
    if memory then (pos 0, change st i (push_signal s)) else (minus_one, st)

-- `memory` says whether `kmalloc` finds room for the entry.
unfoldable pub process_signal_send : Processes → Option ℕ → ℤ → Bool → ℤ × Processes
process_signal_send st none signal memory = (minus_one, st)
process_signal_send st (some i) signal memory = send_to st i (signal_number signal) memory

-- `process_kill` drops the result.
unfoldable pub process_kill : Processes → Option ℕ → ℤ → Bool → Processes
unfolding process_signal_send
process_kill st none signal memory = st
process_kill st (some i) signal memory = (process_signal_send st (some i) signal memory).1

unfoldable pub sys_kill : Processes → (pid signal : ℕ) → Bool → ℤ × Processes
unfolding process_kill
sys_kill st pid signal memory = elim (process_get_by_pid st pid) [
  | none ↦ (minus_one, st)
  | some i ↦ (pos 0, process_kill st (some i) (to_int signal) memory)
]

-- The handlers that the queue calls, from its front on. A signal with no handler is only printed.
abbrev pub deliveries : List ℕ → List ℕ → List Effect
deliveries handlers [] = []
deliveries handlers (s ∷ ss) =
    if get_or handlers s 0 == 0
    then deliveries handlers ss
    else call_handler (get_or handlers s 0) s ∷ deliveries handlers ss

unfoldable pub process_signal_process : Processes → Option ℕ → Processes × List Effect
process_signal_process st none = (st, [])
process_signal_process st (some i) = (
  change st i (λ p. record p { signal_queue = [] }),
  deliveries (at_index st i).signal_handlers (at_index st i).signal_queue,
)

-- `exception_to_signal_map`, as pairs of exception and signal.
abbrev pub exception_to_signal_map : List (ℕ × ℕ)
exception_to_signal_map =
    (0, 8)
    ∷ (1, 5)
    ∷ (3, 5)
    ∷ (4, 8)
    ∷ (5, 11)
    ∷ (6, 4)
    ∷ (7, 8)
    ∷ (8, 6)
    ∷ (10, 11)
    ∷ (11, 11)
    ∷ (12, 11)
    ∷ (13, 11)
    ∷ (14, 11)
    ∷ (16, 8)
    ∷ (17, 7)
    ∷ (18, 6)
    ∷ (19, 8)
    ∷ []

-- The search of the table; -1 where it has no entry.
unfoldable pub signal_for : List (ℕ × ℕ) → ℕ → ℤ
signal_for [] e = minus_one
signal_for ((x, s) ∷ m) e = if x == e then pos s else signal_for m e

abbrev pub raise_at : Processes → ℕ → ℤ → Bool → Processes × List Effect
raise_at st i (negsuc n) memory = (st, [])
raise_at st i (pos s) memory =
    process_signal_process (process_signal_send st (some i) (pos s) memory).1 (some i)

abbrev pub exception_for : Processes → Option ℕ → ℕ → Bool → Processes × List Effect
exception_for st none e memory = (st, [])
exception_for st (some i) e memory = raise_at st i (signal_for exception_to_signal_map e) memory

unfoldable pub process_handle_exception : Processes → ℕ → Bool → Processes × List Effect
unfolding signal_for process_signal_send process_signal_process
process_handle_exception st e memory = exception_for st st.current_process e memory
