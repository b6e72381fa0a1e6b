-- ===== src/Process/Calls.antt =====
-- The operations on the process table as one step function, for histories of calls. `process_munmap`
-- does not change the table.
use kfs.Prelude.{ℕ, Bool, Option, List, [], ◌∷◌, ℤ}
use kfs.Process.{Processes}
use kfs.Process.Family.{process_create, process_fork, process_exit, process_wait}
use kfs.Process.Memory.{process_mmap, process_brk}
use kfs.Process.Signals.{
  process_signal_register, process_kill, process_signal_process, process_handle_exception,
}
use kfs.Process.Schedule.{process_schedule, process_set_current}

-- A call with its arguments and with what the allocator and the paging code answer to it.
pub data Call : Type 0 where
  create : (entry_point uid directory kernel user : ℕ) → Call
  fork : Option ℕ → (directory kernel : ℕ) → Call
  exit : Option ℕ → ℤ → Call
  wait : Option ℕ → Call
  register : Option ℕ → ℤ → ℕ → Call
  kill : Option ℕ → ℤ → Bool → Call
  process_signals : Option ℕ → Call
  exception : ℕ → Bool → Call
  schedule : Call
  set_current : Option ℕ → Call
  mmap : Option ℕ → (addr length prot flags : ℕ) → (alloc phys : ℕ → ℕ) → Call
  brk : Option ℕ → ℕ → (alloc phys : ℕ → ℕ) → Call

-- The table after a call.
unfoldable pub apply : Processes → Call → Processes
apply st (create entry_point uid directory kernel user) =
    (process_create st entry_point uid directory kernel user).1
apply st (fork parent directory kernel) = (process_fork st parent directory kernel).1
apply st (exit p status) = (process_exit st p status).0
apply st (wait parent) = (process_wait st parent).2
apply st (register p signal handler) = (process_signal_register st p signal handler).1
apply st (kill p signal memory) = process_kill st p signal memory
apply st (process_signals p) = (process_signal_process st p).0
apply st (exception e memory) = (process_handle_exception st e memory).0
apply st schedule = (process_schedule st).0
apply st (set_current p) = (process_set_current st p).0
apply st (mmap p addr length prot flags alloc phys) =
    (process_mmap st p addr length prot flags alloc phys).1
apply st (brk p addr alloc phys) = (process_brk st p addr alloc phys).1

unfoldable pub run : Processes → List Call → Processes
run st [] = st
run st (c ∷ cs) = run (apply st c) cs
