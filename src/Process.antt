-- ===== src/Process.antt =====
-- The process table, src/process.c with include/process.h: the data and its lookups.
--
-- A pointer into `process_table` is an index, NULL is `none`; other pointers are addresses, NULL 0.
-- What the allocator and the paging code answer to a call is an argument of the operation, and what
-- an operation asks of them is in the list of effects that it returns, in order. A handler that the
-- kernel calls is such an effect: it is taken to leave the table alone. A queue of signals is a list,
-- so that freeing its entries is no effect; a forked child, whose queue shares the parent's entries
-- in C, has a copy. The working directory is the text before its end mark; the
-- sections of a process are left out.
pub mod Family
pub mod Signals
pub mod Schedule
pub mod Calls
pub mod Directory
pub mod Memory
mod Break
mod Mapping
mod Running
mod Single
pub mod Fair
pub mod Progress
mod Siblings
mod Wait
mod Adopt
mod Tests
use kfs.Prelude.{
  ℕ, Bool, true, false, ◌&&◌, not, Option, none, some, List, [], ◌==◌, ℤ, pos, get_or, set, modify,
  replicate, find_index,
}

abbrev pub max_processes : ℕ
max_processes = 256

abbrev pub page_size : ℕ
page_size = 4096

-- The modulus of `uint32_t`.
abbrev pub word : ℕ
word = 0x100000000

pub data ProcessState : Type 0 where
  unused running ready blocked zombie : ProcessState

abbrev pub is_unused : ProcessState → Bool
is_unused unused = true
is_unused s = false

abbrev pub is_running : ProcessState → Bool
is_running running = true
is_running s = false

abbrev pub is_ready : ProcessState → Bool
is_ready ready = true
is_ready s = false

abbrev pub is_zombie : ProcessState → Bool
is_zombie zombie = true
is_zombie s = false

-- The saved registers that the code sets.
pub record Context : Type 0 where
  pub eax : ℕ
  pub ebp : ℕ
  pub esp : ℕ
  pub eip : ℕ
  pub eflags : ℕ

pub record Process : Type 0 where
  pub pid : ℕ
  pub state : ProcessState
  pub parent : Option ℕ
  pub children : Option ℕ
  pub next_sibling : Option ℕ
  pub page_directory : ℕ
  pub kernel_stack : ℕ
  pub user_stack : ℕ
  pub heap_start : ℕ
  pub heap_end : ℕ
  pub context : Context
  pub signal_queue : List ℕ
  pub signal_handlers : List ℕ
  pub uid : ℕ
  pub gid : ℕ
  pub exit_status : ℤ
  pub pwd : List ℕ

-- What `memset` with 0 leaves.
abbrev pub zero_process : Process
zero_process = record {
  pid = 0;
  state = unused;
  parent = none;
  children = none;
  next_sibling = none;
  page_directory = 0;
  kernel_stack = 0;
  user_stack = 0;
  heap_start = 0;
  heap_end = 0;
  context = record { eax = 0; ebp = 0; esp = 0; eip = 0; eflags = 0 };
  signal_queue = [];
  signal_handlers = replicate 32 0;
  uid = 0;
  gid = 0;
  exit_status = pos 0;
  pwd = [];
}

pub record Processes : Type 0 where
  pub table : List Process
  pub current_process : Option ℕ
  pub next_pid : ℕ

-- What the process code asks of the allocator, the paging code and the handlers.
pub data Effect : Type 0 where
  kfree : ℕ → Effect
  destroy_directory : ℕ → Effect
  map_page : (directory virt phys flags : ℕ) → Effect
  copy_page : (to from : ℕ) → Effect
  switch_directory : ℕ → Effect
  call_handler : (handler signal : ℕ) → Effect
  clear_page : ℕ → Effect
  unmap_page : ℕ → Effect

process_init : Processes → Processes
process_init st = record st { table = replicate max_processes zero_process }

-- The static variables before any call.
abbrev pub boot_processes : Processes
boot_processes = record {
  table = replicate max_processes zero_process;
  current_process = none;
  next_pid = 1;
}

abbrev pub slot_free : Process → Bool
slot_free p = is_unused p.state

abbrev pub has_pid : ℕ → Process → Bool
has_pid pid p = not (is_unused p.state) && (p.pid == pid)

abbrev pub process_alloc_slot : Processes → Option ℕ
process_alloc_slot st = find_index slot_free st.table

abbrev pub process_get_by_pid : Processes → ℕ → Option ℕ
process_get_by_pid st pid = find_index (has_pid pid) st.table

-- `process_table[i]`
abbrev pub at_index : Processes → ℕ → Process
at_index st i = get_or st.table i zero_process

abbrev pub put : Processes → ℕ → Process → Processes
put st i p = record st { table = set st.table i p }

abbrev pub change : Processes → ℕ → (Process → Process) → Processes
change st i f = record st { table = modify f st.table i }

abbrev pub set_state : ProcessState → Process → Process
set_state s p = record p { state = s }

-- `process_get_current_uid`: root where no process runs.
abbrev uid_of : Processes → Option ℕ → ℕ
uid_of st none = 0
uid_of st (some i) = (at_index st i).uid

pub process_get_current_uid : Processes → ℕ
process_get_current_uid st = uid_of st st.current_process
