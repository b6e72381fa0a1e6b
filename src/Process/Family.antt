-- ===== src/Process/Family.antt =====
-- `process_create`, `process_fork`, `process_exit` and `process_wait` of src/process.c.
use kfs.Prelude.{
  ℕ, ◌+◌, ◌-◌, ◌%◌, zero, suc, Option, none, some, List, [], ◌∷◌, ◌++◌, ◌==◌, ℤ, minus_one, to_int,
  get_or, set, modify, if◌then◌else◌,
}
use kfs.Process.{
  Process, Processes, unused, ready, zombie, is_zombie, word, page_size, zero_process,
  process_alloc_slot, at_index, put, set_state, Effect, kfree, destroy_directory, map_page,
  copy_page, max_processes,
}

-- A result, the table after the call, and the effects of the call.
abbrev pub Outcome : Type 0 → Type 0
Outcome R = R × Processes × List Effect

-- The process in slot `i` after the fields that are set before anything is allocated.
abbrev pub fresh : ℕ → ℕ → Process
fresh pid uid = record zero_process { pid = pid; state = ready; uid = uid; gid = uid }

abbrev pub user_stack_virt : ℕ
user_stack_virt = 0x10000000

-- The process as `process_create` returns it.
abbrev pub built : Process → ℕ → ℕ → ℕ → Process
built p directory kernel_stack entry_point = record p {
  page_directory = directory;
  kernel_stack = kernel_stack;
  user_stack = user_stack_virt + page_size - 4;
  heap_start = 0x08080000;
  heap_end = 0x08080000;
  pwd = b'/' ∷ [];
  context = record {
    eax = 0;
    ebp = user_stack_virt + page_size - 4;
    esp = user_stack_virt + page_size - 4;
    eip = entry_point;
    eflags = 0x202;
  };
}

abbrev pub next_id : Processes → ℕ
next_id st = (st.next_pid + 1) % word

-- A creation that fails leaves the slot unused, with what was set in it so far.
abbrev pub abandon : Processes → ℕ → Process → List Effect → Outcome (Option ℕ)
abandon st i p es = (none, record (put st i (set_state unused p)) { next_pid = next_id st }, es)

-- In slot `i`. `directory`, `kernel` and `user` are what the three allocations return.
unfoldable pub create_in :
    Processes → ℕ → (entry_point uid directory kernel user : ℕ) → Outcome (Option ℕ)
create_in st i entry_point uid directory kernel user =
    let p = fresh st.next_pid uid in
    if directory == 0
    then abandon st i p []
    else if kernel == 0
    then abandon st i (record p { page_directory = directory }) (destroy_directory directory ∷ [])
    else if user == 0
    then abandon st i (record p { page_directory = directory; kernel_stack = kernel })
        (kfree kernel ∷ destroy_directory directory ∷ [])
    else (
      some i,
      record (put st i (built p directory kernel entry_point)) { next_pid = next_id st },
      map_page directory user_stack_virt user 6 ∷ [],
    )

unfoldable pub process_create :
    Processes → (entry_point uid directory kernel user : ℕ) → Outcome (Option ℕ)
unfolding create_in
process_create st entry_point uid directory kernel user = elim (process_alloc_slot st) [
  | none ↦ (none, st, [])
  | some i ↦ create_in st i entry_point uid directory kernel user
]

-- The copy of the parent in slot `parent`, first in its line of children.
abbrev pub copied : Processes → ℕ → Process
copied st parent = record (at_index st parent) {
  pid = st.next_pid;
  state = ready;
  parent = some parent;
  children = none;
  next_sibling = (at_index st parent).children;
}

-- The table with the child `p` in slot `i` and the parent's link to it.
abbrev pub adopt : Processes → ℕ → ℕ → Process → Processes
adopt st parent i p = record st {
  table = modify (λ q. record q { children = some i }) (set st.table i p) parent;
  next_pid = next_id st;
}

unfoldable pub fork_in : Processes → ℕ → ℕ → (directory kernel : ℕ) → Outcome (Option ℕ)
fork_in st parent i directory kernel =
    let p = copied st parent in
    if directory == 0
    then (none, adopt st parent i (record p { page_directory = 0; state = unused }), [])
    else if kernel == 0
    then (
      none,
      adopt st parent i (record p { page_directory = directory; kernel_stack = 0; state = unused }),
      destroy_directory directory ∷ [],
    )
    else (
      some i,
      adopt st parent i (record p {
        page_directory = directory;
        kernel_stack = kernel;
        context = record p.context { eax = 0 };
      }),
      copy_page kernel p.kernel_stack ∷ [],
    )

-- `directory` and `kernel` are what `paging_clone_directory` and `kmalloc` return.
unfoldable pub process_fork : Processes → Option ℕ → (directory kernel : ℕ) → Outcome (Option ℕ)
unfolding fork_in
process_fork st none directory kernel = (none, st, [])
process_fork st (some parent) directory kernel = elim (process_alloc_slot st) [
  | none ↦ (none, st, [])
  | some i ↦ fork_in st parent i directory kernel
]

-- The walk along `next_sibling` that clears the parent of each child. A chain has fewer links than
-- the table has slots; on a cyclic one the C does not return.
unfoldable pub orphan : ℕ → List Process → Option ℕ → List Process
orphan zero t c = t
orphan (suc fuel) t none = t
orphan (suc fuel) t (some c) =
    orphan fuel (modify (λ q. record q { parent = none }) t c)
      (get_or t c zero_process).next_sibling

abbrev pub release : ℕ → (ℕ → Effect) → List Effect
release a f = if a == 0 then [] else f a ∷ []

abbrev pub buried : ℤ → Process → Process
buried status p = record p {
  exit_status = status;
  state = zombie;
  page_directory = 0;
  kernel_stack = 0;
}

unfoldable pub process_exit : Processes → Option ℕ → ℤ → Processes × List Effect
unfolding orphan
process_exit st none status = (st, [])
process_exit st (some i) status =
    let p = at_index st i in
    (
      record st { table = orphan max_processes (modify (buried status) st.table i) p.children },
      release p.page_directory destroy_directory ++ release p.kernel_stack kfree,
    )

-- The first zombie along `next_sibling`.
unfoldable pub zombie_child : ℕ → List Process → Option ℕ → Option ℕ
zombie_child zero t c = none
zombie_child (suc fuel) t none = none
zombie_child (suc fuel) t (some c) =
    let rest = zombie_child fuel t (get_or t c zero_process).next_sibling in
    if is_zombie (get_or t c zero_process).state then some c else rest

-- `prev = &(*prev)->next_sibling` until `*prev` is the child, then the link past it.
unfoldable pub unlink_after : ℕ → List Process → ℕ → ℕ → List Process
unlink_after zero t q child = t
unlink_after (suc fuel) t q child = elim (get_or t q zero_process).next_sibling [
  | none ↦ t
  | some c ↦
      if c == child
      then modify (λ s. record s { next_sibling = (get_or t child zero_process).next_sibling }) t q
      else unlink_after fuel t c child
]

unfoldable pub unlink : List Process → ℕ → ℕ → List Process
unfolding unlink_after
unlink t parent child = elim (get_or t parent zero_process).children [
  | none ↦ t
  | some c ↦
      if c == child
      then modify (λ s. record s { children = (get_or t child zero_process).next_sibling }) t parent
      else unlink_after max_processes t c child
]

-- The result, what goes through `status`, and the table.
unfoldable pub process_wait : Processes → Option ℕ → ℤ × Option ℤ × Processes
unfolding zombie_child unlink
process_wait st none = (minus_one, none, st)
process_wait st (some parent) =
    elim (zombie_child max_processes st.table (at_index st parent).children) [
      | none ↦ (minus_one, none, st)
      | some c ↦ (
        to_int (at_index st c).pid,
        some (at_index st c).exit_status,
        record st { table = modify (set_state unused) (unlink st.table parent c) c },
      )
    ]
