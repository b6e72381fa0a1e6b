-- ===== src/Syscall.antt =====
-- The table of system calls, src/syscall.c with include/syscall.h.
--
-- A handler is an entry of the table with its name or, if it was registered later, its address; NULL
-- is `none`. What a handler returns for its five arguments, as the word that goes into EAX, is the
-- argument `result` of the dispatcher. `sys_read` and `sys_exit` only print and return constants;
-- `sys_write` is here.
mod Table
mod Tests
use kfs.Prelude.{
  ℕ, ◌+◌, Bool, true, false, ◌&&◌, ◌||◌, not, Option, none, some, List, [], ◌∷◌, ◌++◌, ◌==◌, ltb,
  leb, ℤ, pos, minus_one, to_int, get_or, set, replicate, take, if◌then◌else◌,
}

abbrev pub max_syscalls : ℕ
max_syscalls = 256

pub data Handler : Type 0 where
  sys_write sys_read sys_exit sys_fork sys_wait sys_getuid sys_kill sys_mmap sys_brk : Handler
  sys_socket sys_bind sys_listen sys_accept sys_connect sys_send sys_recv : Handler
  at_address : ℕ → Handler

-- The saved registers that the dispatcher reads and writes.
pub record Frame : Type 0 where
  pub eax : ℕ
  pub ebx : ℕ
  pub ecx : ℕ
  pub edx : ℕ
  pub esi : ℕ
  pub edi : ℕ

unfoldable pub syscall_register :
    List (Option Handler) → ℕ → Option Handler → ℤ × List (Option Handler)
syscall_register hs num h = if leb max_syscalls num then (minus_one, hs) else (pos 0, set hs num h)

unfoldable pub syscall_unregister : List (Option Handler) → ℕ → ℤ × List (Option Handler)
syscall_unregister hs num =
    if leb max_syscalls num then (minus_one, hs) else (pos 0, set hs num none)

-- The registrations of `syscall_init`, in order.
abbrev pub defaults : List (ℕ × Handler)
defaults =
    (1, sys_write)
    ∷ (2, sys_read)
    ∷ (0, sys_exit)
    ∷ (9, sys_fork)
    ∷ (10, sys_wait)
    ∷ (11, sys_getuid)
    ∷ (8, sys_kill)
    ∷ (12, sys_mmap)
    ∷ (13, sys_brk)
    ∷ (14, sys_socket)
    ∷ (15, sys_bind)
    ∷ (16, sys_listen)
    ∷ (17, sys_accept)
    ∷ (18, sys_connect)
    ∷ (19, sys_send)
    ∷ (20, sys_recv)
    ∷ []

unfoldable pub register_all : List (Option Handler) → List (ℕ × Handler) → List (Option Handler)
register_all hs [] = hs
register_all hs ((num, h) ∷ ds) = register_all (syscall_register hs num (some h)).1 ds

unfoldable pub syscall_init : List (Option Handler)
unfolding register_all syscall_register
syscall_init = register_all (replicate max_syscalls none) defaults

-- `-1` as a word.
abbrev pub minus_one_word : ℕ
minus_one_word = 0xffffffff

-- What a handler returns for its five arguments.
abbrev pub Results : Type 0
Results = Handler → (arg1 arg2 arg3 arg4 arg5 : ℕ) → ℕ

abbrev pub answer : Results → Option Handler → Frame → ℕ
answer result none f = minus_one_word
answer result (some h) f = result h f.ebx f.ecx f.edx f.esi f.edi

unfoldable pub syscall_dispatcher : List (Option Handler) → Results → Frame → Frame
syscall_dispatcher hs result f =
    if leb max_syscalls f.eax
    then record f { eax = minus_one_word }
    else record f { eax = answer result (get_or hs f.eax none) f }
