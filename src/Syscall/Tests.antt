-- ===== src/Syscall/Tests.antt =====
-- Runs of the table of system calls, and the theorem at a concrete history.
use kfs.Prelude.{◌≡◌, refl, none, some, List, [], ◌∷◌, get_or}
use kfs.Syscall.{Results, at_address, Frame, syscall_init, syscall_register, register_all}
use kfs.Syscall.Table.{Change, register, unregister}

-- `sys_socket_close` is in no entry: SYS_CLOSE is not registered.
no_close : get_or syscall_init 4 none ≡ none
unfolding syscall_init register_all syscall_register
no_close = refl

abbrev changes : List Change
changes = unregister 8 ∷ register 5 (some (at_address 0x4000)) ∷ register 300 none ∷ []

abbrev frame : Frame
frame = record { eax = 5; ebx = 1; ecx = 2; edx = 3; esi = 4; edi = 5 }

abbrev result : Results
result (at_address a) arg1 arg2 arg3 arg4 arg5 = arg1
result h arg1 arg2 arg3 arg4 arg5 = 0
