-- ===== src/Lib.antt =====
-- KFS: a 32-bit kernel in C, in src/ and include/ of the repository.
--
-- The kernel boots, sets up interrupts, memory, devices and a file system, and then serves system
-- calls, processes, signals and local sockets. Modelled here are the parts of it that keep state of
-- their own and decide something:
--   Socket: the socket table of src/socket.c. Socket/Setup and Socket/Transfer have the operations,
--     Socket/Calls the system calls over them, as one `dispatch` and as histories (`run`).
--   Kmalloc: the kernel heap of src/kmalloc.c, a chain of blocks with first fit, split and merge.
--   Process: the process table of src/process.c. Process/Family has create, fork, exit and wait,
--     Process/Memory mmap, munmap, brk and the system calls, Process/Signals the queues of signals and
--     the exceptions, Process/Schedule the scheduler, Process/Calls the histories of calls,
--     Process/Directory the working directory.
--   Paging: page directories and tables as words of memory, src/paging.c, with the translation of
--     addresses that they define; Paging/Clone has destroy and clone.
--   Keyboard: the interrupt handler, its layouts (Keyboard/Maps) and the ring of keys of
--     src/keyboard.c; Keyboard/Line has the line editor.
--   Vga and Screen: the text screen of src/vga.c and the four virtual screens of src/screen.c over it.
--   Vfs: the virtual file system of src/vfs.c. Vfs/Lookup has directories and paths, Vfs/Create the
--     virtual files it starts with, Vfs/Mount the mount table.
--   Ext2: the EXT2 file system of src/ext2.c over a disk; Ext2/Data has file data and directories, and
--     Ext2/Stored says how a file lies on disk.
--     Vfs/OnDisk puts it under the virtual file system.
--   Signal: the kernel's own signals, src/signal.c.
--   CString: the string functions of src/string.c; CString/Format has `snprintf`.
--   Scrollback: the ring of lines behind the screen, src/scrollback.c.
--   Syscall: the table of system calls and its dispatcher, src/syscall.c.
--   Printk: the formatted output of src/printf.c, onto the text screen.
--   Interrupts: the gates and handlers of src/idt.c and the descriptors of src/gdt.c; Interrupts/Pic
--     has the controllers of src/pic.c, Interrupts/Timer the timer of src/timer.c.
--   Mouse: the packets of src/mouse.c.
--   Vmalloc: the virtual memory allocator of src/vmalloc.c, a chain of blocks.
--   Shell: the shell of src/shell.c. Shell has its state and its argument splitter, Shell/Input the
--     command line and the main loop, Shell/Login the login screen, and Shell/Paths, Shell/Files,
--     Shell/Mounts, Shell/Users and Shell/Commands the commands.
-- Prelude has the helpers that all share: lists by index, the first index that passes a test,
-- integers, texts. The other files of a part are named for what they prove, and its Tests runs it.
--
-- How the parts meet: the system calls of the table lead to the sockets and the processes; processes
-- and messages take their memory from the heap; the virtual screens save and restore what the text
-- screen shows, and both keep to its size, as the scrolled lines do; the virtual file system reads
-- the files of EXT2; the timer calls the scheduler of the processes; the mouse scrolls the lines;
-- and the shell works on the virtual file system, the working directory and user of its process, the
-- virtual screens and, through printk, the text screen. Otherwise each part stands alone, and what
-- another part answers is an argument: the results of the allocations in `process_create` and
-- `process_fork`, whether `kmalloc` finds room for a message, a signal, a node or a block, the pages
-- that `process_mmap` is given and the physical addresses that paging finds, what a handler returns
-- to the dispatcher, the pages that `kmalloc_aligned` gives to paging, the scancodes and the keys
-- that arrive, and the sectors that the IDE driver reads for EXT2. What a process operation asks of
-- others is the list of effects that it returns.
--
-- How C becomes definitions: an operation is a function of the same name from the state and its
-- arguments to its result and the state after it. A table is a list, a pointer into it an index,
-- NULL is `none` or the address 0, and a search of the table is the first index that passes. A
-- function of several branches has a helper for what it does once its lookups have succeeded
-- (`bind_at`, `create_in`). `uint32_t` and `size_t` sums wrap at 2 ^ 32 in the heap, in process
-- identifiers and in memory maps. Descriptors of sockets and lengths of queues are taken not to
-- reach 2 ^ 31.
--
-- Fuel: the walks along `next_sibling` in src/process.c have 256 steps, one for each slot of the
-- table; a chain of more links is cyclic, and there the C code does not return. The walks along
-- siblings in src/vfs.c have as many steps as there are nodes, and those over a directory's entries
-- in src/ext2.c as many as it has bytes, since an entry has a length or is the last. `snprintf` has
-- 10 decimal and 8 hexadecimal digits, which hold every 32-bit number; printk has the 32 of its
-- buffer. The listing of `ls` has one step more than there are nodes and entries on disk. A wait of
-- the timer is given the number of interrupts after which it is asked. `keyboard_getline` reads the
-- keys that arrive and waits when they end. Every other loop is recursion on the list or the number
-- that it counts.
--
-- What is simplified: a forked child shares the entries of the parent's queue of signals in C and
-- has a copy here; handlers are taken to leave the tables that call them alone; outside the shell,
-- output with printk is left out; the shell's messages are texts whose arguments are already in
-- their places; a division by 0, which a damaged superblock can lead to in src/ext2.c, is taken not
-- to occur; a pointer that `kfree` is given is that of a block or not, and in the second case
-- nothing is said of the heap after its header is marked; cells that are written past video memory
-- are kept in a list of their own; an accept that reads through NULL counts as one that fails.
--
-- Not modelled: the control registers and the TLB; the sections of a process, which nothing reads;
-- the IDE driver, which moves sectors through ports; the commands of the shell that print or
-- test what other parts keep, which are a parameter; what is printed at an exception or a panic, the
-- commands to the mouse and the other start-up code; assembly.
pub mod CString
pub mod Ext2
pub mod Interrupts
pub mod Keyboard
pub mod Kmalloc
pub mod Mouse
pub mod Paging
pub mod Prelude
pub mod Printk
pub mod Process
pub mod Screen
pub mod Scrollback
pub mod Shell
pub mod Signal
pub mod Socket
pub mod Syscall
pub mod Vfs
pub mod Vga
pub mod Vmalloc
