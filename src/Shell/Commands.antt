-- ===== src/Shell/Commands.antt =====
-- The table of commands of src/shell.c, and the commands that only print.
use kfs.Prelude.{ℕ, ◌-◌, List, [], ◌∷◌, ◌++◌, length, replicate, codes}
use kfs.Vga.{vga_clear}
use kfs.Shell.{Shell, on_screen, say, say_in, paint, light_grey, light_green, light_cyan}

-- The handlers of the table.
pub data Command : Type 0 where
  help_handler clear_handler stack_handler stacktrace_handler gdt_handler idt_handler mem_handler
        kmalloc_stats_handler vmalloc_stats_handler memtest_handler :
      Command
  panic_handler signal_handler syscall_handler process_handler fork_handler psignal_handler
        mmap_handler cat_handler pwd_handler cd_handler :
      Command
  ls_handler mount_handler umount_handler login_handler whoami_handler reboot_handler halt_handler
        echo_handler about_handler :
      Command

pub record ShellCommand : Type 0 where
  pub name : List ℕ
  pub description : List ℕ
  pub handler : Command

abbrev entry : List ℕ → List ℕ → Command → ShellCommand
entry name description handler = record {
  name = name;
  description = description;
  handler = handler;
}

unfoldable pub commands : List ShellCommand
commands =
    entry (codes "help") (codes "Display this help message") help_handler
    ∷ entry (codes "clear") (codes "Clear the screen") clear_handler
    ∷ entry (codes "stack") (codes "Display kernel stack information") stack_handler
    ∷ entry (codes "stacktrace") (codes "Display stack trace") stacktrace_handler
    ∷ entry (codes "gdt") (codes "Display GDT information") gdt_handler
    ∷ entry (codes "idt") (codes "Display IDT information") idt_handler
    ∷ entry (codes "mem") (codes "Display memory information") mem_handler
    ∷ entry (codes "kstats") (codes "Display kernel heap statistics") kmalloc_stats_handler
    ∷ entry (codes "vstats") (codes "Display virtual memory statistics") vmalloc_stats_handler
    ∷ entry (codes "memtest") (codes "Test memory allocation") memtest_handler
    ∷ entry (codes "panic") (codes "Trigger a kernel panic") panic_handler
    ∷ entry (codes "signal") (codes "Test signal system") signal_handler
    ∷ entry (codes "syscall") (codes "Test syscall system") syscall_handler
    ∷ entry (codes "process") (codes "Test process system") process_handler
    ∷ entry (codes "fork") (codes "Test fork syscall") fork_handler
    ∷ entry (codes "psignal") (codes "Test process signal") psignal_handler
    ∷ entry (codes "mmap") (codes "Test mmap syscall") mmap_handler
    ∷ entry (codes "cat") (codes "Display file contents") cat_handler
    ∷ entry (codes "pwd") (codes "Print working directory") pwd_handler
    ∷ entry (codes "cd") (codes "Change directory") cd_handler
    ∷ entry (codes "ls") (codes "List directory contents") ls_handler
    ∷ entry (codes "mount") (codes "Mount a filesystem (BONUS)") mount_handler
    ∷ entry (codes "umount") (codes "Unmount a filesystem (BONUS)") umount_handler
    ∷ entry (codes "login") (codes "Login as a user (BONUS)") login_handler
    ∷ entry (codes "whoami") (codes "Show current user (BONUS)") whoami_handler
    ∷ entry (codes "reboot") (codes "Reboot the system") reboot_handler
    ∷ entry (codes "halt") (codes "Halt the system") halt_handler
    ∷ entry (codes "echo") (codes "Echo arguments") echo_handler
    ∷ entry (codes "about") (codes "About this kernel") about_handler
    ∷ []

-- A name is padded to twelve columns.
unfoldable help_line : ShellCommand → Shell → Shell
unfolding say
help_line c sh =
    let named = say (codes "  " ++ c.name) (paint light_green sh) in
    let padded = say (replicate (12 - length c.name) b' ') named in
    say (codes " - " ++ (c.description ++ codes "\n")) (paint light_grey padded)

unfoldable help_lines : List ShellCommand → Shell → Shell
unfolding help_line
help_lines [] sh = sh
help_lines (c ∷ cs) sh = help_lines cs (help_line c sh)

unfoldable pub cmd_help : Shell → Shell
unfolding help_lines commands say say_in
cmd_help sh =
    say (codes "\n") (help_lines commands (say_in light_cyan (codes "\nAvailable Commands:\n") sh))

abbrev pub cmd_clear : Shell → Shell
cmd_clear = on_screen vga_clear

-- The arguments with one space between them.
abbrev pub spaced : List (List ℕ) → List ℕ
spaced [] = []
spaced (w ∷ []) = w
spaced (w ∷ v ∷ ws) = w ++ (b' ' ∷ spaced (v ∷ ws))

unfoldable pub cmd_echo : Shell → List (List ℕ) → Shell
unfolding say
cmd_echo sh [] = say (codes "\n") sh
cmd_echo sh (name ∷ args) = say (spaced args ++ codes "\n") sh

-- The lines of a text one after the other.
unfoldable pub say_all : List (List ℕ) → Shell → Shell
unfolding say
say_all [] sh = sh
say_all (t ∷ ts) sh = say_all ts (say t sh)

unfoldable pub cmd_about : Shell → Shell
unfolding say_all say_in
cmd_about sh =
    say_all
      (codes "\nKernel From Scratch - Fourth Subject\n"
        ∷ codes "A minimal 32-bit x86 kernel with:\n"
        ∷ codes "  - Interrupt Descriptor Table (IDT)\n"
        ∷ codes "  - CPU Exception Handlers (0x00-0x13)\n"
        ∷ codes "  - Hardware Interrupts (PIC)\n"
        ∷ codes "  - Signal-callback system\n"
        ∷ codes "  - Syscall infrastructure (INT 0x80)\n"
        ∷ codes "  - Global Descriptor Table (GDT)\n"
        ∷ codes "  - Memory paging and allocators\n"
        ∷ codes "  - Kernel panic handling\n"
        ∷ codes "  - Interactive debug shell\n"
        ∷ codes "\nArchitecture: i386 (x86)\n"
        ∷ codes "Boot Loader: GRUB Multiboot\n"
        ∷ codes "No standard library dependencies\n"
        ∷ codes "\n"
        ∷ [])
      (say_in light_cyan (codes "\n=== KFS_4: Interrupt System ===\n") sh)

-- A page has 4096 bytes, a table 1024 entries.
unfoldable pub cmd_mem : Shell → Shell
unfolding say_all
cmd_mem = say_all (
    codes "\n=== Memory System Overview ===\n"
    ∷ codes "Page size: 4096 bytes\n"
    ∷ codes "Pages per table: 1024\n"
    ∷ codes "Pages per directory: 1024\n"
    ∷ codes "Virtual address space: 4 GB\n"
    ∷ codes "\nMemory regions:\n"
    ∷ codes "  Kernel heap:     0x00500000 - 0x00600000 (1 MB)\n"
    ∷ codes "  Virtual memory:  0x10000000 - 0x20000000 (256 MB)\n"
    ∷ codes "\nType 'kstats' for kernel heap statistics\n"
    ∷ codes "Type 'vstats' for virtual memory statistics\n\n"
    ∷ [])
