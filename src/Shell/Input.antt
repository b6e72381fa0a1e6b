-- ===== src/Shell/Input.antt =====
-- The command line and the main loop of src/shell.c, with `handle_screen_switch` of src/kernel.c.
use kfs.Prelude.{
  ℕ, ◌+◌, ◌-◌, Bool, ◌&&◌, Option, none, some, List, [], ◌∷◌, ◌++◌, ◌==◌, ltb, leb, take, set, map,
  find_index, get_elem?, codes, pos, if◌then◌else◌,
}
use kfs.Vga.{vga_putchar}
use kfs.Screen.{screen_save, screen_switch, max_screens}
use kfs.Vfs.{same_text}
use kfs.Process.Family.{process_create}
use kfs.Process.Schedule.{process_set_current}
use kfs.Shell.{
  Shell, Answers, Outcome, returned, stopped, undefined, on_screen, say, say_in, complain, paint,
  shell_buffer_size, shell_max_args, shell_init, shell_parse_args, text_at, before_mark,
  light_green, light_grey, light_brown, light_cyan, white, blue,
}
use kfs.Vga.{vga_set_color}
use kfs.Shell.Paths.{cmd_cd, cmd_pwd}
use kfs.Shell.Files.{cmd_cat, cmd_ls}
use kfs.Shell.Mounts.{cmd_mount, cmd_umount}
use kfs.Shell.Users.{cmd_login, cmd_whoami}
use kfs.Shell.Login.{is_backspace, is_printable, rub_out}
use kfs.Shell.Commands.{
  Command, ShellCommand, commands, cmd_help, cmd_clear, cmd_mem, cmd_echo, cmd_about, say_all,
  help_handler, clear_handler, mem_handler, cat_handler, pwd_handler, cd_handler, ls_handler,
  mount_handler, umount_handler, login_handler, whoami_handler, echo_handler, about_handler,
  halt_handler, reboot_handler, panic_handler,
}

unfoldable pub shell_prompt : Shell → Shell
unfolding say say_in
shell_prompt sh = say (codes "$ ") (say_in light_green (codes "kfs") sh)

unfoldable cmd_halt : Shell → Outcome
unfolding say_in
cmd_halt sh = stopped (say_in light_brown (codes "System halted. You can now power off.\n") sh)

-- The keyboard controller is asked to reset the machine, which halts if that fails.
unfoldable cmd_reboot : Shell → Outcome
unfolding say_in
cmd_reboot sh = stopped (say_in light_brown (codes "Rebooting system...\n") sh)

-- `kernel_panic` does not return; what it prints is left out.
unfoldable cmd_panic : Shell → Outcome
unfolding say_in
cmd_panic sh = stopped (say_in light_brown (codes "Triggering kernel panic...\n") sh)

-- The arguments of a command line, from a copy of its first 255 bytes.
unfoldable pub arguments_of : List ℕ → List (List ℕ)
unfolding shell_parse_args
arguments_of command =
    let (line, argv) = shell_parse_args (take (shell_buffer_size - 1) command) shell_max_args in
    map (text_at line) argv

abbrev pub has_name : List ℕ → ShellCommand → Bool
has_name name c = same_text name c.name

-- The command of a name.
unfoldable command_named : List ℕ → Option ShellCommand
unfolding commands
command_named name = elim (find_index (has_name name) commands) [
  | none ↦ none
  | some i ↦ get_elem? commands i
]

unfoldable unknown_command : Shell → List ℕ → Shell
unfolding say say_in
unknown_command sh name =
    say (codes "Type 'help' for a list of available commands.\n")
      (complain (codes "Unknown command: " ++ (name ++ codes "\n")) sh)

abbrev pub after_command : Outcome → Outcome
after_command (returned sh) = returned (shell_prompt (shell_init sh))
after_command (stopped sh) = stopped sh
after_command undefined = undefined

-- The position may be 0, where nothing is erased.
unfoldable pub erase : Shell → Shell
unfolding rub_out
erase sh =
    let at = sh.shell_buffer_pos - 1 in
    if ltb 0 sh.shell_buffer_pos
    then record sh {
      shell_buffer = set sh.shell_buffer at 0;
      shell_buffer_pos = at;
      screens = record sh.screens { vga = rub_out sh.screens.vga };
    }
    else sh

unfoldable pub type_key : Shell → ℕ → Shell
type_key sh c = record sh {
  shell_buffer = set (set sh.shell_buffer sh.shell_buffer_pos c) (sh.shell_buffer_pos + 1) 0;
  shell_buffer_pos = sh.shell_buffer_pos + 1;
  screens = record sh.screens { vga = vga_putchar sh.screens.vga c };
}

-- The number is from 0 to 3 where the shell calls it.
unfoldable handle_screen_switch : Shell → ℕ → Shell
handle_screen_switch sh n =
    if ltb n max_screens
    then record sh { screens = screen_switch (screen_save sh.screens) (pos n) }
    else sh

-- `elsewhere` stands for the commands that print or test what other parts of the kernel keep.
module _ (elsewhere : Command → List (List ℕ) → Shell → Outcome) (ans : Answers) where
  unfoldable pub run_handler : Command → Shell → List (List ℕ) → Outcome
  unfolding cmd_help cmd_mem cmd_cat cmd_pwd cmd_cd cmd_ls cmd_mount cmd_umount cmd_login cmd_whoami
      cmd_echo cmd_about cmd_halt cmd_reboot cmd_panic
  run_handler help_handler sh argv = returned (cmd_help sh)
  run_handler clear_handler sh argv = returned (cmd_clear sh)
  run_handler mem_handler sh argv = returned (cmd_mem sh)
  run_handler cat_handler sh argv = cmd_cat ans sh argv
  run_handler pwd_handler sh argv = returned (cmd_pwd sh)
  run_handler cd_handler sh argv = returned (cmd_cd ans sh argv)
  run_handler ls_handler sh argv = cmd_ls ans sh argv
  run_handler mount_handler sh argv = returned (cmd_mount ans sh argv)
  run_handler umount_handler sh argv = returned (cmd_umount sh argv)
  run_handler login_handler sh argv = returned (cmd_login sh argv)
  run_handler whoami_handler sh argv = returned (cmd_whoami sh)
  run_handler echo_handler sh argv = returned (cmd_echo sh argv)
  run_handler about_handler sh argv = returned (cmd_about sh)
  run_handler halt_handler sh argv = cmd_halt sh
  run_handler reboot_handler sh argv = cmd_reboot sh
  run_handler panic_handler sh argv = cmd_panic sh
  run_handler h sh argv = elsewhere h argv sh

  -- A command of no argument is none.
  unfoldable pub run_arguments : Shell → List (List ℕ) → Outcome
  unfolding run_handler command_named unknown_command
  run_arguments sh [] = returned sh
  run_arguments sh (name ∷ args) = elim (command_named name) [
    | none ↦ returned (unknown_command sh name)
    | some c ↦ run_handler c.handler sh (name ∷ args)
  ]

  unfoldable pub shell_process_command : Shell → List ℕ → Outcome
  unfolding run_arguments arguments_of
  shell_process_command sh [] = returned sh
  shell_process_command sh (c ∷ command) =
      if c == b'\n' then returned sh else run_arguments sh (arguments_of (c ∷ command))

  -- Enter: the line is ended, and what is before its first end mark is run.
  unfoldable pub enter : Shell → Outcome
  unfolding shell_process_command shell_prompt
  enter sh =
      let buffer = set sh.shell_buffer sh.shell_buffer_pos 0 in
      after_command (
        shell_process_command
          (record (on_screen (λ v. vga_putchar v b'\n') sh) { shell_buffer = buffer })
          (before_mark buffer))

  unfoldable pub shell_handle_input : Shell → ℕ → Outcome
  unfolding erase enter type_key
  shell_handle_input sh c =
      if is_backspace c
      then returned (erase sh)
      else if c == b'\n'
      then enter sh
      else if is_printable c && ltb sh.shell_buffer_pos (shell_buffer_size - 1)
      then returned (type_key sh c)
      else returned sh

  -- One key of the main loop. F1 is 0x80, F4 is 0x83.
  unfoldable pub shell_key : Shell → ℕ → Outcome
  unfolding shell_handle_input handle_screen_switch
  shell_key sh c =
      if c == 0
      then returned sh
      else if leb 0x80 c && leb c 0x83
      then returned (handle_screen_switch sh (c - 0x80))
      else shell_handle_input sh c

  -- The main loop on the keys that the keyboard gives, up to a command that does not return.
  unfoldable pub shell_keys : Outcome → List ℕ → Outcome
  unfolding shell_key
  shell_keys r [] = r
  shell_keys (returned sh) (c ∷ keys) = shell_keys (shell_key sh c) keys
  shell_keys (stopped sh) (c ∷ keys) = stopped sh
  shell_keys undefined (c ∷ keys) = undefined

-- The process that `cd` and the other commands work for, of user 0. The addresses are what its
-- allocations return, and that of its function.
unfoldable shell_create_process : Shell → (entry_point directory kernel user : ℕ) → Shell
shell_create_process sh entry_point directory kernel user =
    let (created, st, effects) = process_create sh.processes entry_point 0 directory kernel user in
    elim created [
      | none ↦ record sh { processes = st }
      | some i ↦ record sh { processes = (process_set_current st (some i)).0 }
    ]

unfoldable shell_welcome : Shell → Shell
unfolding say_all say_in say
shell_welcome sh =
    let title = on_screen (λ v. vga_set_color v white blue) sh in
    let closed = paint light_grey (
      say_all
        (codes "============================================\n"
          ∷ codes "       KFS_4 - Interrupt System Shell      \n"
          ∷ codes "============================================\n"
          ∷ [])
        title) in
    say_all
      (codes "Type 'help' for a list of commands.\n"
        ∷ codes "Type 'panic', 'signal', 'syscall', 'idt' to test.\n"
        ∷ codes "Press Alt+F1 to Alt+F4 to switch screens.\n\n"
        ∷ [])
      (say_in light_cyan (codes "Welcome to the KFS Debug Shell!\n") (say (codes "\n") closed))
