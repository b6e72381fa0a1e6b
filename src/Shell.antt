-- ===== src/Shell.antt =====
-- The shell, src/shell.c with include/shell.h: its state, its output and its argument splitter.
--
-- A command line, an argument and a path are texts before their end marks. What other code answers to
-- the shell (the allocator, the disks) is in `Answers`; what the process code asks of the allocator
-- and the paging code is left to the module Process.
mod Args
mod Line
mod Directory
mod Access
mod Credentials
mod Listing
mod Contents
mod Hidden
mod Tests
pub mod Paths
pub mod Files
pub mod Mounts
pub mod Users
pub mod Login
pub mod Commands
pub mod Input
use kfs.Prelude.{
  ℕ, zero, suc, ◌+◌, Bool, true, false, ◌||◌, Option, List, [], ◌∷◌, ◌==◌, drop, if◌then◌else◌,
}
use kfs.Vga.{Vga, vga_print, vga_set_color}
use kfs.Screen.{Screens}
use kfs.Vfs.{Vfs, Filesystem}
use kfs.Process.{Processes}

abbrev pub shell_buffer_size : ℕ
shell_buffer_size = 256

abbrev pub shell_max_args : ℕ
shell_max_args = 16

-- With the state of the parts that the commands work on.
pub record Shell : Type 0 where
  pub shell_buffer : List ℕ
  pub shell_buffer_pos : ℕ
  pub current_uid : ℕ
  pub screens : Screens
  pub vfs : Vfs
  pub processes : Processes

-- What the allocator and the disks answer during a command: to the lookup of a path, to the buffer of
-- `cat`, to the entries of `ls`, to the two allocations of `mount`, and whether `ext2_init` finds a
-- file system on the drive of a channel.
pub record Answers : Type 0 where
  pub lookup_memory : ℕ → Bool
  pub buffer_memory : Bool
  pub entry_memory : ℕ → Bool
  pub fs_memory : Bool
  pub node_memory : Bool
  pub disk : (channel drive : ℕ) → Option Filesystem

-- How a command ends: it returns, or the machine stops. A read past the end of a file's memory, and a
-- listing that would need more steps than it is given, are `undefined`.
pub data Outcome : Type 0 where
  returned : Shell → Outcome
  stopped : Shell → Outcome
  undefined : Outcome

abbrev pub black : ℕ
black = 0

abbrev pub blue : ℕ
blue = 1

abbrev pub green : ℕ
green = 2

abbrev pub light_grey : ℕ
light_grey = 7

abbrev pub dark_grey : ℕ
dark_grey = 8

abbrev pub light_blue : ℕ
light_blue = 9

abbrev pub light_green : ℕ
light_green = 10

abbrev pub light_cyan : ℕ
light_cyan = 11

abbrev pub light_red : ℕ
light_red = 12

abbrev pub light_brown : ℕ
light_brown = 14

abbrev pub white : ℕ
white = 15

abbrev pub on_screen : (Vga → Vga) → Shell → Shell
on_screen f sh = record sh { screens = record sh.screens { vga = f sh.screens.vga } }

-- `vga_set_color(fg, VGA_COLOR_BLACK)`
abbrev pub paint : ℕ → Shell → Shell
paint fg = on_screen (λ v. vga_set_color v fg black)

-- What `printk` prints for a format whose arguments are already in their places.
unfoldable pub say : List ℕ → Shell → Shell
say text = on_screen (λ v. vga_print v text)

-- A message in a colour, with grey after it.
unfoldable pub say_in : ℕ → List ℕ → Shell → Shell
unfolding say
say_in fg text sh = paint light_grey (say text (paint fg sh))

abbrev pub complain : List ℕ → Shell → Shell
complain = say_in light_red

-- `shell_buffer[0]` is the end mark then.
abbrev pub first_zero : List ℕ → List ℕ
first_zero [] = []
first_zero (c ∷ b) = 0 ∷ b

abbrev pub shell_init : Shell → Shell
shell_init sh = record sh { shell_buffer_pos = 0; shell_buffer = first_zero sh.shell_buffer }

-- Space, tab and newline.
abbrev pub is_blank : ℕ → Bool
is_blank c = (c == b' ') || ((c == b'\t') || (c == b'\n'))

-- The loop at offset `p`, while `left` more arguments fit: the bytes of the line after it, and the
-- offsets of the arguments. A blank after an argument becomes an end mark. The loop stops when
-- the last argument that fits has begun.
unfoldable pub parse_from : (left p : ℕ) → Bool → List ℕ → List ℕ × List ℕ
parse_from left p in_arg [] = ([], [])
parse_from zero p in_arg (c ∷ cs) = (c ∷ cs, [])
parse_from (suc left) p in_arg (c ∷ cs) =
    let blank = parse_from (suc left) (p + 1) false cs in
    let inside = parse_from (suc left) (p + 1) true cs in
    let begun = parse_from left (p + 1) true cs in
    if is_blank c
    then ((if in_arg then 0 else c) ∷ blank.0, blank.1)
    else if in_arg
    then (c ∷ inside.0, inside.1)
    else (c ∷ begun.0, p ∷ begun.1)

-- The line after the call, and `argv`.
unfoldable pub shell_parse_args : List ℕ → ℕ → List ℕ × List ℕ
unfolding parse_from
shell_parse_args cmdline max_args = parse_from max_args 0 false cmdline

-- The bytes before the first end mark.
abbrev pub before_mark : List ℕ → List ℕ
before_mark [] = []
before_mark (c ∷ cs) = if c == 0 then [] else c ∷ before_mark cs

-- The text that an offset into the line points to.
abbrev pub text_at : List ℕ → ℕ → List ℕ
text_at line p = before_mark (drop p line)
