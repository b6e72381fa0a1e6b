-- ===== src/Printk.antt =====
-- The formatted output of src/printf.c.
--
-- A format, and a string argument that is not NULL, is the text before its end mark. The result is
-- `none` where the next argument is missing or is a string where a number is read or the other way
-- round; `int` and `unsigned int` are one word each, so that one is read as the other.
pub mod Numbers
mod Tests
use kfs.Prelude.{
  ℕ, ◌+◌, ◌-◌, ◌%◌, Bool, ◌||◌, Option, none, some, List, [], ◌∷◌, ◌++◌, ◌==◌, map, codes, ℤ, pos,
  negsuc, to_int, if◌then◌else◌,
}
use mathlib.Core.List.{reverse}
use kfs.Vga.{Vga, vga_putchar, vga_print}
use kfs.CString.{Arg, str, int, uint, digits_low}
use kfs.CString.Format.{hex_digit}

abbrev pub print_string : Vga → Option (List ℕ) → Vga
print_string st none = vga_print st (codes "(null)")
print_string st (some s) = vga_print st s

-- The digits fill `buffer`, lowest first, and are printed from its end. Its 32 bytes are more than a
-- number below 2 ^ 32 needs in base 10 or 16.
unfoldable pub print_uint : Vga → (num base : ℕ) → Vga
print_uint st num base =
    if num == 0
    then vga_putchar st b'0'
    else vga_print st (reverse (map hex_digit (digits_low 32 base num)))

-- The negation of -2 ^ 31 is -2 ^ 31 again, which is 2 ^ 31 as `uint32_t`.
unfoldable pub print_int : Vga → ℤ → Vga
unfolding print_uint
print_int st (pos n) = print_uint st n 10
print_int st (negsuc n) = print_uint (vga_putchar st b'-') (n + 1) 10

-- An `int` read as `unsigned int`.
abbrev pub to_word : ℤ → ℕ
to_word (pos n) = n
to_word (negsuc n) = 0xffffffff - n

-- The conversions of a number, which is given as an integer and as a word.
unfoldable pub print_number : Vga → ℕ → ℤ → ℕ → Vga
unfolding print_int print_uint
print_number st d z w =
    if d == b'c'
    then vga_putchar st (w % 256)
    else if (d == b'd') || (d == b'i')
    then print_int st z
    else if d == b'u'
    then print_uint st w 10
    else print_uint (vga_print st (codes "0x")) w 16

-- `%c`, `%d`, `%i`, `%u`, `%x` and `%X`
abbrev pub is_number : ℕ → Bool
is_number d =
    (d == b'c') || ((d == b'd') || ((d == b'i') || ((d == b'u') || ((d == b'x') || (d == b'X')))))

unfoldable pub print_arg : Vga → ℕ → Arg → Option Vga
unfolding print_number
print_arg st d (str s) = if d == b's' then some (print_string st s) else none
print_arg st d (int z) = if d == b's' then none else some (print_number st d z (to_word z))
print_arg st d (uint n) = if d == b's' then none else some (print_number st d (to_int n) n)

-- A conversion with the arguments left.
unfoldable pub print_next : Vga → ℕ → List Arg → Option (Vga × List Arg)
unfolding print_arg
print_next st d [] = none
print_next st d (a ∷ args) = elim (print_arg st d a) [ none ↦ none | some st' ↦ some (st', args) ]

-- The `switch` on the byte after `%`.
unfoldable pub print_conversion : Vga → ℕ → List Arg → Option (Vga × List Arg)
unfolding print_next
print_conversion st d args =
    if (d == b's') || is_number d
    then print_next st d args
    else if d == b'%'
    then some (vga_putchar st b'%', args)
    else some (vga_putchar (vga_putchar st b'%') d, args)

-- A `%` before the end mark makes the code print the mark, step over it and read on.
unfoldable pub printk : Vga → List ℕ → List Arg → Option Vga
unfolding print_conversion
printk st [] args = some st
printk st (c ∷ []) args = if c == b'%' then none else some (vga_putchar st c)
printk st (c ∷ d ∷ format) args =
    let plain = printk (vga_putchar st c) (d ∷ format) args in
    let special : Option Vga = elim (print_conversion st d args) [
      | none ↦ none
      | some (st', rest) ↦ printk st' format rest
    ] in
    if c == b'%' then special else plain
