-- ===== src/Printk/Tests.antt =====
-- Runs of printk, and the theorems at concrete numbers.
use kfs.Prelude.{ℕ, ◌≡◌, refl, some, List, [], ◌∷◌, ◌++◌, negsuc, codes, arith, All}
use kfs.CString.{str, int, uint, digits_low}
use kfs.Vga.{Vga, vga_print}
use kfs.Printk.{
  printk, print_conversion, print_next, print_arg, print_number, print_int, print_uint,
}
use kfs.Printk.Numbers.{print_int_reads, IsDigit, IsShortest, read_number, sign, magnitude}

abbrev blank : Vga
blank = record {
  vga_buffer = [];
  vga_row = 0;
  vga_column = 0;
  vga_color = 7;
  cursor = 0;
  beyond = [];
}

mixed :
    printk blank
      (codes "%s: %d, %x %%!")
      (str (some (codes "pid")) ∷ int (negsuc 6) ∷ uint 255 ∷ [])
    ≡ some (vga_print blank (codes "pid: -7, 0xff %!"))
unfolding printk print_conversion print_next print_arg print_number print_int print_uint digits_low
    vga_print
mixed = refl

print_int_reads_example :
    (digits : List ℕ) × (print_int blank (negsuc 2147483647)
      ≡ vga_print blank (sign (negsuc 2147483647) ++ digits))
    × All (IsDigit 10) digits
    × IsShortest 2147483648 digits
    × (read_number 10 digits ≡ magnitude (negsuc 2147483647))
print_int_reads_example = print_int_reads blank (negsuc 2147483647) (omega arith)
