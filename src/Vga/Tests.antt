-- ===== src/Vga/Tests.antt =====
-- Runs of the text screen, and the theorems at concrete states.
use kfs.Prelude.{◌≡◌, refl, [], ◌∷◌, replicate, get_or, arith}
use kfs.Vga.{Vga, vga_init, vga_print, vga_putchar}
use kfs.Vga.Bounds.{OnScreen, init-OnScreen, print-OnScreen}

abbrev off : Vga
off = record {
  vga_buffer = [];
  vga_row = 9;
  vga_column = 9;
  vga_color = 0;
  cursor = 0;
  beyond = [];
}

abbrev screen : Vga
screen = record {
  vga_buffer = replicate 2000 0x0720;
  vga_row = 24;
  vga_column = 76;
  vga_color = 7;
  cursor = 1996;
  beyond = [];
}

abbrev screen-OnScreen : OnScreen screen
screen-OnScreen = record { cells = refl; rows = omega arith; columns = omega arith }

-- The fourth character fills the last line, which then moves up.
scrolled :
    get_or (vga_print screen (b'a' ∷ b'b' ∷ b'c' ∷ b'd' ∷ b'e' ∷ [])).vga_buffer 1920 0 ≡ 0x0765
unfolding vga_print vga_putchar
scrolled = refl

print-OnScreen_example :
    OnScreen (vga_print (vga_init off) (b'k' ∷ b'\n' ∷ b'\t' ∷ []))
    × ((vga_print (vga_init off) (b'k' ∷ b'\n' ∷ b'\t' ∷ [])).beyond ≡ [])
unfolding vga_init
print-OnScreen_example =
    print-OnScreen (vga_init off) (b'k' ∷ b'\n' ∷ b'\t' ∷ []) (init-OnScreen off)
