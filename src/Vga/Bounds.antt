-- ===== src/Vga/Bounds.antt =====
-- The position on the screen of src/vga.c stays on the screen.
use kfs.Prelude.{
  ℕ, zero, suc, ◌+◌, ◌-◌, ◌*◌, ◌<◌, ◌≤◌, ◌≡◌, refl, List, [], ◌∷◌, leb, length, length-set,
  length-append, length-take, length-replicate, replicate, take, drop, arith, Bool-cases, inl, inr,
  ◌∙◌,
}
use kfs.Vga.{
  Vga, vga_init, vga_clear, vga_update_cursor, vga_putchar, vga_print, put_plain, wrap_column,
  wrap_row, vga_entry, vga_scroll,
}

-- The position is on the screen, and video memory has its size.
pub record OnScreen (st : Vga) : Type 0 where
  pub cells : length st.vga_buffer ≡ 2000
  pub rows : st.vga_row < 25
  pub columns : st.vga_column < 80

length-drop : (n : ℕ) (xs : List ℕ) → length (drop n xs) ≡ length xs - n
length-drop zero [] = refl
length-drop zero (x ∷ xs) = omega arith
length-drop (suc n) [] = omega arith
length-drop (suc n) (x ∷ xs) = omega (arith, length-drop n xs)

length-scroll : (st : Vga) → length st.vga_buffer ≡ 2000 → length (vga_scroll st).vga_buffer ≡ 2000
length-scroll st h =
    length-append (take 1920 (drop 80 st.vga_buffer)) (replicate 80 (vga_entry b' ' st.vga_color))
    ∙ omega (
      arith,
      length-take 1920 (drop 80 st.vga_buffer),
      length-drop 80 st.vga_buffer,
      length-replicate 80 (vga_entry b' ' st.vga_color),
    )

-- After the character the column may be 80 and the row 25.
record Near (st : Vga) : Type 0 where
  cells : length st.vga_buffer ≡ 2000
  rows : st.vga_row ≤ 25
  columns : st.vga_column ≤ 80
  corner : st.vga_column ≡ 80 → st.vga_row < 25

put_plain-Near : (st : Vga) (c : ℕ) → OnScreen st → Near (put_plain st c)
unfolding put_plain
put_plain-Near st c v =
    ground
      (arith, length-set st.vga_buffer (st.vga_row * 80 + st.vga_column) (vga_entry c st.vga_color))

wrap_row-OnScreen : (st : Vga) → Near st → st.vga_column < 80 → OnScreen (wrap_row st)
unfolding wrap_row
wrap_row-OnScreen st v l = elim (Bool-cases (leb 25 st.vga_row)) [
  | inl b ↦ rw b (record { cells = length-scroll st v.cells; rows = omega arith; columns = l })
  | inr b ↦ rw b (record { cells = v.cells; rows = ground arith; columns = l })
]

wrap_column-Near : (st : Vga) → Near st → Near (wrap_column st) × ((wrap_column st).vga_column < 80)
unfolding wrap_column
wrap_column-Near st v = ground arith

putchar-OnScreen : (st : Vga) (c : ℕ) → OnScreen st → OnScreen (vga_putchar st c)
unfolding vga_putchar vga_update_cursor
putchar-OnScreen st c v =
    let w = wrap_column-Near (put_plain st c) (put_plain-Near st c v) in
    let u = wrap_row-OnScreen (wrap_column (put_plain st c)) w.0 w.1 in
    record { cells = u.cells; rows = u.rows; columns = u.columns }

plain_inside : (st : Vga) (c : ℕ) → OnScreen st → (put_plain st c).beyond ≡ st.beyond
unfolding put_plain
plain_inside st c v = ground (arith, v)

row_inside : (st : Vga) → (wrap_row st).beyond ≡ st.beyond
unfolding wrap_row
row_inside st = elim (Bool-cases (leb 25 st.vga_row)) [ inl b ↦ rw b refl | inr b ↦ rw b refl ]

column_inside : (st : Vga) → (wrap_column st).beyond ≡ st.beyond
unfolding wrap_column
column_inside st = elim (Bool-cases (leb 80 st.vga_column)) [
  | inl b ↦ rw b refl
  | inr b ↦ rw b refl
]

putchar_inside : (st : Vga) (c : ℕ) → OnScreen st → (vga_putchar st c).beyond ≡ st.beyond
unfolding vga_putchar vga_update_cursor
putchar_inside st c v =
    row_inside (wrap_column (put_plain st c))
    ∙ (column_inside (put_plain st c) ∙ plain_inside st c v)

-- Printing any text from a position on the screen ends at a position on the screen, and no character is
-- written past the 2000 cells of video memory.
pub print-OnScreen :
    (st : Vga) (str : List ℕ)
    → OnScreen st
    → OnScreen (vga_print st str) × ((vga_print st str).beyond ≡ st.beyond)
unfolding vga_print
print-OnScreen st [] v = (v, refl)
print-OnScreen st (c ∷ str) v =
    let later = print-OnScreen (vga_putchar st c) str (putchar-OnScreen st c v) in
    (later.0, later.1 ∙ putchar_inside st c v)

pub init-OnScreen : (st : Vga) → OnScreen (vga_init st)
unfolding vga_init vga_clear vga_update_cursor
init-OnScreen st = record {
  cells = length-replicate 2000 (vga_entry b' ' 7);
  rows = omega arith;
  columns = omega arith;
}
