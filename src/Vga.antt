-- ===== src/Vga.antt =====
-- The text screen, src/vga.c with include/vga.h.
--
-- Video memory is the list of its 2000 cells, row by row. The cursor of the hardware is what
-- `vga_update_cursor` writes to its ports; `beyond` has the cells that a character was written to past
-- video memory, where the C code writes all the same; the shape of the cursor is left out.
pub mod Bounds
pub mod Print
mod Tests
use kfs.Prelude.{
  ℕ, ◌+◌, ◌-◌, ◌*◌, ◌%◌, Bool, true, false, ◌&&◌, List, [], ◌∷◌, ◌++◌, ◌==◌, leb, ltb, set,
  replicate, take, drop, if◌then◌else◌,
}

abbrev pub vga_width : ℕ
vga_width = 80

abbrev pub vga_height : ℕ
vga_height = 25

pub record Vga : Type 0 where
  pub vga_buffer : List ℕ
  pub vga_row : ℕ
  pub vga_column : ℕ
  pub vga_color : ℕ
  pub cursor : ℕ
  pub beyond : List (ℕ × ℕ)

-- `fg | bg << 4`, for colours below 16.
abbrev pub vga_entry_color : ℕ → ℕ → ℕ
vga_entry_color fg bg = fg + bg * 16

-- `c | color << 8`, for bytes.
abbrev pub vga_entry : ℕ → ℕ → ℕ
vga_entry c color = c + color * 256

unfoldable pub vga_update_cursor : Vga → Vga
vga_update_cursor st = record st { cursor = (st.vga_row * vga_width + st.vga_column) % 0x10000 }

unfoldable pub vga_clear : Vga → Vga
vga_clear st = record st {
  vga_buffer = replicate (vga_width * vga_height) (vga_entry b' ' st.vga_color);
  vga_row = 0;
  vga_column = 0;
}

unfoldable pub vga_init : Vga → Vga
unfolding vga_update_cursor vga_clear
vga_init st =
    vga_update_cursor
      (vga_clear (record st { vga_row = 0; vga_column = 0; vga_color = vga_entry_color 7 0 }))

abbrev pub vga_set_color : Vga → ℕ → ℕ → Vga
vga_set_color st fg bg = record st { vga_color = vga_entry_color fg bg }

abbrev pub vga_putentryat : Vga → (c color x y : ℕ) → Vga
vga_putentryat st c color x y =
    let index = y * vga_width + x in
    let entry = vga_entry c color in
    if ltb index (vga_width * vga_height)
    then record st { vga_buffer = set st.vga_buffer index entry }
    else record st { beyond = (index, entry) ∷ st.beyond }

-- The copy goes upwards, so that no cell is read after it was written.
abbrev pub vga_scroll : Vga → Vga
vga_scroll st = record st {
  vga_buffer =
      take 1920 (drop vga_width st.vga_buffer) ++ replicate vga_width (vga_entry b' ' st.vga_color);
}

-- What a character does before the wrap.
unfoldable pub put_plain : Vga → ℕ → Vga
put_plain st c =
    if c == b'\n'
    then record st { vga_column = 0; vga_row = st.vga_row + 1 }
    else if c == b'\r'
    then record st { vga_column = 0 }
    else if c == b'\t'
    then record st { vga_column = st.vga_column + 4 - (st.vga_column + 4) % 4 }
    else record (vga_putentryat st c st.vga_color st.vga_column st.vga_row) {
      vga_column = st.vga_column + 1;
    }

unfoldable pub wrap_column : Vga → Vga
wrap_column st =
    if leb vga_width st.vga_column
    then record st { vga_column = 0; vga_row = st.vga_row + 1 }
    else st

unfoldable pub wrap_row : Vga → Vga
wrap_row st =
    if leb vga_height st.vga_row then record (vga_scroll st) { vga_row = vga_height - 1 } else st

-- A character is a byte.
unfoldable pub vga_putchar : Vga → ℕ → Vga
unfolding put_plain wrap_column wrap_row vga_update_cursor
vga_putchar st c = vga_update_cursor (wrap_row (wrap_column (put_plain st c)))

-- The text before its end mark.
unfoldable pub vga_print : Vga → List ℕ → Vga
vga_print st [] = st
vga_print st (c ∷ str) = vga_print (vga_putchar st c) str

unfoldable pub vga_set_cursor_position : Vga → (row col : ℕ) → Vga
unfolding vga_update_cursor
vga_set_cursor_position st row col =
    if ltb row vga_height && ltb col vga_width
    then vga_update_cursor (record st { vga_row = row; vga_column = col })
    else st
