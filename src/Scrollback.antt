-- ===== src/Scrollback.antt =====
-- The lines that left the screen, src/scrollback.c with include/scrollback.h.
--
-- A line is the list of its cells, and video memory is the list of the 25 lines on the screen. `int`
-- sums are taken not to overflow: the offset is at most 175 and the code scrolls by a few lines.
mod Ring
mod Shown
mod Tests
use kfs.Prelude.{
  ℕ, zero, suc, ◌+◌, ◌-◌, ◌%◌, Bool, true, false, List, [], ◌∷◌, ◌++◌, ◌==◌, ltb, ℤ, pos, negsuc,
  get_or, set, replicate, take, map, if◌then◌else◌,
}
use kfs.Vga.{vga_width, vga_height}

abbrev pub scrollback_lines : ℕ
scrollback_lines = 200

-- A space in light grey on black.
abbrev pub blank : ℕ
blank = 0x0720

abbrev pub Line : Type 0
Line = List ℕ

abbrev pub blank_line : Line
blank_line = replicate vga_width blank

pub record Scrollback : Type 0 where
  pub buffer : List Line
  pub head : ℕ
  pub count : ℕ
  pub offset : ℕ
  pub saved_screen : List Line
  pub is_scrolled : Bool
  pub vga : List Line

-- On a machine in any state `st`.
unfoldable pub scrollback_init : Scrollback → Scrollback
scrollback_init st = record st {
  buffer = replicate scrollback_lines blank_line;
  head = 0;
  count = 0;
  offset = 0;
  is_scrolled = false;
}

unfoldable pub scrollback_add_line : Scrollback → Line → Scrollback
scrollback_add_line st line_data = if st.is_scrolled then st else record st {
  buffer = set st.buffer st.head (take vga_width line_data);
  head = (st.head + 1) % scrollback_lines;
  count = if ltb st.count scrollback_lines then st.count + 1 else st.count;
}

-- `scrollback_count - VGA_HEIGHT`, and 0 where that is negative.
abbrev pub max_offset : Scrollback → ℕ
max_offset st = st.count - vga_height

-- The line that row `row` shows, the first row showing line `start_line` of the buffer.
abbrev pub row_line : Scrollback → ℕ → ℕ → Line
row_line st start_line row =
    if ltb (start_line + row) st.count
    then get_or st.buffer ((start_line + row) % scrollback_lines) []
    else blank_line

-- `n` rows from `row` on.
unfoldable pub rows : Scrollback → ℕ → ℕ → ℕ → List Line
rows st start_line zero row = []
rows st start_line (suc n) row = row_line st start_line row ∷ rows st start_line n (row + 1)

-- `[SCROLL]` in light brown.
abbrev pub indicator : Line
indicator = map (λ c. 0x0e00 + c) (b'[' ∷ b'S' ∷ b'C' ∷ b'R' ∷ b'O' ∷ b'L' ∷ b'L' ∷ b']' ∷ [])

-- The indicator covers the last 8 cells of the first row.
abbrev pub with_indicator : List Line → List Line
with_indicator [] = []
with_indicator (r ∷ rs) = (take 72 r ++ indicator) ∷ rs

-- The rendering, once the offset is set.
unfoldable pub render : Scrollback → Scrollback
unfolding rows
render st =
    if st.is_scrolled
    then (if st.offset == 0
        then record st { is_scrolled = false; vga = st.saved_screen }
        else record st {
          vga = with_indicator (rows st (st.count - vga_height - st.offset) vga_height 0);
        })
    else st

unfoldable pub scrollback_reset : Scrollback → Scrollback
scrollback_reset st =
    if st.is_scrolled
    then record st { vga = st.saved_screen; is_scrolled = false; offset = 0 }
    else record st { offset = 0 }

abbrev pub save_screen : Scrollback → Scrollback
save_screen st =
    if st.is_scrolled then st else record st { saved_screen = st.vga; is_scrolled = true }

abbrev pub clamp : ℕ → ℕ → ℕ
clamp limit n = if ltb limit n then limit else n

-- A negative offset clears `is_scrolled` before the reset, which so leaves the screen as it is.
unfoldable pub scrollback_scroll : Scrollback → ℤ → Scrollback
unfolding render scrollback_reset
scrollback_scroll st (pos zero) = st
scrollback_scroll st (pos (suc d)) =
    render (record (save_screen st) { offset = clamp (max_offset st) (st.offset + suc d) })
scrollback_scroll st (negsuc n) =
    if ltb st.offset (suc n)
    then render (scrollback_reset (record st { offset = 0; is_scrolled = false }))
    else render (record st { offset = clamp (max_offset st) (st.offset - suc n) })
