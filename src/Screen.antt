-- ===== src/Screen.antt =====
-- The four virtual screens, src/screen.c with include/screen.h, over the text screen.
mod Switching
mod Tests
use kfs.Prelude.{
  ℕ, ◌*◌, Bool, true, false, ◌||◌, Option, none, some, List, [], ◌∷◌, ◌==◌, ltb, get_or, set,
  replicate, if◌then◌else◌, ℤ, pos, negsuc,
}
use kfs.Vga.{Vga, vga_set_cursor_position, vga_width, vga_height}

abbrev pub max_screens : ℕ
max_screens = 4

pub record Screens : Type 0 where
  pub vga : Vga
  pub screen_buffers : List (List ℕ)
  pub current_screen : ℕ
  pub screen_cursors : List (ℕ × ℕ)

-- `screen_cursors` holds row and column.
screen_init : Screens → Screens
screen_init st = record st {
  screen_buffers =
      set (replicate max_screens (replicate (vga_width * vga_height) 0x0720)) 0 st.vga.vga_buffer;
  current_screen = 0;
  screen_cursors = replicate max_screens (0, 0);
}

unfoldable pub screen_save : Screens → Screens
screen_save st = record st {
  screen_buffers = set st.screen_buffers st.current_screen st.vga.vga_buffer;
  screen_cursors = set st.screen_cursors st.current_screen (st.vga.vga_row, st.vga.vga_column);
}

-- A screen number from 0 to 3.
abbrev pub screen_number : ℤ → Option ℕ
screen_number (pos n) = if ltb n max_screens then some n else none
screen_number (negsuc n) = none

unfoldable pub restore_at : Screens → ℕ → Screens
restore_at st n =
    let at = get_or st.screen_cursors n (0, 0) in
    record st {
      vga =
          vga_set_cursor_position (record st.vga { vga_buffer = get_or st.screen_buffers n [] })
            at.0 at.1;
    }

unfoldable pub screen_restore : Screens → ℤ → Screens
unfolding restore_at
screen_restore st screen_num = elim (screen_number screen_num) [
  | none ↦ st
  | some n ↦ restore_at st n
]

abbrev pub switch_to : Screens → ℕ → Screens
switch_to st n = screen_restore (record (screen_save st) { current_screen = n }) (pos n)

unfoldable pub screen_switch : Screens → ℤ → Screens
unfolding screen_save screen_restore
screen_switch st screen_num = elim (screen_number screen_num) [
  | none ↦ st
  | some n ↦ if n == st.current_screen then st else switch_to st n
]
