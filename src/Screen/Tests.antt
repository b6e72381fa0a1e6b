-- ===== src/Screen/Tests.antt =====
-- The theorem on virtual screens at a concrete state.
use kfs.Prelude.{◌≡◌, refl, [], ◌∷◌, replicate, pos, arith}
use kfs.Screen.{Screens, screen_switch}
use kfs.Screen.Switching.{IsReady, print_on, switch-switch}

abbrev second : Screens
second = record {
  vga = record {
    vga_buffer = replicate 2000 0x0741;
    vga_row = 3;
    vga_column = 5;
    vga_color = 7;
    cursor = 245;
    beyond = [];
  };
  screen_buffers = replicate 4 (replicate 2000 0x0720);
  current_screen = 1;
  screen_cursors = replicate 4 (0, 0);
}

second-IsReady : IsReady second
second-IsReady = record {
  buffers = refl;
  cursors = refl;
  current = omega arith;
  shown = record { cells = refl; rows = omega arith; columns = omega arith };
}

switch-switch_example :
    let st' = screen_switch (print_on (screen_switch second (pos 3)) (b'h' ∷ b'i' ∷ [])) (pos 1) in
    (st'.vga.vga_buffer ≡ replicate 2000 0x0741)
    × (st'.vga.vga_row ≡ 3)
    × (st'.vga.vga_column ≡ 5)
    × (st'.current_screen ≡ 1)
switch-switch_example =
    switch-switch second 3 (b'h' ∷ b'i' ∷ []) second-IsReady (omega arith) (omega arith)
