-- ===== src/Mouse/Tests.antt =====
-- A run of the mouse, and the theorem at concrete packets.
use kfs.Prelude.{refl, false, List, [], ◌∷◌, pos, arith, inl, inr}
use kfs.Scrollback.{Scrollback}
use kfs.Mouse.{Mouse}
use kfs.Mouse.Packets.{Arrival, noise, packet, packets-scroll, mouse_run, bytes_of, turns, Idle}

abbrev plain : Scrollback
plain = record {
  buffer = [];
  head = 0;
  count = 0;
  offset = 0;
  saved_screen = [];
  is_scrolled = false;
  vga = (1 ∷ []) ∷ [];
}

abbrev idle : Mouse
idle = record {
  mouse_cycle = 0;
  mouse_byte = 0 ∷ 0 ∷ 0 ∷ 0 ∷ [];
  scroll_delta = pos 0;
  scrollback = plain;
}

-- A byte from the keyboard, a byte out of step, and two packets.
abbrev arrivals : List Arrival
arrivals =
    noise (1, 8)
    ∷ packet (record { flags = 8; x_movement = 1; y_movement = 2; z_movement = 0xff })
    ∷ noise (0x21, 0)
    ∷ packet (record { flags = 9; x_movement = 0; y_movement = 0; z_movement = 0 })
    ∷ []

packets-scroll_example : Idle (mouse_run idle (bytes_of arrivals)) (turns plain arrivals)
packets-scroll_example =
    packets-scroll idle plain arrivals (record { cycle = refl; delta = refl; screen = refl })
      (inl refl, ((refl, omega arith), (inr refl, ((refl, omega arith), tt))))
