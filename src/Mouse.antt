-- ===== src/Mouse.antt =====
-- The mouse, src/mouse.c with include/mouse.h: its packets and the scrolling that they ask for.
--
-- An interrupt reads the status port and, if the byte is the mouse's, the data port. The commands of
-- `mouse_init` to the device are left out.
mod Packets
mod Tests
use kfs.Prelude.{
  ℕ, zero, suc, ◌+◌, ◌-◌, ◌/◌, ◌%◌, ◌==◌, Bool, ◌||◌, not, List, [], ◌∷◌, ltb, set, ℤ, pos, negsuc,
  if◌then◌else◌,
}
use kfs.Interrupts.Pic.{Pic, pic_mask_irq, pic_unmask_irq}
use kfs.Scrollback.{Scrollback, scrollback_scroll}

-- With the scrollback that the handler scrolls. The bytes of the packet are kept as they arrive.
pub record Mouse : Type 0 where
  pub mouse_cycle : ℕ
  pub mouse_byte : List ℕ
  pub scroll_delta : ℤ
  pub scrollback : Scrollback

-- The negation of a byte read as `int8_t`.
abbrev pub minus_byte : ℕ → ℤ
minus_byte zero = pos 0
minus_byte (suc n) = if ltb (suc n) 128 then negsuc n else pos (256 - suc n)

-- The status bit of a byte from the mouse, and the bit that the first byte of a packet has.
abbrev pub from_mouse : ℕ → Bool
from_mouse status = status / 0x20 % 2 == 1

abbrev pub always_1 : ℕ → Bool
always_1 flags = flags / 8 % 2 == 1

-- The fourth byte.
unfoldable pub wheel : Mouse → ℕ → Mouse
wheel st z = if z == 0 then record st { mouse_cycle = 0 } else record st {
  scrollback = scrollback_scroll st.scrollback (minus_byte z);
  scroll_delta = pos 0;
  mouse_cycle = 0;
}

unfoldable packet_byte : Mouse → ℕ → Mouse
unfolding wheel
packet_byte st byte =
    let stored = record st { mouse_byte = set st.mouse_byte st.mouse_cycle byte } in
    let next = record stored { mouse_cycle = st.mouse_cycle + 1 } in
    if st.mouse_cycle == 0
    then (if always_1 byte then next else stored)
    else if (st.mouse_cycle == 1) || (st.mouse_cycle == 2)
    then next
    else if st.mouse_cycle == 3
    then wheel stored byte
    else st

-- On the status and the byte that the ports hold.
unfoldable pub mouse_handler : Mouse → (status byte : ℕ) → Mouse
unfolding packet_byte
mouse_handler st status byte = if not (from_mouse status) then st else packet_byte st byte

abbrev pub mouse_enable_interrupts : Pic → Pic
mouse_enable_interrupts pic = pic_unmask_irq pic 12

abbrev pub mouse_disable_interrupts : Pic → Pic
mouse_disable_interrupts pic = pic_mask_irq pic 12

abbrev pub mouse_get_scroll_delta : Mouse → ℤ × Mouse
mouse_get_scroll_delta st = (st.scroll_delta, record st { scroll_delta = pos 0 })
