-- ===== src/Keyboard.antt =====
-- The keyboard driver, src/keyboard.c with include/keyboard.h.
--
-- The scancode that `keyboard_interrupt_handler` reads from the port is its argument, a byte. The
-- registration of the handler and the mask of the interrupt controller are left out.
pub mod Maps
mod Queue
mod Typing
pub mod Line
mod Edited
mod Tests
use kfs.Prelude.{
  ℕ, ◌+◌, ◌-◌, ◌%◌, Bool, true, false, ◌&&◌, ◌||◌, not, List, [], ◌∷◌, ◌==◌, leb, get_or, set,
  replicate, if◌then◌else◌,
}
use kfs.Keyboard.Maps.{
  scancode_to_ascii_qwerty, scancode_to_ascii_qwerty_shift, scancode_to_ascii_azerty,
  scancode_to_ascii_azerty_shift, scancode_to_ascii_qwertz, scancode_to_ascii_qwertz_shift,
}

abbrev pub keyboard_buffer_size : ℕ
keyboard_buffer_size = 256

abbrev pub key_f1 : ℕ
key_f1 = 0x80

pub data KeyboardLayout : Type 0 where
  qwerty azerty qwertz : KeyboardLayout

pub record Modifiers : Type 0 where
  pub shift_pressed : Bool
  pub ctrl_pressed : Bool
  pub alt_pressed : Bool
  pub current_layout : KeyboardLayout

pub record Keyboard : Type 0 where
  pub keys : Modifiers
  pub keyboard_buffer : List ℕ
  pub buffer_read_pos : ℕ
  pub buffer_write_pos : ℕ

abbrev pub released : Modifiers
released = record {
  shift_pressed = false;
  ctrl_pressed = false;
  alt_pressed = false;
  current_layout = qwerty;
}

-- Over a buffer with any contents.
unfoldable pub keyboard_init : Keyboard → Keyboard
keyboard_init st = record st { keys = released; buffer_read_pos = 0; buffer_write_pos = 0 }

abbrev pub buffer_is_empty : Keyboard → Bool
buffer_is_empty st = st.buffer_read_pos == st.buffer_write_pos

abbrev pub buffer_is_full : Keyboard → Bool
buffer_is_full st = (st.buffer_write_pos + 1) % keyboard_buffer_size == st.buffer_read_pos

unfoldable pub buffer_put : Keyboard → ℕ → Keyboard
buffer_put st c = if buffer_is_full st then st else record st {
  keyboard_buffer = set st.keyboard_buffer st.buffer_write_pos c;
  buffer_write_pos = (st.buffer_write_pos + 1) % keyboard_buffer_size;
}

unfoldable pub buffer_get : Keyboard → ℕ × Keyboard
buffer_get st = if buffer_is_empty st then (0, st) else (
  get_or st.keyboard_buffer st.buffer_read_pos 0,
  record st { buffer_read_pos = (st.buffer_read_pos + 1) % keyboard_buffer_size },
)

abbrev pub keyboard_haskey : Keyboard → Bool
keyboard_haskey st = not (buffer_is_empty st)

abbrev pub keyboard_getchar : Keyboard → ℕ × Keyboard
keyboard_getchar st = buffer_get st

abbrev pub get_scancode_map : KeyboardLayout → Bool → List ℕ
get_scancode_map azerty shifted =
    if shifted then scancode_to_ascii_azerty_shift else scancode_to_ascii_azerty
get_scancode_map qwertz shifted =
    if shifted then scancode_to_ascii_qwertz_shift else scancode_to_ascii_qwertz
get_scancode_map qwerty shifted =
    if shifted then scancode_to_ascii_qwerty_shift else scancode_to_ascii_qwerty

abbrev pub keyboard_set_layout : Keyboard → KeyboardLayout → Keyboard
keyboard_set_layout st layout = record st { keys = record st.keys { current_layout = layout } }

abbrev pub is_shift : ℕ → Bool
is_shift code = (code == 0x2a) || (code == 0x36)

-- A key with bit 7 of its scancode set is released.
unfoldable pub key_released : Modifiers → ℕ → Modifiers
key_released m code =
    if is_shift code
    then record m { shift_pressed = false }
    else if code == 0x1d
    then record m { ctrl_pressed = false }
    else if code == 0x38
    then record m { alt_pressed = false }
    else m

-- The character of a key by the map, or nothing for 0.
abbrev pub put_ascii : Keyboard → ℕ → Keyboard
put_ascii st ascii = if ascii == 0 then st else buffer_put st ascii

unfoldable pub key_pressed : Keyboard → ℕ → Keyboard
key_pressed st code =
    let m = st.keys in
    if is_shift code
    then record st { keys = record m { shift_pressed = true } }
    else if code == 0x1d
    then record st { keys = record m { ctrl_pressed = true } }
    else if code == 0x38
    then record st { keys = record m { alt_pressed = true } }
    else if m.alt_pressed && (leb 0x3b code && leb code 0x44)
    then buffer_put st (key_f1 + (code - 0x3b))
    else put_ascii st (get_or (get_scancode_map m.current_layout m.shift_pressed) code 0)

unfoldable pub keyboard_interrupt_handler : Keyboard → ℕ → Keyboard
unfolding key_released key_pressed
keyboard_interrupt_handler st scancode =
    if leb 0x80 scancode
    then record st { keys = key_released st.keys (scancode % 0x80) }
    else key_pressed st scancode
