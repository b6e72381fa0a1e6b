-- ===== src/Keyboard/Tests.antt =====
-- Runs of the keyboard driver, and the theorems at concrete input.
use kfs.Prelude.{
  some, none, pos, length, take, suc, ◌≤◌, ◌++◌, arith, ℕ, ◌≡◌, refl, List, [], ◌∷◌, replicate,
}
use kfs.Keyboard.{Keyboard, released, keyboard_init, keyboard_set_layout, qwerty, azerty}
use kfs.Keyboard.Line.{keyboard_getline}
use kfs.Keyboard.Edited.{edited, getline-edited}
use kfs.Keyboard.Typing.{
  KeyEvent, scancode, getchar, typed, waiting_after, down, read_run, typed-read,
}

abbrev cold : Keyboard
cold = record {
  keys = released;
  keyboard_buffer = replicate 256 0;
  buffer_read_pos = 7;
  buffer_write_pos = 3;
}

-- Shift down, a key, Shift up, a read of that key and one more, the key again, Alt down, F2, two reads.
abbrev events : List KeyEvent
events =
    scancode 0x2a
    ∷ scancode 0x10
    ∷ scancode 0xaa
    ∷ getchar
    ∷ getchar
    ∷ scancode 0x10
    ∷ scancode 0x38
    ∷ scancode 0x3c
    ∷ getchar
    ∷ getchar
    ∷ []

typed-read_example :
    read_run (keyboard_set_layout (keyboard_init cold) qwerty) events ≡ b'Q' ∷ 0 ∷ b'q' ∷ 0x81 ∷ []
unfolding typed waiting_after down
typed-read_example = typed-read cold qwerty events refl

azerty_keys : typed azerty [] [] (scancode 0x10 ∷ getchar ∷ []) ≡ b'a' ∷ []
unfolding typed waiting_after down
azerty_keys = refl

-- With both Shift keys down, the release of one already ends the capitals.
one_shift_released :
    typed qwerty [] []
      (scancode 0x2a ∷ scancode 0x36 ∷ scancode 0xaa ∷ scancode 0x10 ∷ getchar ∷ [])
    ≡ b'q' ∷ []
unfolding typed waiting_after down
one_shift_released = refl

abbrev pressed : List ℕ
pressed = b'l' ∷ b'x' ∷ 8 ∷ b's' ∷ b'!' ∷ b'\n' ∷ b'p' ∷ []

-- `lx`, Backspace, `s!`, Enter; `p` is left for the next call.
getline-edited_example :
    (edited 2 [] pressed ≡ none → keyboard_getline (some (replicate 4 0)) (pos 3) pressed ≡ none)
    × ((line rest : List ℕ)
        → edited 2 [] pressed ≡ some (line, rest)
        → (after : List ℕ) × (keyboard_getline (some (replicate 4 0)) (pos 3) pressed
            ≡ some (pos (length line), after, rest))
          × (take (suc (length line)) after ≡ line ++ (0 ∷ []))
          × (length line ≤ 2))
getline-edited_example = getline-edited (replicate 4 0) 2 pressed (omega arith)

-- With room for two characters the third one is dropped.
pressed_line : edited 2 [] pressed ≡ some (b'l' ∷ b's' ∷ [], b'p' ∷ [])
unfolding edited
pressed_line = refl
