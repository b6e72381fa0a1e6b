-- ===== src/Keyboard/Line.antt =====
-- `keyboard_getline` of src/keyboard.c, on the keys that `keyboard_getchar` gives it, in order. The
-- echo on the screen is left out.
use kfs.Prelude.{
  ℕ, zero, suc, ◌+◌, ◌-◌, Bool, ◌&&◌, ◌||◌, Option, none, some, List, [], ◌∷◌, ◌==◌, leb, ltb, set,
  if◌then◌else◌, ℤ, pos, negsuc, minus_one,
}

abbrev pub is_enter : ℕ → Bool
is_enter c = (c == b'\n') || (c == b'\r')

abbrev pub is_erase : ℕ → Bool
is_erase c = (c == 8) || (c == 0x7f)

abbrev pub is_printable : ℕ → Bool
is_printable c = leb 32 c && ltb c 127

-- The position, the buffer and the keys that are left when Enter comes; `none` while the call waits
-- for more keys.
abbrev pub LineResult : Type 0
LineResult = Option (ℕ × List ℕ × List ℕ)

-- The loop, with the buffer and the position so far.
unfoldable pub getline_from : ℕ → List ℕ → ℕ → List ℕ → LineResult
getline_from max_len buffer at [] = none
getline_from max_len buffer at (c ∷ cs) =
    let erased = getline_from max_len buffer (at - 1) cs in
    let added = getline_from max_len (set buffer at c) (at + 1) cs in
    let ignored = getline_from max_len buffer at cs in
    if is_enter c
    then some (at, set buffer at 0, cs)
    else if is_erase c
    then erased
    else if is_printable c && ltb at (max_len - 1)
    then added
    else ignored

-- What the call returns with the buffer and the keys left. `none` for the buffer is NULL.
unfoldable pub keyboard_getline : Option (List ℕ) → ℤ → List ℕ → Option (ℤ × List ℕ × List ℕ)
unfolding getline_from
keyboard_getline none max_len keys = some (minus_one, [], keys)
keyboard_getline (some buffer) (negsuc n) keys = some (minus_one, buffer, keys)
keyboard_getline (some buffer) (pos zero) keys = some (minus_one, buffer, keys)
keyboard_getline (some buffer) (pos (suc n)) keys = elim (getline_from (suc n) buffer 0 keys) [
  | none ↦ none
  | some (at, after, rest) ↦ some (pos at, after, rest)
]
