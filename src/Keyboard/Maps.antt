-- ===== src/Keyboard/Maps.antt =====
-- The six scancode maps of src/keyboard.c, in the order of the scancodes. The arrays have 128
-- entries, of which those not given here are 0.
use kfs.Prelude.{ℕ, List, [], ◌∷◌}

abbrev pub scancode_to_ascii_qwerty : List ℕ
scancode_to_ascii_qwerty =
    0 ∷ 27 ∷ b'1' ∷ b'2' ∷ b'3' ∷ b'4' ∷ b'5' ∷ b'6' ∷ b'7' ∷ b'8' ∷ b'9' ∷ b'0' ∷ b'-' ∷ b'=' ∷ 8
    ∷ 9 ∷ b'q' ∷ b'w' ∷ b'e' ∷ b'r' ∷ b't' ∷ b'y' ∷ b'u' ∷ b'i' ∷ b'o' ∷ b'p' ∷ b'[' ∷ b']' ∷ 10 ∷ 0
    ∷ b'a' ∷ b's' ∷ b'd' ∷ b'f' ∷ b'g' ∷ b'h' ∷ b'j' ∷ b'k' ∷ b'l' ∷ b';' ∷ 39 ∷ b'`' ∷ 0 ∷ 92
    ∷ b'z' ∷ b'x' ∷ b'c' ∷ b'v' ∷ b'b' ∷ b'n' ∷ b'm' ∷ b',' ∷ b'.' ∷ b'/' ∷ 0 ∷ b'*' ∷ 0 ∷ b' ' ∷ 0
    ∷ 0 ∷ 0 ∷ 0 ∷ 0 ∷ 0 ∷ 0 ∷ 0 ∷ 0 ∷ 0 ∷ 0 ∷ 0 ∷ 0 ∷ 0 ∷ 0 ∷ 0 ∷ b'-' ∷ 0 ∷ 0 ∷ 0 ∷ b'+' ∷ []

abbrev pub scancode_to_ascii_qwerty_shift : List ℕ
scancode_to_ascii_qwerty_shift =
    0 ∷ 27 ∷ b'!' ∷ b'@' ∷ b'#' ∷ b'$' ∷ b'%' ∷ b'^' ∷ b'&' ∷ b'*' ∷ b'(' ∷ b')' ∷ b'_' ∷ b'+' ∷ 8
    ∷ 9 ∷ b'Q' ∷ b'W' ∷ b'E' ∷ b'R' ∷ b'T' ∷ b'Y' ∷ b'U' ∷ b'I' ∷ b'O' ∷ b'P' ∷ b'{' ∷ b'}' ∷ 10 ∷ 0
    ∷ b'A' ∷ b'S' ∷ b'D' ∷ b'F' ∷ b'G' ∷ b'H' ∷ b'J' ∷ b'K' ∷ b'L' ∷ b':' ∷ b'"' ∷ b'~' ∷ 0 ∷ b'|'
    ∷ b'Z' ∷ b'X' ∷ b'C' ∷ b'V' ∷ b'B' ∷ b'N' ∷ b'M' ∷ b'<' ∷ b'>' ∷ b'?' ∷ 0 ∷ b'*' ∷ 0 ∷ b' ' ∷ 0
    ∷ 0 ∷ 0 ∷ 0 ∷ 0 ∷ 0 ∷ 0 ∷ 0 ∷ 0 ∷ 0 ∷ 0 ∷ 0 ∷ 0 ∷ 0 ∷ 0 ∷ 0 ∷ b'-' ∷ 0 ∷ 0 ∷ 0 ∷ b'+' ∷ []

abbrev pub scancode_to_ascii_azerty : List ℕ
scancode_to_ascii_azerty =
    0 ∷ 27 ∷ b'&' ∷ b'e' ∷ b'"' ∷ 39 ∷ b'(' ∷ b'-' ∷ b'e' ∷ b'_' ∷ b'c' ∷ b'a' ∷ b')' ∷ b'=' ∷ 8 ∷ 9
    ∷ b'a' ∷ b'z' ∷ b'e' ∷ b'r' ∷ b't' ∷ b'y' ∷ b'u' ∷ b'i' ∷ b'o' ∷ b'p' ∷ b'^' ∷ b'$' ∷ 10 ∷ 0
    ∷ b'q' ∷ b's' ∷ b'd' ∷ b'f' ∷ b'g' ∷ b'h' ∷ b'j' ∷ b'k' ∷ b'l' ∷ b'm' ∷ b'u' ∷ b'`' ∷ 0 ∷ b'*'
    ∷ b'w' ∷ b'x' ∷ b'c' ∷ b'v' ∷ b'b' ∷ b'n' ∷ b',' ∷ b';' ∷ b':' ∷ b'!' ∷ 0 ∷ b'*' ∷ 0 ∷ b' ' ∷ 0
    ∷ 0 ∷ 0 ∷ 0 ∷ 0 ∷ 0 ∷ 0 ∷ 0 ∷ 0 ∷ 0 ∷ 0 ∷ 0 ∷ 0 ∷ 0 ∷ 0 ∷ 0 ∷ b'-' ∷ 0 ∷ 0 ∷ 0 ∷ b'+' ∷ []

abbrev pub scancode_to_ascii_azerty_shift : List ℕ
scancode_to_ascii_azerty_shift =
    0 ∷ 27 ∷ b'1' ∷ b'2' ∷ b'3' ∷ b'4' ∷ b'5' ∷ b'6' ∷ b'7' ∷ b'8' ∷ b'9' ∷ b'0' ∷ b'o' ∷ b'+' ∷ 8
    ∷ 9 ∷ b'A' ∷ b'Z' ∷ b'E' ∷ b'R' ∷ b'T' ∷ b'Y' ∷ b'U' ∷ b'I' ∷ b'O' ∷ b'P' ∷ b'"' ∷ b'L' ∷ 10 ∷ 0
    ∷ b'Q' ∷ b'S' ∷ b'D' ∷ b'F' ∷ b'G' ∷ b'H' ∷ b'J' ∷ b'K' ∷ b'L' ∷ b'M' ∷ b'%' ∷ b'P' ∷ 0 ∷ b'u'
    ∷ b'W' ∷ b'X' ∷ b'C' ∷ b'V' ∷ b'B' ∷ b'N' ∷ b'?' ∷ b'.' ∷ b'/' ∷ b'S' ∷ 0 ∷ b'*' ∷ 0 ∷ b' ' ∷ 0
    ∷ 0 ∷ 0 ∷ 0 ∷ 0 ∷ 0 ∷ 0 ∷ 0 ∷ 0 ∷ 0 ∷ 0 ∷ 0 ∷ 0 ∷ 0 ∷ 0 ∷ 0 ∷ b'-' ∷ 0 ∷ 0 ∷ 0 ∷ b'+' ∷ []

abbrev pub scancode_to_ascii_qwertz : List ℕ
scancode_to_ascii_qwertz =
    0 ∷ 27 ∷ b'1' ∷ b'2' ∷ b'3' ∷ b'4' ∷ b'5' ∷ b'6' ∷ b'7' ∷ b'8' ∷ b'9' ∷ b'0' ∷ b's' ∷ 39 ∷ 8 ∷ 9
    ∷ b'q' ∷ b'w' ∷ b'e' ∷ b'r' ∷ b't' ∷ b'z' ∷ b'u' ∷ b'i' ∷ b'o' ∷ b'p' ∷ b'u' ∷ b'+' ∷ 10 ∷ 0
    ∷ b'a' ∷ b's' ∷ b'd' ∷ b'f' ∷ b'g' ∷ b'h' ∷ b'j' ∷ b'k' ∷ b'l' ∷ b'o' ∷ b'a' ∷ b'^' ∷ 0 ∷ b'#'
    ∷ b'y' ∷ b'x' ∷ b'c' ∷ b'v' ∷ b'b' ∷ b'n' ∷ b'm' ∷ b',' ∷ b'.' ∷ b'-' ∷ 0 ∷ b'*' ∷ 0 ∷ b' ' ∷ 0
    ∷ 0 ∷ 0 ∷ 0 ∷ 0 ∷ 0 ∷ 0 ∷ 0 ∷ 0 ∷ 0 ∷ 0 ∷ 0 ∷ 0 ∷ 0 ∷ 0 ∷ 0 ∷ b'-' ∷ 0 ∷ 0 ∷ 0 ∷ b'+' ∷ []

abbrev pub scancode_to_ascii_qwertz_shift : List ℕ
scancode_to_ascii_qwertz_shift =
    0 ∷ 27 ∷ b'!' ∷ b'"' ∷ b'P' ∷ b'$' ∷ b'%' ∷ b'&' ∷ b'/' ∷ b'(' ∷ b')' ∷ b'=' ∷ b'?' ∷ b'`' ∷ 8
    ∷ 9 ∷ b'Q' ∷ b'W' ∷ b'E' ∷ b'R' ∷ b'T' ∷ b'Z' ∷ b'U' ∷ b'I' ∷ b'O' ∷ b'P' ∷ b'U' ∷ b'*' ∷ 10 ∷ 0
    ∷ b'A' ∷ b'S' ∷ b'D' ∷ b'F' ∷ b'G' ∷ b'H' ∷ b'J' ∷ b'K' ∷ b'L' ∷ b'O' ∷ b'A' ∷ b'o' ∷ 0 ∷ 39
    ∷ b'Y' ∷ b'X' ∷ b'C' ∷ b'V' ∷ b'B' ∷ b'N' ∷ b'M' ∷ b';' ∷ b':' ∷ b'_' ∷ 0 ∷ b'*' ∷ 0 ∷ b' ' ∷ 0
    ∷ 0 ∷ 0 ∷ 0 ∷ 0 ∷ 0 ∷ 0 ∷ 0 ∷ 0 ∷ 0 ∷ 0 ∷ 0 ∷ 0 ∷ 0 ∷ 0 ∷ 0 ∷ b'-' ∷ 0 ∷ 0 ∷ 0 ∷ b'+' ∷ []
