-- ===== src/CString/Tests.antt =====
-- Runs of the string functions, and the theorems at concrete bytes.
use kfs.Prelude.{ℕ, ◌≡◌, refl, none, some, List, [], ◌∷◌, negsuc, arith}
use kfs.CString.{int, uint, digits_low}
use kfs.CString.Compare.{IsText}
use kfs.CString.Format.{snprintf, format_from, convert, emit, emit_int, decimal, hexadecimal}

abbrev cat : List ℕ
cat = b'c' ∷ b'a' ∷ b't' ∷ []

abbrev car : List ℕ
car = b'c' ∷ b'a' ∷ b'r' ∷ []

abbrev cat-IsText : IsText cat
cat-IsText = (omega arith, (omega arith, (omega arith, tt)))

abbrev car-IsText : IsText car
car-IsText = (omega arith, (omega arith, (omega arith, tt)))

abbrev buffer : List ℕ
buffer = 1 ∷ 2 ∷ 3 ∷ 4 ∷ 5 ∷ []

-- The `%d` and the `%x` conversions, and a buffer that is too short.
abbrev format : List ℕ
format = b'%' ∷ b'd' ∷ b' ' ∷ b'%' ∷ b'x' ∷ 0 ∷ []

numbers :
    snprintf 16 format (int (negsuc 41) ∷ uint 255 ∷ [])
    ≡ some (b'-' ∷ b'4' ∷ b'2' ∷ b' ' ∷ b'f' ∷ b'f' ∷ [])
unfolding snprintf format_from convert emit emit_int decimal hexadecimal digits_low
numbers = refl

abbrev cut_text : List ℕ
cut_text = b'-' ∷ b'4' ∷ b'2' ∷ []

cut : snprintf 4 format (int (negsuc 41) ∷ uint 255 ∷ []) ≡ some cut_text
unfolding snprintf format_from convert emit emit_int decimal hexadecimal digits_low
cut = refl

-- A format that ends in `%` is read past its end mark.
past_the_end : snprintf 16 (b'%' ∷ 0 ∷ []) [] ≡ none
unfolding snprintf format_from convert
past_the_end = refl
