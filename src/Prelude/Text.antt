-- ===== src/Prelude/Text.antt =====
-- Texts as the lists of their bytes.
use Prim.Native.Char.{code}
use Prim.Native.String.{String}
use Prim.Native.Nat.{ℕ}
use mathlib.Core.List.{List, [], ◌∷◌}

-- The code points of a text: its bytes, as the messages of the kernel are ASCII. A literal has no end
-- mark. `String` has its own `[]` and `∷`.
abbrev pub codes : String → List ℕ
codes String.[] = []
codes (String.◌∷◌ c s) = code c ∷ codes s
