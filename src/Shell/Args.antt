-- ===== src/Shell/Args.antt =====
-- The arguments that `shell_parse_args` of src/shell.c finds are the words of the line.
use kfs.Prelude.{ℕ, ◌≡◌, Bool, true, false, List, [], ◌∷◌, ◌++◌, map, if◌then◌else◌}
use kfs.Shell.{Shell, parse_from, is_blank, text_at, before_mark}

-- The pieces between the blanks of a line, empty ones included.
abbrev put_front : ℕ → List (List ℕ) → List (List ℕ)
put_front c [] = (c ∷ []) ∷ []
put_front c (w ∷ ws) = (c ∷ w) ∷ ws

unfoldable pub pieces : List ℕ → List (List ℕ)
pieces [] = [] ∷ []
pieces (c ∷ cs) = let rest = pieces cs in if is_blank c then [] ∷ rest else put_front c rest

-- The texts that are not empty.
unfoldable pub nonempty : List (List ℕ) → List (List ℕ)
nonempty [] = []
nonempty ([] ∷ ws) = nonempty ws
nonempty ((c ∷ w) ∷ ws) = (c ∷ w) ∷ nonempty ws

-- The words of a line: its nonempty pieces between blanks.
unfoldable pub words : List ℕ → List (List ℕ)
unfolding pieces nonempty
words line = nonempty (pieces line)

-- The first piece.
abbrev head_piece : List (List ℕ) → List ℕ
head_piece [] = []
head_piece (w ∷ ws) = w

-- The words that begin in the pieces, the first piece left out if an argument has begun.
abbrev later : Bool → List (List ℕ) → List (List ℕ)
later true [] = []
later true (w ∷ ws) = nonempty ws
later false ws = nonempty ws

-- Where the line so far is `pre`, of length `p`, what the loop leaves of the rest `cs`: the arguments
-- are the words that begin in it, and an argument that has begun ends with the first piece.
record Splits (left p : ℕ) (pre : List ℕ) (b : Bool) (cs : List ℕ) : Type 0 where
  arguments :
      map (text_at (pre ++ (parse_from left p b cs).0)) (parse_from left p b cs).1
      ≡ later b (pieces cs)
  current : b ≡ true → before_mark (parse_from left p b cs).0 ≡ head_piece (pieces cs)
