-- ===== src/Keyboard/Edited.antt =====
-- The line that `keyboard_getline` of src/keyboard.c reads.
use kfs.Prelude.{
  ℕ, suc, ◌+◌, ◌-◌, ◌<◌, ◌≤◌, ◌≡◌, refl, ap, sym, ◌∙◌, true, false, ◌&&◌, Option, none, some,
  some-injective, List, [], ◌∷◌, ◌++◌, ltb, length, length-append, length-take, length-set, take,
  set, take-set, take-take_pred, if◌then◌else◌, arith, Bool-cases, inl, inr, pos,
}
use kfs.Keyboard.Line.{keyboard_getline, getline_from, is_enter, is_erase, is_printable, LineResult}

-- A line of at most `limit` characters as the keys edit it, with the keys after Enter: a printable
-- key is added at the end while there is room, Backspace takes the last one away.
unfoldable pub edited : ℕ → List ℕ → List ℕ → Option (List ℕ × List ℕ)
edited limit line [] = none
edited limit line (c ∷ cs) =
    let erased = edited limit (take (length line - 1) line) cs in
    let added = edited limit (line ++ (c ∷ [])) cs in
    let ignored = edited limit line cs in
    if is_enter c
    then some (line, cs)
    else if is_erase c
    then erased
    else if is_printable c && ltb (length line) limit
    then added
    else ignored

-- The text up to and with its end mark, and the keys left.
abbrev line_view : ℕ × List ℕ × List ℕ → ℕ × List ℕ × List ℕ
line_view (at, b, rest) = (at, take (suc at) b, rest)

abbrev viewed : LineResult → Option (ℕ × List ℕ × List ℕ)
viewed none = none
viewed (some r) = some (line_view r)

abbrev stored_line : Option (List ℕ × List ℕ) → Option (ℕ × List ℕ × List ℕ)
stored_line none = none
stored_line (some (line, rest)) = some (length line, line ++ (0 ∷ []), rest)

-- The line so far is the first `at` bytes of the buffer.
record Written (max_len at : ℕ) (b line : List ℕ) : Type 0 where
  capacity : max_len ≤ length b
  below : at < max_len
  text : take at b ≡ line
  size : length line ≡ at

getline_from-edited :
    (n at : ℕ) (b line keys : List ℕ)
    → Written (suc n) at b line
    → viewed (getline_from (suc n) b at keys) ≡ stored_line (edited n line keys)
unfolding getline_from edited
getline_from-edited n at b line [] v = refl
getline_from-edited n at b line (c ∷ cs) v =
    let erased = getline_from-edited n (at - 1) b (take (length line - 1) line) cs (record {
      capacity = v.capacity;
      below = omega (arith, v.below);
      text = take-take_pred at b ∙ rw (v.text, v.size) refl;
      size = omega (arith, length-take (length line - 1) line, v.size);
    }) in
    let ignored = getline_from-edited n at b line cs v in
    elim (Bool-cases (is_enter c)) [
      | inl e ↦
          rw (e, v.size)
            (ap (λ t. some (at, t, cs))
              (take-set at 0 b (omega (arith, v.capacity, v.below))
                ∙ ap (λ t. t ++ (0 ∷ [])) v.text))
      | inr e ↦ elim (Bool-cases (is_erase c)) [
        | inl d ↦ rw (e, d) erased
        | inr d ↦ elim (Bool-cases (is_printable c && ltb at (suc n - 1))) [
          | inl p ↦
              let q : (is_printable c && ltb (length line) n) ≡ true = ground (arith, v.size) in
              let one_more : at + 1 ≡ suc at = omega arith in
              let added =
                getline_from-edited n (at + 1) (set b at c) (line ++ (c ∷ [])) cs (record {
                  capacity = rw (length-set b at c) v.capacity;
                  below = ground arith;
                  text =
                      ap (λ k. take k (set b at c)) one_more
                      ∙ (take-set at c b (omega (arith, v.capacity, v.below))
                          ∙ ap (λ t. t ++ (c ∷ [])) v.text);
                  size = omega (arith, length-append line (c ∷ []), v.size);
                }) in
              rw (e, d, p, q) added
          | inr p ↦
              let q : (is_printable c && ltb (length line) n) ≡ false = ground (arith, v.size) in
              rw (e, d, p, q) ignored
        ]
      ]
    ]

edited_bounded :
    (limit : ℕ) (line keys : List ℕ) {out rest : List ℕ}
    → length line ≤ limit
    → edited limit line keys ≡ some (out, rest)
    → length out ≤ limit
unfolding edited
edited_bounded limit line [] h e = absurd (cc)
edited_bounded limit line (c ∷ cs) h e = elim (Bool-cases (is_enter c)) [
  | inl b ↦ ground arith
  | inr b ↦ elim (Bool-cases (is_erase c)) [
    | inl d ↦
        edited_bounded limit (take (length line - 1) line) cs
          (omega (arith, length-take (length line - 1) line)) (rw (b, d) at e)
    | inr d ↦ elim (Bool-cases (is_printable c && ltb (length line) limit)) [
      | inl p ↦
          edited_bounded limit (line ++ (c ∷ [])) cs (ground (arith, length-append line (c ∷ [])))
            (rw (b, d, p) at e)
      | inr p ↦ edited_bounded limit line cs h (rw (b, d, p) at e)
    ]
  ]
]

-- `keyboard_getline` into a buffer of at least `max_len` bytes, `max_len` positive, reads the line as
-- the keys edit it, at most `max_len - 1` characters of it: if Enter comes it returns the length,
-- leaves the line with its end mark at the start of the buffer and the later keys unread; if the keys
-- have no Enter it waits.
pub getline-edited :
    (buffer : List ℕ) (n : ℕ) (keys : List ℕ)
    → suc n ≤ length buffer
    → (edited n [] keys ≡ none → keyboard_getline (some buffer) (pos (suc n)) keys ≡ none)
      × ((line rest : List ℕ)
          → edited n [] keys ≡ some (line, rest)
          → (after : List ℕ) × (keyboard_getline (some buffer) (pos (suc n)) keys
              ≡ some (pos (length line), after, rest))
            × (take (suc (length line)) after ≡ line ++ (0 ∷ []))
            × (length line ≤ n))
unfolding keyboard_getline
getline-edited buffer n keys fits = go (getline_from (suc n) buffer 0 keys) refl
  where
    start : Written (suc n) 0 buffer []
    start = record { capacity = fits; below = omega arith; text = refl; size = refl }

    same : viewed (getline_from (suc n) buffer 0 keys) ≡ stored_line (edited n [] keys)
    same = getline_from-edited n 0 buffer [] keys start

    go :
        (r : LineResult)
        → getline_from (suc n) buffer 0 keys ≡ r
        → (edited n [] keys ≡ none → keyboard_getline (some buffer) (pos (suc n)) keys ≡ none)
          × ((line rest : List ℕ)
              → edited n [] keys ≡ some (line, rest)
              → (after : List ℕ) × (keyboard_getline (some buffer) (pos (suc n)) keys
                  ≡ some (pos (length line), after, rest))
                × (take (suc (length line)) after ≡ line ++ (0 ∷ []))
                × (length line ≤ n))
    go none e = (λ w. rw (e, keyboard_getline) refl, λ line rest w. absurd (ground (arith, same)))
    go (some (at, after, rest')) e = (
      λ w. absurd (ground (arith, same)),
      λ line rest w.
          let q =
            some-injective (line_view (at, after, rest')) (length line, line ++ (0 ∷ []), rest)
              (ap viewed (sym e) ∙ (same ∙ ap stored_line w)) in
          let at' : at ≡ length line = ap (λ x. x.0) q in
          let rest_same : rest' ≡ rest = ap (λ x. x.2) q in
          let text : take (suc at) after ≡ line ++ (0 ∷ []) = ap (λ x. x.1) q in
          (
            after,
            rw (e, keyboard_getline, at', rest_same) refl,
            rw at' at text,
            edited_bounded n [] keys (omega arith) w,
          ),
    )
