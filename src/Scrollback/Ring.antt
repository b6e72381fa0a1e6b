-- ===== src/Scrollback/Ring.antt =====
-- What the ring buffer of src/scrollback.c holds after a series of lines.
use kfs.Prelude.{
  ℕ, zero, suc, ◌+◌, ◌-◌, ◌%◌, ◌<◌, ◌≡◌, ◌≢◌, refl, ◌∙◌, false, List, [], ◌∷◌, ltb, length, min,
  get_or, set, take, if◌then◌else◌, arith, get_or-set_self, get_or-set_ne, length-set,
  length-replicate,
}
use kfs.Scrollback.{Scrollback, Line, scrollback_init, scrollback_add_line, blank_line}

-- The state after lines that are added to an empty buffer, the last one first in the list.
unfoldable pub add_all : Scrollback → List Line → Scrollback
unfolding scrollback_add_line
add_all st [] = scrollback_init st
add_all st (l ∷ ls) = scrollback_add_line (add_all st ls) l

-- The slot of the line that was added `k` lines before the last one.
abbrev pub back : ℕ → ℕ → ℕ
back head k = (head + 199 - k) % 200

-- On a screen at the bottom, the lines `ls` were added, the last one first.
pub record Keeps (st : Scrollback) (ls : List Line) : Type 0 where
  pub plain : st.is_scrolled ≡ false
  pub bottom : st.offset ≡ 0
  pub slots : length st.buffer ≡ 200
  pub counted : st.count ≡ min (length ls) 200
  pub placed : st.head ≡ length ls % 200
  pub kept :
      (k : ℕ) → k < st.count → get_or st.buffer (back st.head k) [] ≡ take 80 (get_or ls k [])

add-Keeps :
    (st : Scrollback) (ls : List Line) (l : Line)
    → Keeps st ls
    → Keeps (scrollback_add_line st l) (l ∷ ls)
unfolding scrollback_add_line
add-Keeps st ls l v = rw v.plain (record {
  plain = refl;
  bottom = v.bottom;
  slots = length-set st.buffer st.head (take 80 l) ∙ v.slots;
  counted = ground (arith, v.counted);
  placed = ground (arith, v.placed);
  kept = kept';
})
  where
    kept' :
        (k : ℕ)
        → k < (if ltb st.count 200 then st.count + 1 else st.count)
        → get_or (set st.buffer st.head (take 80 l)) (back ((st.head + 1) % 200) k) []
          ≡ take 80 (get_or (l ∷ ls) k [])
    kept' zero h =
        let e : back ((st.head + 1) % 200) 0 ≡ st.head = omega (arith, v.placed) in
        rw e (get_or-set_self st.buffer st.head (take 80 l) [] (omega (arith, v.placed, v.slots)))
    kept' (suc k) h =
        let small : k < st.count = ground (arith, v.counted) in
        let few : suc k < 200 = ground (arith, v.counted) in
        let e : back ((st.head + 1) % 200) (suc k) ≡ back st.head k = omega (arith, v.placed) in
        let n : st.head ≢ back st.head k = omega (arith, v.placed) in
        rw e (get_or-set_ne st.buffer st.head (back st.head k) (take 80 l) [] n ∙ v.kept k small)

-- However many lines are added, the buffer holds the last 200 of them, cut to the screen's width: the
-- line added `k` lines before the last one is in the slot `k + 1` places before the head, going
-- round, the count is the number of lines up to 200, and the head is that number modulo 200.
pub add_all-Keeps : (st : Scrollback) (ls : List Line) → Keeps (add_all st ls) ls
unfolding add_all scrollback_init
add_all-Keeps st [] = record {
  plain = refl;
  bottom = refl;
  slots = length-replicate 200 blank_line;
  counted = refl;
  placed = refl;
  kept = λ k h. absurd (omega arith);
}
add_all-Keeps st (l ∷ ls) = add-Keeps (add_all st ls) ls l (add_all-Keeps st ls)
