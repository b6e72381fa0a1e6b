-- ===== src/Scrollback/Shown.antt =====
-- What `scrollback_scroll` and `scrollback_reset` of src/scrollback.c put on the screen.
use kfs.Prelude.{
  ℕ, zero, suc, ◌+◌, ◌-◌, ◌%◌, ◌<◌, ◌≤◌, ◌≡◌, refl, ap, ap₂, ◌∙◌, true, false, List, [], ◌∷◌, ◌==◌,
  ltb, length, ℤ, pos, negsuc, get_or, take, if◌then◌else◌, arith, Bool-cases, inl, inr,
}
use kfs.Scrollback.{
  Scrollback, Line, scrollback_add_line, scrollback_scroll, scrollback_reset, render, rows,
  row_line, save_screen, clamp, max_offset, with_indicator,
}
use kfs.Scrollback.Ring.{add_all, Keeps, add_all-Keeps, back}

get_or-rows :
    (st : Scrollback) (start n row j : ℕ)
    → j < n
    → get_or (rows st start n row) j [] ≡ row_line st start (row + j)
unfolding rows
get_or-rows st start zero row j h = absurd (omega arith)
get_or-rows st start (suc n) row zero h = ap (row_line st start) (omega arith)
get_or-rows st start (suc n) row (suc j) h =
    get_or-rows st start n (row + 1) j (omega arith) ∙ ap (row_line st start) (omega arith)

get_or-with_indicator :
    (rs : List Line) (j : ℕ) → get_or (with_indicator rs) (suc j) [] ≡ get_or rs (suc j) []
get_or-with_indicator [] j = refl
get_or-with_indicator (r ∷ rs) j = refl

rows-from_top :
    (st : Scrollback) (start n j : ℕ)
    → j < n
    → get_or (rows st start n 0) j [] ≡ row_line st start j
rows-from_top st start n j h = get_or-rows st start n 0 j h ∙ ap (row_line st start) (omega arith)

render_scrolled :
    (st : Scrollback)
    → st.is_scrolled ≡ true
    → (st.offset == 0) ≡ false
    → (render st).vga ≡ with_indicator (rows st (st.count - 25 - st.offset) 25 0)
unfolding render
render_scrolled st p z = rw (p, z) refl

scroll_up :
    (st : Scrollback) (d : ℕ)
    → st.is_scrolled ≡ false
    → st.offset ≡ 0
    → 0 < d
    → d ≤ max_offset st
    → (scrollback_scroll st (pos d)).vga
      ≡ with_indicator (
          rows
            (record st { saved_screen = st.vga; is_scrolled = true; offset = d })
            (st.count - 25 - d)
            25
            0)
unfolding scrollback_scroll
scroll_up st zero p z h g = absurd (omega arith)
scroll_up st (suc d) p z h g =
    let saved : save_screen st ≡ record st { saved_screen = st.vga; is_scrolled = true } =
      rw p refl in
    let c : clamp (max_offset st) (st.offset + suc d) ≡ suc d = ground arith in
    ap₂ (λ s o. (render (record s { offset = o })).vga) saved c
    ∙ render_scrolled (record st { saved_screen = st.vga; is_scrolled = true; offset = suc d }) refl
        (ground arith)

-- The number of the slot from which row `r` is drawn is that of its line while nothing was dropped.
row_line-ring :
    (st : Scrollback) (ls : List Line) (d r : ℕ) (o : ℕ) (s : List Line)
    → Keeps st ls
    → length ls ≤ 200
    → d + 25 ≤ length ls
    → r < 25
    → row_line
        (record st { saved_screen = s; is_scrolled = true; offset = o })
        (st.count - 25 - d)
        r
      ≡ take 80 (get_or ls (d + 24 - r) [])
row_line-ring st ls d r o s v few some_left in_screen =
    let c : st.count ≡ length ls = omega (arith, v.counted) in
    let t : ltb (st.count - 25 - d + r) st.count ≡ true = ground (arith, c) in
    let e : (st.count - 25 - d + r) % 200 ≡ back st.head (d + 24 - r) =
      omega (arith, c, v.placed) in
    rw (t, e) (v.kept (d + 24 - r) (omega (arith, c)))

-- While at most 200 lines were added, scrolling up by `d` lines from the bottom shows in every row
-- below the first the line that stood `d` lines above the last 25: row `r` shows the line that was
-- added `d + 24 - r` lines before the last one, cut to the screen's width.
scroll-shows :
    (st : Scrollback) (ls : List Line) (d r : ℕ)
    → 0 < d
    → d + 25 ≤ length ls
    → length ls ≤ 200
    → 0 < r
    → r < 25
    → get_or (scrollback_scroll (add_all st ls) (pos d)).vga r []
      ≡ take 80 (get_or ls (d + 24 - r) [])
scroll-shows st ls d zero up enough few h g = absurd (omega arith)
scroll-shows st ls d (suc r) up enough few h g =
    let v = add_all-Keeps st ls in
    let e = scroll_up (add_all st ls) d v.plain v.bottom up (omega (arith, v.counted)) in
    ap (λ vga. get_or vga (suc r) []) e
    ∙ get_or-with_indicator _ r
    ∙ rows-from_top _ _ 25 (suc r) g
    ∙ row_line-ring (add_all st ls) ls d (suc r) d (add_all st ls).vga v few enough g

-- A scroll that does not go below the bottom while scrolled.
abbrev pub Above : Scrollback → ℤ → Type 0
Above st (pos d) = Unit
Above st (negsuc n) = suc n ≤ st.offset

-- Steps during which nothing else writes the screen.
pub data Reach (st : Scrollback) : Scrollback → Type 0 where
  start : Reach st st
  scroll :
      {u : Scrollback} (delta : ℤ)
      → Above u delta
      → Reach st u
      → Reach st (scrollback_scroll u delta)
  add_line : {u : Scrollback} (line : Line) → Reach st u → Reach st (scrollback_add_line u line)

-- The screen `v` is shown, or saved while another is shown.
abbrev Intact : List Line → Scrollback → Type 0
Intact v st = (if st.is_scrolled then st.saved_screen else st.vga) ≡ v

render-Intact : (v : List Line) (st : Scrollback) → Intact v st → Intact v (render st)
unfolding render
render-Intact v st h = ground (arith, h)

scroll-Intact :
    (v : List Line) (st : Scrollback) (delta : ℤ)
    → Above st delta
    → Intact v st
    → Intact v (scrollback_scroll st delta)
unfolding scrollback_scroll
scroll-Intact v st (pos zero) a h = h
scroll-Intact v st (pos (suc d)) a h =
    render-Intact v (record (save_screen st) { offset = clamp (max_offset st) (st.offset + suc d) })
      (ground (arith, h))
scroll-Intact v st (negsuc n) a h =
    let l : ltb st.offset (suc n) ≡ false = ground arith in
    rw l (render-Intact v (record st { offset = clamp (max_offset st) (st.offset - suc n) }) h)

Reach-Intact : {st u : Scrollback} → st.is_scrolled ≡ false → Reach st u → Intact st.vga u
unfolding scrollback_add_line
Reach-Intact {st} p start = rw p refl
Reach-Intact {st} p (scroll {u} delta a r) = scroll-Intact st.vga u delta a (Reach-Intact p r)
Reach-Intact {st} p (add_line {u} line r) = ground (arith, Reach-Intact p r)

-- However the screen was scrolled since it stood at the bottom, and whatever lines were added, if no
-- scroll asked to go below the bottom `scrollback_reset` brings back the screen from before.
pub reset-Reach :
    (st u : Scrollback)
    → st.is_scrolled ≡ false
    → Reach st u
    → ((scrollback_reset u).vga ≡ st.vga) × ((scrollback_reset u).is_scrolled ≡ false)
unfolding scrollback_reset
reset-Reach st u p r = elim (Bool-cases u.is_scrolled) [
  | inl b ↦ ground (arith, Reach-Intact p r)
  | inr b ↦ ground (arith, Reach-Intact p r)
]
