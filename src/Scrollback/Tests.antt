-- ===== src/Scrollback/Tests.antt =====
-- Runs of the scrollback, and the theorems at concrete states.
use kfs.Prelude.{ℕ, zero, suc, ◌≡◌, refl, true, false, List, [], ◌∷◌, pos, negsuc}
use kfs.Scrollback.{
  Scrollback, Line, scrollback_add_line, scrollback_scroll, scrollback_reset, render,
}
use kfs.Scrollback.Ring.{add_all, Keeps, add_all-Keeps}
use kfs.Scrollback.Shown.{start, scroll, add_line, reset-Reach}

-- The lines `n` down to 1.
abbrev numbered : ℕ → List Line
numbered zero = []
numbered (suc n) = (suc n ∷ []) ∷ numbered n

abbrev plain : Scrollback
plain = record {
  buffer = [];
  head = 0;
  count = 0;
  offset = 0;
  saved_screen = [];
  is_scrolled = false;
  vga = (1 ∷ []) ∷ [];
}

-- A scroll below the bottom leaves the scrolled screen and forgets that it is scrolled.
past_the_bottom :
    (scrollback_scroll
      (record plain { offset = 2; is_scrolled = true; saved_screen = (9 ∷ []) ∷ [] })
      (negsuc 2)).vga
    ≡ (1 ∷ []) ∷ []
unfolding scrollback_scroll scrollback_reset render
past_the_bottom = refl

add_all-Keeps_example : Keeps (add_all plain (numbered 3)) (numbered 3)
add_all-Keeps_example = add_all-Keeps plain (numbered 3)

reset-Reach_example :
    ((scrollback_reset (scrollback_scroll (scrollback_add_line plain (7 ∷ [])) (pos 4))).vga
      ≡ plain.vga)
    × ((scrollback_reset
          (scrollback_scroll (scrollback_add_line plain (7 ∷ [])) (pos 4))).is_scrolled
        ≡ false)
reset-Reach_example = reset-Reach plain _ refl (scroll (pos 4) tt (add_line (7 ∷ []) start))
