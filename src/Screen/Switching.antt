-- ===== src/Screen/Switching.antt =====
-- What `screen_switch` of src/screen.c keeps.
use kfs.Prelude.{
  ℕ, ◌<◌, ◌≡◌, ◌≢◌, refl, sym, ap, subst, ◌∙◌, true, false, ◌&&◌, some, List, [], ◌==◌, ltb, length,
  get_or, set, get_or-set_self, get_or-set_ne, arith, pos,
}
use kfs.Vga.{vga_print, vga_set_cursor_position, vga_update_cursor}
use kfs.Vga.Bounds.{OnScreen}
use kfs.Screen.{
  Screens, screen_switch, screen_save, screen_restore, restore_at, switch_to, screen_number,
}

-- There are four screens, and the position on each is on the screen.
pub record IsReady (st : Screens) : Type 0 where
  pub buffers : length st.screen_buffers ≡ 4
  pub cursors : length st.screen_cursors ≡ 4
  pub current : st.current_screen < 4
  pub shown : OnScreen st.vga

-- Text printed on the screen that is shown.
abbrev pub print_on : Screens → List ℕ → Screens
print_on st str = record st { vga = vga_print st.vga str }

valid_number : (n : ℕ) → n < 4 → screen_number (pos n) ≡ some n
valid_number n h = let l : ltb n 4 ≡ true = ground arith in rw l refl

restore_lem : (st : Screens) (n : ℕ) → n < 4 → screen_restore st (pos n) ≡ restore_at st n
unfolding screen_restore
restore_lem st n h = rw (valid_number n h, screen_restore) refl

switch_lem :
    (st : Screens) (n : ℕ)
    → n < 4
    → n ≢ st.current_screen
    → screen_switch st (pos n) ≡ restore_at (record (screen_save st) { current_screen = n }) n
unfolding screen_switch
switch_lem st n h d = taken ∙ restore_lem (record (screen_save st) { current_screen = n }) n h
  where
    other : (n == st.current_screen) ≡ false
    other = ground arith

    taken : screen_switch st (pos n) ≡ switch_to st n
    taken = rw (valid_number n h, screen_switch, other) refl

-- A position that is on the screen is restored.
restored :
    (st : Screens) (n row col : ℕ)
    → get_or st.screen_cursors n (0, 0) ≡ (row, col)
    → row < 25
    → col < 80
    → ((restore_at st n).vga.vga_buffer ≡ get_or st.screen_buffers n [])
      × ((restore_at st n).vga.vga_row ≡ row)
      × ((restore_at st n).vga.vga_column ≡ col)
unfolding restore_at vga_set_cursor_position vga_update_cursor
restored st n row col e r c =
    let g : (ltb row 25 && ltb col 80) ≡ true = ground arith in rw (e, g) (refl, refl, refl)

-- After a switch to another screen, any printing there and a switch back, the screen shows the same
-- cells as before, and the position is the same.
pub switch-switch :
    (st : Screens) (n : ℕ) (str : List ℕ)
    → IsReady st
    → n < 4
    → n ≢ st.current_screen
    → let st' = screen_switch (print_on (screen_switch st (pos n)) str) (pos st.current_screen) in
      (st'.vga.vga_buffer ≡ st.vga.vga_buffer)
      × (st'.vga.vga_row ≡ st.vga.vga_row)
      × (st'.vga.vga_column ≡ st.vga.vga_column)
      × (st'.current_screen ≡ st.current_screen)
unfolding screen_save restore_at
switch-switch st n str v h d =
    let there = restore_at (record (screen_save st) { current_screen = n }) n in
    let back = record (screen_save (print_on there str)) { current_screen = cur } in
    let away = λ (e : n ≡ cur). d e in
    let buffer : get_or back.screen_buffers cur [] ≡ st.vga.vga_buffer =
      get_or-set_ne (set st.screen_buffers cur st.vga.vga_buffer) n cur
        (vga_print there.vga str).vga_buffer [] away
      ∙ get_or-set_self st.screen_buffers cur st.vga.vga_buffer []
          (omega (arith, v.buffers, v.current)) in
    let at : get_or back.screen_cursors cur (0, 0) ≡ (st.vga.vga_row, st.vga.vga_column) =
      get_or-set_ne (set st.screen_cursors cur (st.vga.vga_row, st.vga.vga_column)) n cur
        ((vga_print there.vga str).vga_row, (vga_print there.vga str).vga_column) (0, 0) away
      ∙ get_or-set_self st.screen_cursors cur (st.vga.vga_row, st.vga.vga_column) (0, 0)
          (omega (arith, v.cursors, v.current)) in
    let r = restored back cur st.vga.vga_row st.vga.vga_column at v.shown.rows v.shown.columns in
    subst Same (sym whole) (r.0 ∙ buffer, r.1, r.2, refl)
  where
    cur : ℕ
    cur = st.current_screen

    Same : Screens → Type 0
    Same u =
        (u.vga.vga_buffer ≡ st.vga.vga_buffer)
        × (u.vga.vga_row ≡ st.vga.vga_row)
        × (u.vga.vga_column ≡ st.vga.vga_column)
        × (u.current_screen ≡ st.current_screen)

    whole :
        screen_switch (print_on (screen_switch st (pos n)) str) (pos cur)
        ≡ restore_at
            (record (screen_save
              (print_on (restore_at (record (screen_save st) { current_screen = n }) n) str)) {
                current_screen = cur;
              })
            cur
    whole =
        ap (λ u. screen_switch (print_on u str) (pos cur)) (switch_lem st n h d)
        ∙ switch_lem (print_on (restore_at (record (screen_save st) { current_screen = n }) n) str)
            cur v.current (λ e. d (sym e))
