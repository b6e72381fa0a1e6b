-- ===== src/Vga/Print.antt =====
-- Where src/vga.c writes the characters of a text.
use kfs.Prelude.{
  ℕ, suc, ◌+◌, ◌-◌, ◌*◌, ◌/◌, ◌%◌, ◌<◌, ◌≡◌, ◌≢◌, refl, sym, ap, subst, true, false, ◌&&◌, List, [],
  ◌∷◌, ◌==◌, leb, ltb, length, set, get_or, get_or-set_self, get_or-set_ne, length-set, All,
  if◌then◌else◌, arith, Bool-cases, inl, inr, ◌∙◌,
}
use kfs.Vga.{
  Vga, vga_update_cursor, vga_putchar, vga_print, put_plain, wrap_column, wrap_row, vga_entry,
}
use kfs.Vga.Bounds.{OnScreen}

ap₃ :
    {A : Type 0} {a a' b b' c c' : ℕ} (f : ℕ → ℕ → ℕ → A)
    → a ≡ a'
    → b ≡ b'
    → c ≡ c'
    → f a b c ≡ f a' b' c'
ap₃ f p q r = λ i. f (p i) (q i) (r i)

-- A character other than newline, carriage return and tab.
abbrev pub IsPlain : ℕ → Type 0
IsPlain c = (c ≢ b'\n') × (c ≢ b'\r') × (c ≢ b'\t')

-- The number of the cell at the position.
abbrev pub place : Vga → ℕ
place st = st.vga_row * 80 + st.vga_column

-- The state after a plain character that is not written to the last cell.
abbrev advanced : Vga → ℕ → Vga
advanced st c = record st {
  vga_buffer = set st.vga_buffer (place st) (vga_entry c st.vga_color);
  vga_row = (place st + 1) / 80;
  vga_column = (place st + 1) % 80;
  cursor = place st + 1;
}

put_plain-plain :
    (st : Vga) (c : ℕ)
    → IsPlain c
    → place st < 2000
    → put_plain st c ≡ record st {
      vga_buffer = set st.vga_buffer (place st) (vga_entry c st.vga_color);
      vga_column = st.vga_column + 1;
    }
unfolding put_plain
put_plain-plain st c p h =
    let inside : ltb (place st) 2000 ≡ true = ground arith in
    let a : (c == b'\n') ≡ false = ground (arith, p.0) in
    let b : (c == b'\r') ≡ false = ground (arith, p.1) in
    let t : (c == b'\t') ≡ false = ground (arith, p.2) in rw (a, b, t, inside) refl

putchar-advanced :
    (st : Vga) (c : ℕ)
    → OnScreen st
    → IsPlain c
    → place st < 1999
    → vga_putchar st c ≡ advanced st c
unfolding vga_putchar wrap_column wrap_row vga_update_cursor
putchar-advanced st c v p h =
    let q = put_plain-plain st c p (omega (arith, h)) in
    let l : leb 25 st.vga_row ≡ false = ground (arith, v.rows) in
    elim (Bool-cases (leb 80 (st.vga_column + 1))) [
      | inl w ↦
          let m : leb 25 (st.vga_row + 1) ≡ false = ground (arith, v.rows, v.columns) in
          let e : st.vga_row + 1 ≡ (place st + 1) / 80 = ground (arith, v.columns) in
          let f : 0 ≡ (place st + 1) % 80 = ground (arith, v.columns) in
          let g : ((st.vga_row + 1) * 80 + 0) % 0x10000 ≡ place st + 1 =
            ground (arith, v.columns, v.rows) in
          rw (q, w, m, g)
            (ap₃
              (λ x y z. record st {
                vga_buffer = set st.vga_buffer (place st) (vga_entry c st.vga_color);
                vga_row = x;
                vga_column = y;
                cursor = z;
              })
              e f refl)
      | inr w ↦
          let e : st.vga_row ≡ (place st + 1) / 80 = ground (arith, v.columns) in
          let f : st.vga_column + 1 ≡ (place st + 1) % 80 = ground (arith, v.columns) in
          let g : (st.vga_row * 80 + (st.vga_column + 1)) % 0x10000 ≡ place st + 1 =
            ground (arith, v.columns, v.rows) in
          rw (q, w, l, g)
            (ap₃
              (λ x y z. record st {
                vga_buffer = set st.vga_buffer (place st) (vga_entry c st.vga_color);
                vga_row = x;
                vga_column = y;
                cursor = z;
              })
              e f refl)
    ]

-- Cell `k` of a screen `b` after a text is written from cell `at` on.
abbrev cell_after : List ℕ → ℕ → List ℕ → ℕ → ℕ → ℕ
cell_after b at str color k =
    if leb at k && ltb k (at + length str)
    then vga_entry (get_or str (k - at) 0) color
    else get_or b k 0

cell_after-set :
    (b : List ℕ) (at c color : ℕ) (str : List ℕ) (k : ℕ)
    → at < length b
    → cell_after (set b at (vga_entry c color)) (at + 1) str color k
      ≡ cell_after b at (c ∷ str) color k
cell_after-set b at c color str k h = elim (Bool-cases (k == at)) [
  | inl e ↦
      let e' : k ≡ at = ground arith in
      let x : (leb (at + 1) k && ltb k (at + 1 + length str)) ≡ false = ground arith in
      let y : (leb at k && ltb k (at + suc (length str))) ≡ true = ground arith in
      let z : k - at ≡ 0 = omega arith in
      rw (x, y, z)
        (ap (λ j. get_or (set b at (vga_entry c color)) j 0) e'
          ∙ get_or-set_self b at (vga_entry c color) 0 h)
  | inr e ↦ elim (Bool-cases (leb at k && ltb k (at + suc (length str)))) [
    | inl y ↦
        let x : (leb (at + 1) k && ltb k (at + 1 + length str)) ≡ true = ground arith in
        let z : k - at ≡ suc (k - (at + 1)) = ground arith in rw (x, y, z) refl
    | inr y ↦
        let x : (leb (at + 1) k && ltb k (at + 1 + length str)) ≡ false = ground arith in
        rw (x, y) (get_or-set_ne b at k (vga_entry c color) 0 (ground arith))
  ]
]

-- `u` is `st` with the text written from its position on.
abbrev Wrote : Vga → List ℕ → Vga → Type 0
Wrote st str u =
    (place u ≡ place st + length str)
    × (u.cursor ≡ place u)
    × ((k : ℕ) → get_or u.vga_buffer k 0 ≡ cell_after st.vga_buffer (place st) str st.vga_color k)

advanced-OnScreen : (st : Vga) (c : ℕ) → OnScreen st → place st < 1999 → OnScreen (advanced st c)
advanced-OnScreen st c v h = record {
  cells = length-set st.vga_buffer (place st) (vga_entry c st.vga_color) ∙ v.cells;
  rows = omega arith;
  columns = omega arith;
}

-- A text of characters other than newline, carriage return and tab that ends before the last cell of
-- the screen is written in the current colour into the cells from the position on, one for each
-- character, and into no other; the position moves on by its length, with the cursor of the hardware.
print-written :
    (st : Vga) (str : List ℕ)
    → OnScreen st
    → st.cursor ≡ place st
    → All IsPlain str
    → place st + length str < 2000
    → let st' = vga_print st str in
      (place st' ≡ place st + length str)
      × (st'.cursor ≡ place st')
      × ((k : ℕ)
          → get_or st'.vga_buffer k 0 ≡ (
              if leb (place st) k && ltb k (place st + length str)
              then vga_entry (get_or str (k - place st) 0) st.vga_color
              else get_or st.vga_buffer k 0))
unfolding vga_print
print-written st [] v e p h = (
  omega arith,
  e,
  λ k. let z : (leb (place st) k && ltb k (place st + 0)) ≡ false = ground arith in rw z refl,
)
print-written st (c ∷ str) v e p h =
    let next : place (advanced st c) ≡ place st + 1 = omega arith in
    let ih =
      print-written (advanced st c) str (advanced-OnScreen st c v (omega arith)) (omega arith) p.1
        (omega arith) in
    subst (λ u. Wrote st (c ∷ str) (vga_print u str))
      (sym (putchar-advanced st c v p.0 (omega arith)))
      (
        omega (arith, ih.0),
        ih.1,
        λ k.
            ih.2 k
            ∙ (ap
                  (λ at.
                    cell_after (set st.vga_buffer (place st) (vga_entry c st.vga_color)) at str
                      st.vga_color k)
                  next
                ∙ cell_after-set st.vga_buffer (place st) c st.vga_color str k
                    (omega (arith, v.cells))),
      )
