-- ===== src/Shell/Hidden.antt =====
-- What the login screen of src/shell.c shows of a password.
use kfs.Prelude.{
  ℕ, ◌-◌, ◌≡◌, ◌≢◌, ◌⊎◌, refl, ap, ap₂, sym, ◌∙◌, true, false, ◌&&◌, inl, inr, List, [], ◌∷◌, ◌==◌,
  ltb, length, length-append, length-take, arith, if◌then◌else◌, Bool-cases,
}
use kfs.Vga.{vga_putchar}
use kfs.Shell.{Shell, on_screen}
use kfs.Shell.Login.{
  LoginScreen, waiting, shell_login, login_key, password_key, is_printable, is_backspace, rub_text,
  rub_out, shorter,
}

-- Two keys that are the same, or two printable ones.
abbrev pub AlikeKeys : ℕ → ℕ → Type 0
AlikeKeys c d = (c ≡ d) ⊎ ((is_printable c ≡ true) × (is_printable d ≡ true))

-- Two lists of keys that are alike one by one, with no Enter.
abbrev pub Alike : List ℕ → List ℕ → Type 0
Alike [] [] = Unit
Alike [] (d ∷ ds) = ⊥
Alike (c ∷ cs) [] = ⊥
Alike (c ∷ cs) (d ∷ ds) = AlikeKeys c d × (c ≢ b'\n') × Alike cs ds

-- Two login screens that enter a password and show the same, with passwords of the same length.
pub record SameView (st st' : LoginScreen) : Type 0 where
  pub shown : st.shell ≡ st'.shell
  pub size : length st.password ≡ length st'.password
  pub mode : st.entering_password ≡ true
  pub mode' : st'.entering_password ≡ true

record SameClass (c d : ℕ) : Type 0 where
  null : (c == 0) ≡ (d == 0)
  enter : (d == b'\n') ≡ false
  erase : is_backspace c ≡ is_backspace d
  print : is_printable c ≡ is_printable d

alike-SameClass : (c d : ℕ) → AlikeKeys c d → c ≢ b'\n' → SameClass c d
alike-SameClass c d (inl e) n = record {
  null = ap (λ k. k == 0) e;
  enter = ground (arith, e, n);
  erase = ap is_backspace e;
  print = ap is_printable e;
}
alike-SameClass c d (inr (p, q)) n = record {
  null = ground arith;
  enter = ground arith;
  erase = ground arith;
  print = p ∙ sym q;
}

shorter_size : (xs ys : List ℕ) → length xs ≡ length ys → length (shorter xs) ≡ length (shorter ys)
shorter_size xs ys e =
    omega (arith, e, length-take (length xs - 1) xs, length-take (length ys - 1) ys)

rub_same :
    (xs ys : List ℕ) (a b : Shell) → length xs ≡ length ys → a ≡ b → rub_text xs a ≡ rub_text ys b
unfolding rub_text
rub_same xs ys a b e f = ap₂ (λ n sh. if ltb 0 n then on_screen rub_out sh else sh) e f

key-SameView :
    (st st' : LoginScreen) (c d : ℕ)
    → SameView st st'
    → SameClass c d
    → SameView (password_key st c) (password_key st' d)
unfolding password_key
key-SameView st st' c d v k = elim (Bool-cases (is_backspace d)) [
  | inl b ↦
      rw (k.erase, b)
        (record {
          shown = rub_same st.password st'.password st.shell st'.shell v.size v.shown;
          size = shorter_size st.password st'.password v.size;
          mode = v.mode;
          mode' = v.mode';
        })
  | inr b ↦ elim (Bool-cases (is_printable d && ltb (length st'.password) 31)) [
    | inl p ↦
        rw (k.erase, b, k.print, v.size, p)
          (record {
            shown = ap (λ sh. on_screen (λ w. vga_putchar w b'*') sh) v.shown;
            size = omega (
              arith,
              v.size,
              length-append st.password (c ∷ []),
              length-append st'.password (d ∷ []),
            );
            mode = v.mode;
            mode' = v.mode';
          })
    | inr p ↦ rw (k.erase, b, k.print, v.size, p) v
  ]
]

login_waits : (st : LoginScreen) → shell_login st [] ≡ waiting st
unfolding shell_login
login_waits st = refl

-- A key that is not Enter, on a login screen that enters a password.
login_password :
    (st : LoginScreen) (c : ℕ) (keys : List ℕ)
    → st.entering_password ≡ true
    → (c == b'\n') ≡ false
    → shell_login st (c ∷ keys)
      ≡ (if c == 0 then shell_login st keys else shell_login (password_key st c) keys)
unfolding shell_login login_key
login_password st c keys m n = rw (m, n) refl

-- Two login screens that show the same while a password is entered, with as many characters of it in
-- each, still show the same after keys without Enter that differ only in which printable characters
-- are typed: what is on the screen, and all else that the shell has, tells only the length of a
-- password.
pub login_hides :
    (st st' : LoginScreen) (cs ds : List ℕ)
    → SameView st st'
    → Alike cs ds
    → (u : LoginScreen) × (u' : LoginScreen) × (shell_login st cs ≡ waiting u)
      × (shell_login st' ds ≡ waiting u')
      × (u.shell ≡ u'.shell)
login_hides st st' [] [] v a = (st, st', login_waits st, login_waits st', v.shown)
login_hides st st' [] (d ∷ ds) v a = absurd a
login_hides st st' (c ∷ cs) [] v a = absurd a
login_hides st st' (c ∷ cs) (d ∷ ds) v (a, n, rest) =
    let k = alike-SameClass c d a n in
    let first = login_password st c cs v.mode (ground (arith, n)) in
    let second = login_password st' d ds v.mode' k.enter in
    elim (Bool-cases (d == 0)) [
      | inl z ↦
          let (u, u', e, e', same) = login_hides st st' cs ds v rest in
          (u, u', rw (k.null, z) at first ∙ e, rw z at second ∙ e', same)
      | inr z ↦
          let (u, u', e, e', same) =
            login_hides (password_key st c) (password_key st' d) cs ds (key-SameView st st' c d v k)
              rest in
          (u, u', rw (k.null, z) at first ∙ e, rw z at second ∙ e', same)
    ]
