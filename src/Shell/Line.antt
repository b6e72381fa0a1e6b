-- ===== src/Shell/Line.antt =====
-- The command line that the keys of src/shell.c edit.
use kfs.Prelude.{
  ℕ, suc, ◌+◌, ◌-◌, ◌<◌, ◌≤◌, ◌≡◌, ◌≢◌, refl, ap, ap₂, sym, subst, ◌∙◌, true, false, ◌&&◌, inl, inr,
  List, [], ◌∷◌, ◌++◌, ◌==◌, ltb, leb, length, length-append, length-take, length-set, take, drop,
  get_or, set, take-set, take-set_after, take-take_pred, All, All-snoc, All-take, if◌then◌else◌,
  arith, Bool-cases,
}
use kfs.Vfs.{Vfs}
use kfs.Process.{Processes}
use kfs.Shell.{Shell, Answers, Outcome, returned, stopped, undefined, before_mark, on_screen}
use kfs.Vga.{vga_putchar}
use kfs.Shell.Login.{is_backspace, is_printable}
use kfs.Shell.Commands.{Command}
use kfs.Shell.Input.{
  shell_handle_input, shell_key, shell_keys, shell_process_command, after_command, erase, type_key,
  enter,
}

-- A key that edits the line: not Enter, not one of the four that switch screens.
abbrev pub IsEditing : ℕ → Type 0
IsEditing c = (c ≢ b'\n') × ((leb 0x80 c && leb c 0x83) ≡ false)

-- A line of at most 255 characters after a key: Backspace takes the last character away, a printable
-- key is added while there is room, any other is ignored.
abbrev pub edit : List ℕ → ℕ → List ℕ
edit line c =
    if is_backspace c
    then take (length line - 1) line
    else if is_printable c && ltb (length line) 255
    then line ++ (c ∷ [])
    else line

unfoldable pub edited : List ℕ → List ℕ → List ℕ
edited line [] = line
edited line (c ∷ keys) = edited (edit line c) keys

-- The shell's buffer holds the line.
pub record Holds (sh : Shell) (line : List ℕ) : Type 0 where
  pub capacity : length sh.shell_buffer ≡ 256
  pub text : take sh.shell_buffer_pos sh.shell_buffer ≡ line
  pub size : length line ≡ sh.shell_buffer_pos
  pub room : length line ≤ 255
  pub marks : All (λ c. c ≢ 0) line

-- The parts of the state that the commands work on.
abbrev pub kept : Shell → ℕ × Vfs × Processes
kept sh = (sh.current_uid, sh.vfs, sh.processes)

nothing_left : (line : List ℕ) → length line ≡ 0 → take (length line - 1) line ≡ line
nothing_left [] h = refl
nothing_left (c ∷ line) h = absurd (omega (arith, h))

erase-Holds :
    (sh : Shell) (line : List ℕ) → Holds sh line → Holds (erase sh) (take (length line - 1) line)
unfolding erase
erase-Holds sh line v = elim (Bool-cases (ltb 0 sh.shell_buffer_pos)) [
  | inl b ↦ rw b (record {
    capacity = length-set sh.shell_buffer (sh.shell_buffer_pos - 1) 0 ∙ v.capacity;
    text =
        take-set_after (sh.shell_buffer_pos - 1) 0 sh.shell_buffer
        ∙ (take-take_pred sh.shell_buffer_pos sh.shell_buffer ∙ rw (v.text, v.size) refl);
    size = omega (arith, length-take (length line - 1) line, v.size);
    room = omega (arith, length-take (length line - 1) line, v.room);
    marks = All-take _ (length line - 1) line v.marks;
  })
  | inr b ↦ rw b (subst (Holds sh) (sym (nothing_left line (ground (arith, v.size)))) v)
]

erase_kept : (sh : Shell) → kept (erase sh) ≡ kept sh
unfolding erase
erase_kept sh = elim (Bool-cases (ltb 0 sh.shell_buffer_pos)) [
  | inl b ↦ rw b refl
  | inr b ↦ rw b refl
]

one_more : (n : ℕ) → n + 1 ≡ suc n
one_more n = omega arith

type_key-Holds :
    (sh : Shell) (line : List ℕ) (c : ℕ)
    → Holds sh line
    → length line < 255
    → c ≢ 0
    → Holds (type_key sh c) (line ++ (c ∷ []))
unfolding type_key
type_key-Holds sh line c v h n = record {
  capacity =
      length-set (set sh.shell_buffer sh.shell_buffer_pos c) (sh.shell_buffer_pos + 1) 0
      ∙ length-set sh.shell_buffer sh.shell_buffer_pos c
      ∙ v.capacity;
  text =
      ap (λ k. take k (set (set sh.shell_buffer sh.shell_buffer_pos c) k 0))
        (one_more sh.shell_buffer_pos)
      ∙ (take-set_after (suc sh.shell_buffer_pos) 0 _
          ∙ (take-set sh.shell_buffer_pos c sh.shell_buffer (omega (arith, v.capacity, v.size))
              ∙ ap (λ l. l ++ (c ∷ [])) v.text));
  size = omega (arith, length-append line (c ∷ []), v.size);
  room = omega (arith, length-append line (c ∷ []));
  marks = All-snoc (λ k. k ≢ 0) line c v.marks n;
}

before_mark-line :
    (b line : List ℕ)
    → All (λ c. c ≢ 0) line
    → take (suc (length line)) b ≡ line ++ (0 ∷ [])
    → before_mark b ≡ line
before_mark-line [] [] z e = refl
before_mark-line [] (c ∷ line) z e = absurd (cc)
before_mark-line (x ∷ b) [] z e =
    let h : (x == 0) ≡ true = ground (arith, ap (λ l. get_or l 0 1) e) in rw h refl
before_mark-line (x ∷ b) (c ∷ line) z e =
    let same : x ≡ c = ap (λ l. get_or l 0 x) e in
    let h : (x == 0) ≡ false = ground (arith, z.0) in
    rw h (ap₂ (λ y l. y ∷ l) same (before_mark-line b line z.1 (ap (λ l. drop 1 l) e)))

-- The state in which the line is run.
abbrev entered : Shell → Shell
entered sh = record (on_screen (λ v. vga_putchar v b'\n') sh) {
  shell_buffer = set sh.shell_buffer sh.shell_buffer_pos 0;
}

module _ (elsewhere : Command → List (List ℕ) → Shell → Outcome) (ans : Answers) where
  -- The call returns with a state that holds the line and keeps the rest.
  abbrev Left : Shell → List ℕ → Outcome → Type 0
  Left sh line r = (sh' : Shell) × (r ≡ returned sh') × Holds sh' line × (kept sh' ≡ kept sh)

  input-Left :
      (sh : Shell) (line : List ℕ) (c : ℕ)
      → Holds sh line
      → c ≢ b'\n'
      → Left sh (edit line c) (shell_handle_input elsewhere ans sh c)
  unfolding shell_handle_input
  input-Left sh line c v n =
      let e : (c == b'\n') ≡ false = ground (arith, n) in
      elim (Bool-cases (is_backspace c)) [
        | inl b ↦ rw b (erase sh, refl, erase-Holds sh line v, erase_kept sh)
        | inr b ↦ elim (Bool-cases (is_printable c && ltb (length line) 255)) [
          | inl p ↦
              let q : (is_printable c && ltb sh.shell_buffer_pos 255) ≡ true = rw (sym v.size) p in
              rw (b, e, p, q)
                (
                  type_key sh c,
                  refl,
                  type_key-Holds sh line c v (ground (arith, p)) (ground (arith, p)),
                  refl,
                )
          | inr p ↦
              let q : (is_printable c && ltb sh.shell_buffer_pos 255) ≡ false = rw (sym v.size) p in
              rw (b, e, p, q) (sh, refl, v, refl)
        ]
      ]

  key-Left :
      (sh : Shell) (line : List ℕ) (c : ℕ)
      → Holds sh line
      → IsEditing c
      → Left sh (edit line c) (shell_key elsewhere ans sh c)
  unfolding shell_key
  key-Left sh line c v n = elim (Bool-cases (c == 0)) [
    | inl z ↦
        let b : is_backspace c ≡ false = ground arith in
        let p : (is_printable c && ltb (length line) 255) ≡ false = ground arith in
        rw (z, b, p) (sh, refl, v, refl)
    | inr z ↦ rw (z, n.1) (input-Left sh line c v n.0)
  ]

  keys-Left :
      (keys : List ℕ) (sh : Shell) (line : List ℕ) (r : Outcome)
      → All IsEditing keys
      → Left sh line r
      → Left sh (edited line keys) (shell_keys elsewhere ans r keys)
  unfolding shell_keys edited
  keys-Left [] sh line r a h = h
  keys-Left (c ∷ keys) sh line r a (sh', e, v, k) =
      let (sh'', e', v', k') =
        keys-Left keys sh' (edit line c) (shell_key elsewhere ans sh' c) a.1
          (key-Left sh' line c v a.0) in
      (sh'', ap (λ o. shell_keys elsewhere ans o (c ∷ keys)) e ∙ e', v', k' ∙ k)

  enter-runs :
      (sh : Shell) (line : List ℕ)
      → Holds sh line
      → (sh' : Shell) × (shell_key elsewhere ans sh b'\n'
          ≡ after_command (shell_process_command elsewhere ans sh' line))
        × (kept sh' ≡ kept sh)
  unfolding shell_key shell_handle_input enter
  enter-runs sh line v = (
    entered sh,
    ap (λ l. after_command (shell_process_command elsewhere ans (entered sh) l))
        (before_mark-line (set sh.shell_buffer sh.shell_buffer_pos 0) line v.marks (
          rw v.size (
            take-set sh.shell_buffer_pos 0 sh.shell_buffer
              (omega (arith, v.capacity, v.size, v.room))
            ∙ ap (λ l. l ++ (0 ∷ [])) v.text))),
    refl,
  )

  stopped_keys : (sh : Shell) (ys : List ℕ) → stopped sh ≡ shell_keys elsewhere ans (stopped sh) ys
  unfolding shell_keys
  stopped_keys sh [] = refl
  stopped_keys sh (y ∷ ys) = refl

  undefined_keys : (ys : List ℕ) → undefined ≡ shell_keys elsewhere ans undefined ys
  unfolding shell_keys
  undefined_keys [] = refl
  undefined_keys (y ∷ ys) = refl

  shell_keys-append :
      (r : Outcome) (xs ys : List ℕ)
      → shell_keys elsewhere ans r (xs ++ ys)
        ≡ shell_keys elsewhere ans (shell_keys elsewhere ans r xs) ys
  unfolding shell_keys
  shell_keys-append r [] ys = refl
  shell_keys-append (returned sh) (x ∷ xs) ys =
      shell_keys-append (shell_key elsewhere ans sh x) xs ys
  shell_keys-append (stopped sh) (x ∷ xs) ys = stopped_keys sh ys
  shell_keys-append undefined (x ∷ xs) ys = undefined_keys ys

  -- Where the shell's buffer holds a line, keys other than Enter and the four that switch screens and
  -- then Enter make the shell run the line as the keys edit it, which has at most 255 characters, with the
  -- user, the file system and the processes as they were; whatever the commands do.
  pub keys-line :
      (sh : Shell) (line keys : List ℕ)
      → Holds sh line
      → All IsEditing keys
      → (sh' : Shell) × (shell_keys elsewhere ans (returned sh) (keys ++ (b'\n' ∷ []))
          ≡ after_command (shell_process_command elsewhere ans sh' (edited line keys)))
        × (kept sh' ≡ kept sh)
        × (length (edited line keys) ≤ 255)
  unfolding shell_keys
  keys-line sh line keys v a =
      let (one, e, v', k) = keys-Left keys sh line (returned sh) a (sh, refl, v, refl) in
      let (two, e', k') = enter-runs one (edited line keys) v' in
      (
        two,
        shell_keys-append (returned sh) keys (b'\n' ∷ [])
            ∙ (ap (λ r. shell_keys elsewhere ans r (b'\n' ∷ [])) e ∙ e'),
        k' ∙ k,
        v'.room,
      )
