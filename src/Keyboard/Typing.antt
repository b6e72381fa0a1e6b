-- ===== src/Keyboard/Typing.antt =====
-- What src/keyboard.c makes of a series of scancodes, from the interrupt handler to `keyboard_getchar`.
use kfs.Prelude.{
  ℕ, ◌+◌, ◌-◌, ◌%◌, ◌≡◌, refl, ap, sym, subst, ◌∙◌, Bool, true, false, ◌&&◌, ◌||◌, List, [], ◌∷◌,
  ◌==◌, leb, length, get_or, if◌then◌else◌, arith, Bool-cases, inl, inr,
}
use kfs.Keyboard.{
  Keyboard, Modifiers, KeyboardLayout, is_shift, get_scancode_map, keyboard_init,
  keyboard_set_layout, keyboard_getchar, keyboard_interrupt_handler, key_pressed, key_released,
  put_ascii, buffer_put, buffer_get,
}
use kfs.Keyboard.Queue.{Holds, pushed, put-Holds, get-Holds, get_empty, init-Holds}

abbrev pub is_ctrl : ℕ → Bool
is_ctrl code = code == 0x1d

abbrev pub is_alt : ℕ → Bool
is_alt code = code == 0x38

-- Of the events of these keys, the last one in `codes` pressed one. The latest code is first.
unfoldable pub down : (ℕ → Bool) → List ℕ → Bool
down key [] = false
down key (c ∷ codes) =
    let before = down key codes in
    if leb 0x80 c
    then (if key (c % 0x80) then false else before)
    else if key c
    then true
    else before

-- The key that a press adds to the line of keys, by the codes before it.
abbrev pub key_for : KeyboardLayout → List ℕ → ℕ → List ℕ → List ℕ
key_for layout codes c before =
    let ascii = get_or (get_scancode_map layout (down is_shift codes)) c 0 in
    if down is_alt codes && (leb 0x3b c && leb c 0x44)
    then pushed before (0x80 + (c - 0x3b))
    else if ascii == 0
    then before
    else pushed before ascii

-- The keys that wait after one more code.
unfoldable pub waiting_after : KeyboardLayout → List ℕ → ℕ → List ℕ → List ℕ
waiting_after layout codes c before =
    if leb 0x80 c || (is_shift c || (is_ctrl c || is_alt c))
    then before
    else key_for layout codes c before

-- What happens: the keyboard sends a scancode, or the kernel asks for a key.
pub data KeyEvent : Type 0 where
  scancode : ℕ → KeyEvent
  getchar : KeyEvent

-- What the calls of `keyboard_getchar` among the events return, given the codes so far and the keys
-- that wait, the oldest first.
unfoldable pub typed : KeyboardLayout → (codes waiting : List ℕ) → List KeyEvent → List ℕ
typed layout codes ks [] = []
typed layout codes ks (scancode c ∷ es) =
    typed layout (c ∷ codes) (waiting_after layout codes c ks) es
typed layout codes [] (getchar ∷ es) = 0 ∷ typed layout codes [] es
typed layout codes (k ∷ ks) (getchar ∷ es) = k ∷ typed layout codes ks es

-- The same of the driver.
pub read_run : Keyboard → List KeyEvent → List ℕ
read_run st [] = []
read_run st (scancode c ∷ es) = read_run (keyboard_interrupt_handler st c) es
read_run st (getchar ∷ es) = (keyboard_getchar st).0 ∷ read_run (keyboard_getchar st).1 es

-- The modifiers after `codes`.
abbrev Mods : KeyboardLayout → List ℕ → Modifiers
Mods layout codes = record {
  shift_pressed = down is_shift codes;
  ctrl_pressed = down is_ctrl codes;
  alt_pressed = down is_alt codes;
  current_layout = layout;
}

-- The modifiers, and the keys that wait.
record Follows (layout : KeyboardLayout) (codes ks : List ℕ) (st : Keyboard) : Type 0 where
  mods : st.keys ≡ Mods layout codes
  waiting : Holds st ks

keys_put : (st : Keyboard) (c : ℕ) → (buffer_put st c).keys ≡ st.keys
unfolding buffer_put
keys_put st c = ground arith

released-Mods :
    (layout : KeyboardLayout) (codes : List ℕ) (c : ℕ)
    → leb 0x80 c ≡ true
    → key_released (Mods layout codes) (c % 0x80) ≡ Mods layout (c ∷ codes)
unfolding key_released down
released-Mods layout codes c h = elim (Bool-cases (is_shift (c % 0x80))) [
  | inl s ↦ ground arith
  | inr s ↦ ground arith
]

-- A press that changes no modifier.
pressed-Mods :
    (layout : KeyboardLayout) (codes : List ℕ) (c : ℕ)
    → leb 0x80 c ≡ false
    → (is_shift c || (is_ctrl c || is_alt c)) ≡ false
    → Mods layout codes ≡ Mods layout (c ∷ codes)
unfolding down
pressed-Mods layout codes c h n = ground arith

Holds-keys :
    (st : Keyboard) (ks : List ℕ) (m : Modifiers) → Holds st ks → Holds (record st { keys = m }) ks
Holds-keys st ks m v = record {
  slots = v.slots;
  start = v.start;
  end = v.end;
  room = v.room;
  kept = v.kept;
}

-- `st` is any keyboard with these modifiers, `ks` the keys that wait in it.
module _ (layout : KeyboardLayout) (codes : List ℕ) (c : ℕ) (st : Keyboard) (ks : List ℕ) where
  abbrev now : Keyboard
  now = record st { keys = Mods layout codes }

  release-Follows :
      leb 0x80 c ≡ true
      → Holds st ks
      → Follows layout
          (c ∷ codes)
          (waiting_after layout codes c ks)
          (keyboard_interrupt_handler now c)
  unfolding keyboard_interrupt_handler waiting_after
  release-Follows r v = rw r (record {
    mods = released-Mods layout codes c r;
    waiting = Holds-keys st ks (key_released (Mods layout codes) (c % 0x80)) v;
  })

  modifier_press :
      leb 0x80 c ≡ false
      → (is_shift c || (is_ctrl c || is_alt c)) ≡ true
      → key_pressed now c ≡ record st { keys = Mods layout (c ∷ codes) }
  unfolding key_pressed down
  modifier_press r m = elim (Bool-cases (is_shift c)) [
    | inl s ↦ ground arith
    | inr s ↦ ground arith
  ]

  modifier-Follows :
      leb 0x80 c ≡ false
      → (is_shift c || (is_ctrl c || is_alt c)) ≡ true
      → Holds st ks
      → Follows layout
          (c ∷ codes)
          (waiting_after layout codes c ks)
          (keyboard_interrupt_handler now c)
  unfolding keyboard_interrupt_handler waiting_after
  modifier-Follows r m v =
      rw (r, modifier_press r m)
        (record { mods = refl; waiting = rw m (Holds-keys st ks (Mods layout (c ∷ codes)) v) })

  key_press :
      (is_shift c || (is_ctrl c || is_alt c)) ≡ false
      → key_pressed now c ≡ (
          if down is_alt codes && (leb 0x3b c && leb c 0x44)
          then buffer_put now (0x80 + (c - 0x3b))
          else put_ascii now (get_or (get_scancode_map layout (down is_shift codes)) c 0))
  unfolding key_pressed
  key_press m = ground arith

  put-Follows :
      (k : ℕ)
      → Mods layout codes ≡ Mods layout (c ∷ codes)
      → Holds st ks
      → ((buffer_put now k).keys ≡ Mods layout (c ∷ codes)) × Holds (buffer_put now k) (pushed ks k)
  put-Follows k e v =
      (keys_put now k ∙ e, put-Holds now ks k (Holds-keys st ks (Mods layout codes) v))

  key-Follows :
      leb 0x80 c ≡ false
      → (is_shift c || (is_ctrl c || is_alt c)) ≡ false
      → Holds st ks
      → Follows layout
          (c ∷ codes)
          (waiting_after layout codes c ks)
          (keyboard_interrupt_handler now c)
  unfolding keyboard_interrupt_handler waiting_after
  key-Follows r m v =
      let e = pressed-Mods layout codes c r m in
      let ascii = get_or (get_scancode_map layout (down is_shift codes)) c 0 in
      elim (Bool-cases (down is_alt codes && (leb 0x3b c && leb c 0x44))) [
        | inl f ↦
            let q = put-Follows (0x80 + (c - 0x3b)) e v in
            rw (r, key_press m, f) (record { mods = q.0; waiting = rw m q.1 })
        | inr f ↦ elim (Bool-cases (ascii == 0)) [
          | inl z ↦
              rw (r, key_press m, f, z)
                (record { mods = e; waiting = rw m (Holds-keys st ks (Mods layout codes) v) })
          | inr z ↦
              let q = put-Follows ascii e v in
              rw (r, key_press m, f, z) (record { mods = q.0; waiting = rw m q.1 })
        ]
      ]

step-Follows :
    (layout : KeyboardLayout) (codes ks : List ℕ) (c : ℕ) (st : Keyboard)
    → Follows layout codes ks st
    → Follows layout (c ∷ codes) (waiting_after layout codes c ks) (keyboard_interrupt_handler st c)
step-Follows layout codes ks c st v =
    subst
      (λ u.
        Follows layout (c ∷ codes) (waiting_after layout codes c ks)
          (keyboard_interrupt_handler u c))
      (ap (λ m. record st { keys = m }) (sym v.mods)) by_code
  where
    by_code :
        Follows layout
          (c ∷ codes)
          (waiting_after layout codes c ks)
          (keyboard_interrupt_handler (now layout codes c st ks) c)
    by_code = elim (Bool-cases (leb 0x80 c)) [
      | inl r ↦ release-Follows layout codes c st ks r v.waiting
      | inr r ↦ elim (Bool-cases (is_shift c || (is_ctrl c || is_alt c))) [
        | inl m ↦ modifier-Follows layout codes c st ks r m v.waiting
        | inr m ↦ key-Follows layout codes c st ks r m v.waiting
      ]
    ]

keys_get : (st : Keyboard) → (buffer_get st).1.keys ≡ st.keys
unfolding buffer_get
keys_get st = ground arith

run-Follows :
    (layout : KeyboardLayout) (codes ks : List ℕ) (st : Keyboard) (events : List KeyEvent)
    → Follows layout codes ks st
    → read_run st events ≡ typed layout codes ks events
unfolding read_run typed
run-Follows layout codes ks st [] v = refl
run-Follows layout codes ks st (scancode c ∷ es) v =
    run-Follows layout (c ∷ codes) (waiting_after layout codes c ks)
      (keyboard_interrupt_handler st c) es (step-Follows layout codes ks c st v)
run-Follows layout codes [] st (getchar ∷ es) v =
    let e = get_empty st v.waiting in rw e (ap (λ r. 0 ∷ r) (run-Follows layout codes [] st es v))
run-Follows layout codes (k ∷ ks) st (getchar ∷ es) v =
    let g = get-Holds st k ks v.waiting in
    rw g.0 (
      ap (λ r. k ∷ r)
        (run-Follows layout codes ks (buffer_get st).1 es
          (record { mods = keys_get st ∙ v.mods; waiting = g.1 })))

init-Follows :
    (st : Keyboard) (layout : KeyboardLayout)
    → length st.keyboard_buffer ≡ 256
    → Follows layout [] [] (keyboard_set_layout (keyboard_init st) layout)
unfolding down keyboard_init
init-Follows st layout l = record {
  mods = refl;
  waiting = Holds-keys (keyboard_init st) [] (Mods layout []) (init-Holds st l);
}

-- From `keyboard_init` on, with any layout, any scancodes and calls of `keyboard_getchar` between them in
-- any order and number: each call gives the key that has waited longest, or 0 if none waits, so the
-- keys come in the order in which they were pressed. A key is read by the layout's map, shifted while
-- of the presses and releases of the two shift keys the last one was a press, and as F1 to F10 while
-- that holds of Alt. Keys that are pressed while 255 wait are lost.
pub typed-read :
    (st : Keyboard) (layout : KeyboardLayout) (events : List KeyEvent)
    → length st.keyboard_buffer ≡ 256
    → read_run (keyboard_set_layout (keyboard_init st) layout) events ≡ typed layout [] [] events
typed-read st layout events l =
    run-Follows layout [] [] (keyboard_set_layout (keyboard_init st) layout) events
      (init-Follows st layout l)
