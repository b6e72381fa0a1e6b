-- ===== src/Keyboard/Queue.antt =====
-- The ring buffer of src/keyboard.c as a queue.
use kfs.Prelude.{
  ℕ, suc, ◌+◌, ◌%◌, ◌<◌, ◌≡◌, refl, sym, ◌∙◌, true, false, List, [], ◌∷◌, ◌++◌, ◌==◌, ltb, length,
  length-append, get_or, get_or-append, get_or-append_last, set, if◌then◌else◌, arith, Bool-cases,
  inl, inr, get_or-set_self, get_or-set_ne, length-set,
}
use kfs.Keyboard.{Keyboard, buffer_put, buffer_get, keyboard_init}

-- The buffer holds the keys `ks`, the oldest first.
pub record Holds (st : Keyboard) (ks : List ℕ) : Type 0 where
  pub slots : length st.keyboard_buffer ≡ 256
  pub start : st.buffer_read_pos < 256
  pub end : st.buffer_write_pos ≡ (st.buffer_read_pos + length ks) % 256
  pub room : length ks < 256
  pub kept :
      (k : ℕ)
      → k < length ks
      → get_or st.keyboard_buffer ((st.buffer_read_pos + k) % 256) 0 ≡ get_or ks k 0

-- A key that comes while 255 wait is lost.
abbrev pub pushed : List ℕ → ℕ → List ℕ
pushed ks c = if ltb (length ks) 255 then ks ++ (c ∷ []) else ks

pub put-Holds :
    (st : Keyboard) (ks : List ℕ) (c : ℕ) → Holds st ks → Holds (buffer_put st c) (pushed ks c)
unfolding buffer_put
put-Holds st ks c v = elim (Bool-cases (ltb (length ks) 255)) [
  | inl b ↦
      let f : ((st.buffer_write_pos + 1) % 256 == st.buffer_read_pos) ≡ false =
        ground (arith, v.end, v.start) in
      rw (b, f)
        (record {
          slots = length-set st.keyboard_buffer st.buffer_write_pos c ∙ v.slots;
          start = v.start;
          end = omega (arith, v.end, length-append ks (c ∷ []));
          room = ground (arith, length-append ks (c ∷ []));
          kept = kept';
        })
  | inr b ↦
      let f : ((st.buffer_write_pos + 1) % 256 == st.buffer_read_pos) ≡ true =
        ground (arith, v.end, v.start, v.room) in
      rw (b, f) v
]
  where
    at_end : st.buffer_write_pos ≡ (st.buffer_read_pos + length ks) % 256
    at_end = v.end

    kept' :
        (k : ℕ)
        → k < length (ks ++ (c ∷ []))
        → get_or (set st.keyboard_buffer st.buffer_write_pos c) ((st.buffer_read_pos + k) % 256) 0
          ≡ get_or (ks ++ (c ∷ [])) k 0
    kept' k h = elim (Bool-cases (ltb k (length ks))) [
      | inl l ↦
          let small : k < length ks = ground arith in
          get_or-set_ne st.keyboard_buffer st.buffer_write_pos ((st.buffer_read_pos + k) % 256) c 0
            (omega (arith, v.end, v.room))
          ∙ (v.kept k small ∙ sym (get_or-append ks (c ∷ []) k 0 small))
      | inr l ↦
          let e : k ≡ length ks = ground (arith, length-append ks (c ∷ [])) in
          let p : (st.buffer_read_pos + length ks) % 256 ≡ st.buffer_write_pos = sym v.end in
          rw (e, p)
            (get_or-set_self st.keyboard_buffer st.buffer_write_pos c 0
                (omega (arith, v.end, v.slots))
              ∙ sym (get_or-append_last ks c 0))
    ]

pub get-Holds :
    (st : Keyboard) (c : ℕ) (ks : List ℕ)
    → Holds st (c ∷ ks)
    → ((buffer_get st).0 ≡ c) × Holds (buffer_get st).1 ks
unfolding buffer_get
get-Holds st c ks v =
    let f : (st.buffer_read_pos == st.buffer_write_pos) ≡ false =
      ground (arith, v.end, v.room, v.start) in
    let here : (st.buffer_read_pos + 0) % 256 ≡ st.buffer_read_pos = omega (arith, v.start) in
    rw f (
      rw here at (v.kept 0 (omega arith)),
      record {
        slots = v.slots;
        start = omega arith;
        end = omega (arith, v.end);
        room = omega (arith, v.room);
        kept = λ k h.
            let e : ((st.buffer_read_pos + 1) % 256 + k) % 256
                ≡ (st.buffer_read_pos + suc k) % 256 =
              omega arith in
            rw e (v.kept (suc k) (omega arith));
      },
    )

pub get_empty : (st : Keyboard) → Holds st [] → buffer_get st ≡ (0, st)
unfolding buffer_get
get_empty st v =
    let f : (st.buffer_read_pos == st.buffer_write_pos) ≡ true = ground (arith, v.end, v.start) in
    rw f refl

pub init-Holds : (st : Keyboard) → length st.keyboard_buffer ≡ 256 → Holds (keyboard_init st) []
unfolding keyboard_init
init-Holds st l = record {
  slots = l;
  start = omega arith;
  end = refl;
  room = omega arith;
  kept = λ k h. elim h [ ];
}
