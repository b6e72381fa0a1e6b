-- ===== src/Syscall/Table.antt =====
-- What the dispatcher of src/syscall.c calls after a history of registrations.
use kfs.Prelude.{
  ℕ, ◌<◌, ◌≡◌, refl, ◌∙◌, true, false, Option, none, List, [], ◌∷◌, ◌==◌, ltb, leb, length, get_or,
  set, if◌then◌else◌, arith, Bool-cases, inl, inr, get_or-set_self, get_or-set_ne, length-set,
}
use kfs.Syscall.{
  Handler, Frame, syscall_register, syscall_unregister, syscall_init, register_all,
  syscall_dispatcher, answer, Results,
}

-- A change of the table, with its arguments.
pub data Change : Type 0 where
  register : ℕ → Option Handler → Change
  unregister : ℕ → Change

unfoldable pub apply : List (Option Handler) → Change → List (Option Handler)
unfolding syscall_register syscall_unregister
apply hs (register num h) = (syscall_register hs num h).1
apply hs (unregister num) = (syscall_unregister hs num).1

-- Changes, the last one first.
unfoldable table_after : List Change → List (Option Handler)
unfolding apply
table_after [] = syscall_init
table_after (c ∷ cs) = apply (table_after cs) c

-- The handler of a number below 256 by the last change that concerns it, and by `syscall_init` if
-- there is none.
unfoldable pub latest : List Change → ℕ → Option Handler
latest [] num = get_or syscall_init num none
latest (register n h ∷ cs) num = let before = latest cs num in if n == num then h else before
latest (unregister n ∷ cs) num = let before = latest cs num in if n == num then none else before

-- A change of one entry.
pub entry : List (Option Handler) → ℕ → Option Handler → List (Option Handler)
entry hs n h = if leb 256 n then hs else set hs n h

length-entry :
    (hs : List (Option Handler)) (n : ℕ) (h : Option Handler) → length (entry hs n h) ≡ length hs
unfolding entry
length-entry hs n h = elim (Bool-cases (leb 256 n)) [
  | inl b ↦ rw b refl
  | inr b ↦ rw b (length-set hs n h)
]

apply-register :
    (hs : List (Option Handler)) (n : ℕ) (h : Option Handler)
    → apply hs (register n h) ≡ entry hs n h
unfolding apply syscall_register entry
apply-register hs n h = elim (Bool-cases (leb 256 n)) [
  | inl b ↦ rw (apply, syscall_register, b) refl
  | inr b ↦ rw (apply, syscall_register, b) refl
]

apply-unregister : (hs : List (Option Handler)) (n : ℕ) → apply hs (unregister n) ≡ entry hs n none
unfolding apply syscall_unregister entry
apply-unregister hs n = elim (Bool-cases (leb 256 n)) [
  | inl b ↦ rw (apply, syscall_unregister, b) refl
  | inr b ↦ rw (apply, syscall_unregister, b) refl
]

entry-at :
    (hs : List (Option Handler)) (n num : ℕ) (h : Option Handler)
    → length hs ≡ 256
    → num < 256
    → get_or (entry hs n h) num none ≡ (if n == num then h else get_or hs num none)
unfolding entry
entry-at hs n num h l small = elim (Bool-cases (n == num)) [
  | inl e ↦
      let q : n ≡ num = ground arith in
      let b : leb 256 num ≡ false = ground arith in
      rw (e, q, b) (get_or-set_self hs num h none (omega arith))
  | inr e ↦ elim (Bool-cases (leb 256 n)) [
    | inl b ↦ rw (e, b) refl
    | inr b ↦ rw (e, b) (get_or-set_ne hs n num h none (ground arith))
  ]
]

length-table_after : (cs : List Change) → length (table_after cs) ≡ 256
unfolding table_after syscall_init register_all syscall_register
length-table_after [] = refl
length-table_after (register n h ∷ cs) =
    rw (apply-register (table_after cs) n h)
      (length-entry (table_after cs) n h ∙ length-table_after cs)
length-table_after (unregister n ∷ cs) =
    rw (apply-unregister (table_after cs) n)
      (length-entry (table_after cs) n none ∙ length-table_after cs)

table_after-latest :
    (cs : List Change) (num : ℕ) → num < 256 → get_or (table_after cs) num none ≡ latest cs num
unfolding table_after latest
table_after-latest [] num small = refl
table_after-latest (register n h ∷ cs) num small =
    rw
      (
        apply-register (table_after cs) n h,
        entry-at (table_after cs) n num h (length-table_after cs) small,
        table_after-latest cs num small,
      )
      refl
table_after-latest (unregister n ∷ cs) num small =
    rw
      (
        apply-unregister (table_after cs) n,
        entry-at (table_after cs) n num none (length-table_after cs) small,
        table_after-latest cs num small,
      )
      refl

-- After `syscall_init` and any history of registrations and removals, accepted or refused, a system
-- call runs the handler that the last one for its number left, or that `syscall_init` registered,
-- and puts its result into EAX; it puts -1 there if that handler is NULL or the number is 256 or more.
-- The other registers stay.
dispatcher-latest :
    (cs : List Change) (result : Results) (f : Frame)
    → syscall_dispatcher (table_after cs) result f
      ≡ record f { eax = if ltb f.eax 256 then answer result (latest cs f.eax) f else 0xffffffff }
unfolding syscall_dispatcher
dispatcher-latest cs result f = elim (Bool-cases (leb 256 f.eax)) [
  | inl b ↦ let l : ltb f.eax 256 ≡ false = ground arith in rw (b, l) refl
  | inr b ↦
      let l : ltb f.eax 256 ≡ true = ground arith in
      rw (b, l, table_after-latest cs f.eax (ground arith)) refl
]
