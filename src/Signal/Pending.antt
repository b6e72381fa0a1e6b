-- ===== src/Signal/Pending.antt =====
-- `signal_process_pending` of src/signal.c: every pending signal once, lowest first.
use kfs.Prelude.{
  ℕ, zero, suc, ◌+◌, ◌<◌, ◌≤◌, ◌≡◌, refl, ◌∙◌, Bool, true, false, List, [], ◌∷◌, ◌++◌, ◌==◌, pos,
  arith, Bool-cases, inl, inr, get_or, get_or-set_ne, set, if◌then◌else◌,
}
use kfs.Signal.{
  SignalState, Event, action_at, signal_send, deliver, process_from, signal_process_pending,
  none_pending,
}

-- What the `n` signals from `i` on bring, by the pending bits and actions of `st`.
pub deliveries : SignalState → ℕ → ℕ → List Event
deliveries st zero i = []
deliveries st (suc n) i =
    (if get_or st.pending_signals i false then deliver (action_at st i) i else [])
    ++ deliveries st n (i + 1)

-- Bits below `i` do not matter to the signals from `i` on.
deliveries_above :
    (n i j : ℕ) (st : SignalState)
    → j < i
    → deliveries (record st { pending_signals = set st.pending_signals j false }) n i
      ≡ deliveries st n i
unfolding deliveries
deliveries_above zero i j st h = refl
deliveries_above (suc n) i j st h =
    let same = get_or-set_ne st.pending_signals j i false false (omega arith) in
    rw (same, deliveries_above n (i + 1) j st (omega arith))

send_valid :
    (st : SignalState) (s : ℕ)
    → 0 < s
    → s < 32
    → signal_send st (pos s) ≡ (pos 0, deliver (action_at st s) s)
unfolding signal_send
send_valid st s l u = ground arith

process_from-deliveries :
    (n i : ℕ) (st : SignalState) → 0 < i → i + n ≤ 32 → (process_from n i st).1 ≡ deliveries st n i
unfolding process_from deliveries
process_from-deliveries zero i st l u = refl
process_from-deliveries (suc n) i st l u = elim (Bool-cases (get_or st.pending_signals i false)) [
  | inl b ↦
      let cleared = record st { pending_signals = set st.pending_signals i false } in
      rw (
        b,
        send_valid cleared i l (omega arith),
        process_from-deliveries n (i + 1) cleared (omega arith) (omega arith),
        deliveries_above n (i + 1) i st (omega arith),
      )
  | inr b ↦ rw (b, process_from-deliveries n (i + 1) st (omega arith) (omega arith))
]

none_pending-deliveries :
    (n i : ℕ) (st : SignalState)
    → ((k : ℕ) → get_or st.pending_signals k false ≡ false)
    → deliveries st n i ≡ []
unfolding deliveries
none_pending-deliveries zero i st h = refl
none_pending-deliveries (suc n) i st h = rw (h i, none_pending-deliveries n (i + 1) st h)

bits_clear : (bs : List Bool) → none_pending bs ≡ true → (k : ℕ) → get_or bs k false ≡ false
bits_clear [] h k = refl
bits_clear (b ∷ bs) h zero = ground arith
bits_clear (b ∷ bs) h (suc k) = bits_clear bs (ground arith) k

-- `signal_process_pending` sends each of the signals 1 to 31 that is pending exactly once, lowest
-- first, to the action registered for it.
process_pending-deliveries : (st : SignalState) → (signal_process_pending st).1 ≡ deliveries st 31 1
unfolding signal_process_pending
process_pending-deliveries st = elim (Bool-cases (none_pending st.pending_signals)) [
  | inl h ↦ rw (h, none_pending-deliveries 31 1 st (bits_clear st.pending_signals h))
  | inr h ↦ rw h (process_from-deliveries 31 1 st (omega arith) (omega arith))
]

process_from-below :
    (n i k : ℕ) (st : SignalState)
    → k < i
    → get_or (process_from n i st).0.pending_signals k false ≡ get_or st.pending_signals k false
unfolding process_from
process_from-below zero i k st h = refl
process_from-below (suc n) i k st h = elim (Bool-cases (get_or st.pending_signals i false)) [
  | inl b ↦ rw b (
      process_from-below n (i + 1) k
        (record st { pending_signals = set st.pending_signals i false }) (omega arith)
      ∙ get_or-set_ne st.pending_signals i k false false (omega arith))
  | inr b ↦ rw b (process_from-below n (i + 1) k st (omega arith))
]

set_clear : (bs : List Bool) (i : ℕ) → get_or (set bs i false) i false ≡ false
set_clear [] i = refl
set_clear (b ∷ bs) zero = refl
set_clear (b ∷ bs) (suc i) = set_clear bs i

process_from-clear :
    (n i k : ℕ) (st : SignalState)
    → i ≤ k
    → k < i + n
    → get_or (process_from n i st).0.pending_signals k false ≡ false
unfolding process_from
process_from-clear zero i k st h u = absurd (omega arith)
process_from-clear (suc n) i k st h u = elim (Bool-cases (i == k)) [
  | inl e ↦ let e' : k ≡ i = ground arith in rw e' (here i)
  | inr e ↦ elim (Bool-cases (get_or st.pending_signals i false)) [
    | inl b ↦ rw b (
        process_from-clear n (i + 1) k
          (record st { pending_signals = set st.pending_signals i false }) (ground arith)
          (omega arith))
    | inr b ↦ rw b (process_from-clear n (i + 1) k st (ground arith) (omega arith))
  ]
]
  where
    here : (j : ℕ) → get_or (process_from (suc n) j st).0.pending_signals j false ≡ false
    here j = elim (Bool-cases (get_or st.pending_signals j false)) [
      | inl b ↦ rw b (
          process_from-below n (j + 1) j
            (record st { pending_signals = set st.pending_signals j false }) (omega arith)
          ∙ set_clear st.pending_signals j)
      | inr b ↦ rw b (process_from-below n (j + 1) j st (omega arith) ∙ b)
    ]

-- Afterwards none of the signals 1 to 31 is pending.
process_pending-clear :
    (st : SignalState) (k : ℕ)
    → 0 < k
    → k < 32
    → get_or (signal_process_pending st).0.pending_signals k false ≡ false
unfolding signal_process_pending
process_pending-clear st k l u = elim (Bool-cases (none_pending st.pending_signals)) [
  | inl h ↦ rw h (bits_clear st.pending_signals h k)
  | inr h ↦ rw h (process_from-clear 31 1 k st (omega arith) (omega arith))
]
