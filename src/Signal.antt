-- ===== src/Signal.antt =====
-- Kernel signals, src/signal.c with include/signal.h.
--
-- A handler is its address, with SIG_DFL 0 and SIG_IGN 1. `pending_signals` is its 32 bits, lowest
-- first. What the code does with a signal is an event; a handler that it calls is taken to leave the
-- signal state alone. `signal_name` only prints.
mod Caught
mod Pending
mod Tests
use kfs.Prelude.{
  ℕ, zero, suc, ◌+◌, Bool, true, false, ◌&&◌, ◌||◌, not, Option, none, some, List, [], ◌∷◌, ◌++◌,
  ◌==◌, ltb, ℤ, pos, negsuc, minus_one, get_or, set, replicate, if◌then◌else◌,
}

abbrev pub max_signals : ℕ
max_signals = 32

abbrev pub sig_dfl : ℕ
sig_dfl = 0

abbrev pub sig_ign : ℕ
sig_ign = 1

abbrev pub sigkill : ℕ
sigkill = 9

abbrev pub sigstop : ℕ
sigstop = 19

pub record SignalAction : Type 0 where
  pub handler : ℕ
  pub registered : Bool

pub record SignalState : Type 0 where
  pub signal_actions : List SignalAction
  pub pending_signals : List Bool

pub data Event : Type 0 where
  called : (handler signal : ℕ) → Event
  default_action : ℕ → Event

abbrev pub default_entry : SignalAction
default_entry = record { handler = sig_dfl; registered = false }

pub signal_init : SignalState
signal_init = record {
  signal_actions = replicate max_signals default_entry;
  pending_signals = replicate 32 false;
}

-- The number of a valid signal, one from 1 to 31.
abbrev pub signal_valid : ℤ → Option ℕ
signal_valid (pos n) = if ltb 0 n && ltb n max_signals then some n else none
signal_valid (negsuc n) = none

abbrev pub action_at : SignalState → ℕ → SignalAction
action_at st s = get_or st.signal_actions s default_entry

abbrev pub set_action : SignalState → ℕ → SignalAction → SignalState
set_action st s a = record st { signal_actions = set st.signal_actions s a }

unfoldable pub signal_register : SignalState → ℤ → ℕ → ℤ × SignalState
signal_register st signal handler = elim (signal_valid signal) [
  | none ↦ (minus_one, st)
  | some s ↦
      if (s == sigkill) || (s == sigstop)
      then (minus_one, st)
      else (pos 0, set_action st s (record { handler = handler; registered = true }))
]

unfoldable pub signal_unregister : SignalState → ℤ → ℤ × SignalState
signal_unregister st signal = elim (signal_valid signal) [
  | none ↦ (minus_one, st)
  | some s ↦ (pos 0, set_action st s default_entry)
]

unfoldable pub signal_raise : SignalState → ℤ → ℤ × SignalState
signal_raise st signal = elim (signal_valid signal) [
  | none ↦ (minus_one, st)
  | some s ↦ (pos 0, record st { pending_signals = set st.pending_signals s true })
]

-- What the action of a signal does with it.
unfoldable pub deliver : SignalAction → ℕ → List Event
deliver a s =
    if a.registered && (not (a.handler == sig_dfl) && not (a.handler == sig_ign))
    then called a.handler s ∷ []
    else if a.handler == sig_dfl
    then default_action s ∷ []
    else []

unfoldable pub signal_send : SignalState → ℤ → ℤ × List Event
unfolding deliver
signal_send st signal = elim (signal_valid signal) [
  | none ↦ (minus_one, [])
  | some s ↦ (pos 0, deliver (action_at st s) s)
]

-- `pending_signals == 0`
abbrev pub none_pending : List Bool → Bool
none_pending [] = true
none_pending (b ∷ bs) = not b && none_pending bs

-- The loop for signal `i` and the `n - 1` after it: test the bit, clear it, send the signal.
unfoldable pub process_from : ℕ → ℕ → SignalState → SignalState × List Event
process_from zero i st = (st, [])
process_from (suc n) i st =
    let cleared = record st { pending_signals = set st.pending_signals i false } in
    let sent = signal_send cleared (pos i) in
    let (st', es) = process_from n (i + 1) cleared in
    let on = process_from n (i + 1) st in
    if get_or st.pending_signals i false then (st', sent.1 ++ es) else on

unfoldable pub signal_process_pending : SignalState → SignalState × List Event
signal_process_pending st =
    let all = process_from 31 1 st in if none_pending st.pending_signals then (st, []) else all

-- A call with its arguments.
pub data Call : Type 0 where
  register : ℤ → ℕ → Call
  unregister : ℤ → Call
  raise : ℤ → Call
  send : ℤ → Call
  process : Call

unfoldable pub apply : SignalState → Call → SignalState
apply st (register signal handler) = (signal_register st signal handler).1
apply st (unregister signal) = (signal_unregister st signal).1
apply st (raise signal) = (signal_raise st signal).1
apply st (send signal) = st
apply st process = (signal_process_pending st).0

unfoldable pub run : SignalState → List Call → SignalState
run st [] = st
run st (c ∷ cs) = run (apply st c) cs
