-- ===== src/Signal/Caught.antt =====
-- SIGKILL and SIGSTOP in src/signal.c.
use kfs.Prelude.{
  ℕ, zero, suc, ◌+◌, ◌≡◌, refl, ap, ◌∙◌, false, ◌||◌, List, [], ◌∷◌, ◌==◌, pos, arith, Bool-cases,
  Option-cases, inl, inr, get_or, get_or-set_ne, set,
}
use kfs.Signal.{
  SignalState, SignalAction, default_action, default_entry, sigkill, sigstop, action_at,
  signal_valid, signal_send, signal_raise, signal_register, signal_unregister, signal_init, deliver,
  process_from, signal_process_pending, none_pending, Call, register, unregister, raise, send,
  process, apply, run,
}

-- The actions of SIGKILL and SIGSTOP are the default.
pub record Uncaught (st : SignalState) : Type 0 where
  pub kill : action_at st sigkill ≡ default_entry
  pub stop : action_at st sigstop ≡ default_entry

process_from-actions :
    (n i : ℕ) (st : SignalState) → (process_from n i st).0.signal_actions ≡ st.signal_actions
unfolding process_from
process_from-actions zero i st = refl
process_from-actions (suc n) i st = elim (Bool-cases (get_or st.pending_signals i false)) [
  | inl b ↦ rw b (
      process_from-actions n (i + 1)
        (record st { pending_signals = set st.pending_signals i false }))
  | inr b ↦ rw b (process_from-actions n (i + 1) st)
]

process-actions :
    (st : SignalState) → (signal_process_pending st).0.signal_actions ≡ st.signal_actions
unfolding signal_process_pending
process-actions st = elim (Bool-cases (none_pending st.pending_signals)) [
  | inl h ↦ rw h refl
  | inr h ↦ rw h (process_from-actions 31 1 st)
]

default-kept :
    (xs : List SignalAction) (i k : ℕ)
    → get_or xs k default_entry ≡ default_entry
    → get_or (set xs i default_entry) k default_entry ≡ default_entry
default-kept [] i k h = h
default-kept (x ∷ xs) zero zero h = refl
default-kept (x ∷ xs) zero (suc k) h = h
default-kept (x ∷ xs) (suc i) zero h = h
default-kept (x ∷ xs) (suc i) (suc k) h = default-kept xs i k h

apply-Uncaught : (st : SignalState) (c : Call) → Uncaught st → Uncaught (apply st c)
unfolding apply signal_register signal_unregister signal_raise
apply-Uncaught st (register signal handler) v = elim (Option-cases (signal_valid signal)) [
  | inl e ↦ rw (e, apply, signal_register) v
  | inr (s, e) ↦ elim (Bool-cases ((s == sigkill) || (s == sigstop))) [
    | inl b ↦ rw (e, apply, signal_register, b) v
    | inr b ↦
        rw (e, apply, signal_register, b)
          (record {
            kill =
                get_or-set_ne st.signal_actions s sigkill _ default_entry (ground arith) ∙ v.kill;
            stop =
                get_or-set_ne st.signal_actions s sigstop _ default_entry (ground arith) ∙ v.stop;
          })
  ]
]
apply-Uncaught st (unregister signal) v = elim (Option-cases (signal_valid signal)) [
  | inl e ↦ rw (e, apply, signal_unregister) v
  | inr (s, e) ↦
      rw (e, apply, signal_unregister)
        (record {
          kill = default-kept st.signal_actions s sigkill v.kill;
          stop = default-kept st.signal_actions s sigstop v.stop;
        })
]
apply-Uncaught st (raise signal) v = elim (Option-cases (signal_valid signal)) [
  | inl e ↦ rw (e, apply, signal_raise) v
  | inr (s, e) ↦ rw (e, apply, signal_raise) (record { kill = v.kill; stop = v.stop })
]
apply-Uncaught st (send signal) v = v
apply-Uncaught st process v = record {
  kill = rw (process-actions st) v.kill;
  stop = rw (process-actions st) v.stop;
}

run-Uncaught : (st : SignalState) (cs : List Call) → Uncaught st → Uncaught (run st cs)
unfolding run
run-Uncaught st [] v = v
run-Uncaught st (c ∷ cs) v = run-Uncaught (apply st c) cs (apply-Uncaught st c v)

init-Uncaught : Uncaught signal_init
unfolding signal_init
init-Uncaught = record { kill = refl; stop = refl }

-- After any history of calls from `signal_init` on, sending SIGKILL or SIGSTOP does the default
-- action and calls no handler.
pub send_uncaught :
    (cs : List Call)
    → (signal_send (run signal_init cs) (pos sigkill) ≡ (pos 0, default_action sigkill ∷ []))
      × (signal_send (run signal_init cs) (pos sigstop) ≡ (pos 0, default_action sigstop ∷ []))
unfolding signal_send
send_uncaught cs =
    let v = run-Uncaught signal_init cs init-Uncaught in
    (ap (λ a. (pos 0, deliver a sigkill)) v.kill, ap (λ a. (pos 0, deliver a sigstop)) v.stop)
