-- ===== src/Signal/Tests.antt =====
-- Runs of the signal code, and the theorems at concrete states.
use kfs.Prelude.{◌≡◌, refl, List, [], ◌∷◌, pos}
use kfs.Signal.{
  called, default_action, sigkill, sigstop, signal_init, signal_send, signal_process_pending, Call,
  register, raise, run, apply, process_from, signal_raise, signal_register,
}
use kfs.Signal.Caught.{send_uncaught}

abbrev history : List Call
history = register (pos 2) 0x1234 ∷ register (pos 9) 0x5678 ∷ raise (pos 9) ∷ raise (pos 2) ∷ []

processed_in_order :
    (signal_process_pending (run signal_init history)).1 ≡ called 0x1234 2 ∷ default_action 9 ∷ []
unfolding run signal_process_pending process_from signal_init signal_send apply signal_raise
    signal_register
processed_in_order = refl

send_uncaught_example :
    (signal_send (run signal_init history) (pos sigkill) ≡ (pos 0, default_action sigkill ∷ []))
    × (signal_send (run signal_init history) (pos sigstop) ≡ (pos 0, default_action sigstop ∷ []))
send_uncaught_example = send_uncaught history
