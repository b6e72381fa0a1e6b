-- ===== src/Interrupts/Timer.antt =====
-- The timer, src/timer.c with include/timer.h, over the scheduler.
use kfs.Prelude.{ℕ, zero, suc, ◌+◌, ◌/◌, ◌%◌, ◌==◌, Bool, List, [], ◌∷◌, ltb, if◌then◌else◌}
use kfs.Process.{Processes}
use kfs.Process.Schedule.{process_schedule}
use kfs.Interrupts.Pic.{PortWrite, eoi_writes}

abbrev pub pit_frequency : ℕ
pit_frequency = 1193182

abbrev pub schedule_frequency : ℕ
schedule_frequency = 10

-- The counter is modulo 2 ^ 32.
pub record Timed : Type 0 where
  pub timer_ticks : ℕ
  pub processes : Processes

unfoldable pub timer_irq_handler : Timed → Timed × List PortWrite
timer_irq_handler st =
    let ticks = (st.timer_ticks + 1) % 0x100000000 in
    (
      record {
        timer_ticks = ticks;
        processes =
            if ticks % schedule_frequency == 0
            then (process_schedule st.processes).0
            else st.processes;
      },
      eoi_writes 0,
    )

-- A frequency other than 0.
unfoldable timer_divisor : ℕ → ℕ
timer_divisor frequency =
    let divisor = pit_frequency / frequency in
    if ltb 0xffff divisor then 0xffff else if ltb divisor 1 then 1 else divisor

-- The writes of `timer_init`: the command and the two halves of the divisor.
unfoldable timer_writes : ℕ → List PortWrite
unfolding timer_divisor
timer_writes frequency =
    let divisor = timer_divisor frequency in
    (0x43, 0x36) ∷ (0x40, divisor % 0x100) ∷ (0x40, divisor / 0x100 % 0x100) ∷ []

-- `timer_wait` reads the counter again after each interrupt, up to `fuel` of them: whether it returns
-- by then.
unfoldable wait_from : ℕ → (now end_ticks : ℕ) → Bool
wait_from zero now end_ticks = Bool.false
wait_from (suc fuel) now end_ticks =
    let rest = wait_from fuel ((now + 1) % 0x100000000) end_ticks in
    if ltb now end_ticks then rest else Bool.true

unfoldable pub timer_wait : ℕ → (now ticks : ℕ) → Bool
unfolding wait_from
timer_wait fuel now ticks = wait_from fuel now ((now + ticks) % 0x100000000)
