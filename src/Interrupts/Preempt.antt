-- ===== src/Interrupts/Preempt.antt =====
-- The scheduling that the interrupts of src/timer.c bring about.
use kfs.Prelude.{
  ℕ, zero, suc, ◌+◌, ◌*◌, ◌-◌, ◌%◌, ◌<◌, ◌≤◌, ◌≡◌, refl, ap, sym, ◌∙◌, subst, inl, inr, some,
  length, ◌==◌, leb, if◌then◌else◌, arith, Bool-cases,
}
use kfs.Prelude.{true, false}
use kfs.Process.Schedule.{process_schedule}
use kfs.Process.Fair.{distance}
use kfs.Process.Progress.{Waits, rounds, rounds-serve}
use kfs.Interrupts.Timer.{Timed, timer_irq_handler}

-- The state after `n` timer interrupts with nothing between them.
pub interrupts : ℕ → Timed → Timed
interrupts zero st = st
interrupts (suc n) st = interrupts n (timer_irq_handler st).0

-- How many interrupts it is to the next call of the scheduler. Where the counter starts again at 0, the
-- interval is shorter.
abbrev left : ℕ → ℕ
left t = if leb 0xfffffffa t then 0x100000000 - t else 10 - t % 10

-- One interrupt either calls the scheduler or comes one closer to it.
tick_left :
    (t : ℕ)
    → t < 0x100000000
    → ((t + 1) % 0x100000000 % 10 == 0) ≡ false
    → left ((t + 1) % 0x100000000) + 1 ≡ left t
tick_left t h e = ground arith

-- The first call of the scheduler from here.
abbrev Scheduled : Timed → ℕ → Type 0
Scheduled st m =
    ((interrupts m st).processes ≡ (process_schedule st.processes).0)
    × ((interrupts m st).timer_ticks < 0x100000000)

-- An interrupt at which the scheduler is not called.
abbrev quiet : Timed → Timed
quiet st = record { timer_ticks = (st.timer_ticks + 1) % 0x100000000; processes = st.processes }

interrupts-quiet :
    (m : ℕ) (st : Timed)
    → ((st.timer_ticks + 1) % 0x100000000 % 10 == 0) ≡ false
    → interrupts (suc m) st ≡ interrupts m (quiet st)
unfolding interrupts timer_irq_handler
interrupts-quiet m st e = ap (interrupts m) (rw (timer_irq_handler, e) refl)

schedule_now : (st : Timed) → ((st.timer_ticks + 1) % 0x100000000 % 10 == 0) ≡ true → Scheduled st 1
unfolding interrupts timer_irq_handler
schedule_now st e = (rw e refl, omega arith)

schedule_comes :
    (f : ℕ) (st : Timed)
    → st.timer_ticks < 0x100000000
    → left st.timer_ticks ≤ f
    → (m : ℕ) × (m ≤ f) × Scheduled st m
schedule_comes zero st b h = absurd (ground arith)
schedule_comes (suc f) st b h = elim (Bool-cases ((st.timer_ticks + 1) % 0x100000000 % 10 == 0)) [
  | inl e ↦ (1, omega arith, schedule_now st e)
  | inr e ↦
      let l = tick_left st.timer_ticks b e in
      let (m, k, (p, c)) = schedule_comes f (quiet st) (omega arith) (omega (arith, l, h)) in
      let same = interrupts-quiet m st e in
      (
        suc m,
        omega (arith, k),
        (ap (λ u. u.processes) same ∙ p, subst (λ u. u.timer_ticks < 0x100000000) (sym same) c),
      )
]

left-le : (t : ℕ) → t < 0x100000000 → left t ≤ 10
left-le t h = ground arith

interrupts-add : (m n : ℕ) (st : Timed) → interrupts (m + n) st ≡ interrupts n (interrupts m st)
unfolding interrupts
interrupts-add zero n st = let e : 0 + n ≡ n = omega arith in ap (λ k. interrupts k st) e
interrupts-add (suc m) n st =
    let e : suc m + n ≡ suc (m + n) = omega arith in
    ap (λ k. interrupts k st) e ∙ interrupts-add m n (timer_irq_handler st).0

-- As many calls of the scheduler as are wanted come within ten interrupts for each.
rounds_come :
    (n : ℕ) (st : Timed)
    → st.timer_ticks < 0x100000000
    → (m : ℕ) × (m ≤ 10 * n) × ((interrupts m st).processes ≡ rounds n st.processes)
unfolding rounds interrupts
rounds_come zero st b = (0, omega arith, refl)
rounds_come (suc n) st b =
    let (m, k, (p, c)) = schedule_comes 10 st b (left-le st.timer_ticks b) in
    let (m', k', p') = rounds_come n (interrupts m st) c in
    (
      m + m',
      omega (arith, k, k'),
      ap (λ u. u.processes) (interrupts-add m m' st) ∙ (p' ∙ ap (rounds n) p),
    )

-- A ready process that waits behind the current one runs after at most ten timer interrupts for each
-- slot from the current one to it, going round, and ten more, if nothing but these interrupts changes the
-- table; whatever the tick counter is, also where it starts again at 0.
pub ticks-serve :
    (d : ℕ) (st : Timed) (cur k : ℕ)
    → st.timer_ticks < 0x100000000
    → Waits st.processes cur k
    → distance (length st.processes.table) cur k ≤ d
    → (m : ℕ) × (m ≤ 10 * (d + 1)) × ((interrupts m st).processes.current_process ≡ some k)
ticks-serve d st cur k b w h =
    let (n, l, e) = rounds-serve d st.processes cur k w h in
    let (m, l', e') = rounds_come n st b in
    (m, omega (arith, l, l'), ap (λ p. p.current_process) e' ∙ e)
