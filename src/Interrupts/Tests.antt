-- ===== src/Interrupts/Tests.antt =====
-- Runs of the interrupt tables and the timer, and the theorems on them at concrete input.
use kfs.Prelude.{
  ℕ, ◌+◌, ◌*◌, ◌≤◌, ◌≡◌, ◌≢◌, refl, true, false, some, [], ◌∷◌, replicate, set, get_or, arith,
}
use kfs.Process.{Processes, zero_process, ready, running}
use kfs.Interrupts.{
  idt_init, idt_register_handler, interrupt_handler_common, empty_entry, called, acknowledged,
}
use kfs.Interrupts.Pic.{
  Pic, pic_mask_irq, pic_unmask_irq, pic_get_mask, pic_set_mask, pic_disable_all, pic1_command,
  pic2_command,
}
use kfs.Interrupts.Timer.{timer_wait}
use kfs.Interrupts.Gates.{idt_init-gates, attributes, Leads}
use kfs.Interrupts.Masks.{masks_are_one}
use kfs.Interrupts.Preempt.{ticks-serve, interrupts}

abbrev open_pic : Pic
open_pic = record { master = replicate 8 false; slave = replicate 8 false }

masks_are_one_example :
    (pic_get_mask (pic_mask_irq open_pic 12) ≡ set (pic_get_mask open_pic) 12 true)
    × (pic_get_mask (pic_unmask_irq open_pic 12) ≡ set (pic_get_mask open_pic) 12 false)
    × (pic_get_mask (pic_disable_all open_pic) ≡ replicate 16 true)
    × (pic_set_mask (pic_disable_all open_pic) (pic_get_mask open_pic) ≡ open_pic)
masks_are_one_example =
    masks_are_one open_pic (pic_disable_all open_pic) 12
      (record { master_bits = refl; slave_bits = refl })

abbrev stub : ℕ → ℕ
stub v = 0x100000 + v * 16

idt_init-gates_example :
    ((get_or (idt_init stub).entries 128 empty_entry).type_attr ≡ 0xee)
    × (attributes 128 ≢ 0 → Leads 0x100800 (get_or (idt_init stub).entries 128 empty_entry))
idt_init-gates_example = idt_init-gates stub 128 (omega arith) (omega arith)

-- An interrupt of the second controller with no handler is acknowledged to both, one with a handler is
-- left to it.
second_controller :
    interrupt_handler_common (idt_init stub) 44
    ≡ acknowledged ((pic2_command, 0x20) ∷ (pic1_command, 0x20) ∷ [])
unfolding interrupt_handler_common idt_init
second_controller = refl

own_handler :
    interrupt_handler_common (idt_register_handler (idt_init stub) 44 0x1234) 44 ≡ called 0x1234
unfolding interrupt_handler_common idt_init
own_handler = refl

-- A wait for 100 ticks that begins 16 ticks before the counter starts again returns at once, one that
-- begins at 0 has not returned after 99.
wait_wraps : timer_wait 1 0xfffffff0 100 ≡ true
unfolding timer_wait
wait_wraps = refl

wait_runs : timer_wait 100 0 100 ≡ false
unfolding timer_wait
wait_runs = refl

abbrev two_slots : Processes
two_slots = record {
  table =
      record zero_process { pid = 1; state = ready }
      ∷ record zero_process { pid = 2; state = running }
      ∷ [];
  current_process = some 1;
  next_pid = 3;
}

-- Just before the counter starts again.
ticks-serve_example :
    (m : ℕ) × (m ≤ 20)
    × ((interrupts m
          (record { timer_ticks = 0xfffffffd; processes = two_slots })).processes.current_process
        ≡ some 0)
ticks-serve_example =
    ticks-serve 1 (record { timer_ticks = 0xfffffffd; processes = two_slots }) 1 0 (omega arith)
      (record { at_work = refl; inside = omega arith; willing = refl; other = omega arith })
      (omega arith)
