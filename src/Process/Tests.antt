-- ===== src/Process/Tests.antt =====
-- Runs of the process table, and the theorems at concrete tables.
use kfs.Prelude.{ℕ, ◌≡◌, ◌+◌, ◌*◌, none, ◌++◌, refl, some, List, [], ◌∷◌, pos, arith}
use kfs.Process.{
  Processes, running, ready, blocked, zombie, unused, zero_process, clear_page, map_page, at_index,
  boot_processes,
}
use kfs.Process.Family.{
  process_wait, process_create, zombie_child, unlink, unlink_after, process_fork,
}
use kfs.Process.Memory.{process_brk, brk_at, process_mmap, map_pages}
use kfs.Process.Siblings.{first_child, Linked}
use kfs.Process.Wait.{Children, wait-Linked}
use kfs.Process.Adopt.{fork-Linked}
use kfs.Process.Schedule.{process_schedule, pick, next_after, scan_after, scan_before}
use kfs.Process.Calls.{Call, create, schedule, apply, run}
use kfs.Process.Single.{run_single}

abbrev four_slots : Processes
four_slots = record {
  table =
      record zero_process { pid = 1; state = ready }
      ∷ record zero_process { pid = 2; state = running; children = some 2 }
      ∷ record zero_process { pid = 3; state = blocked; parent = some 1; next_sibling = some 3 }
      ∷ record zero_process { pid = 4; state = zombie; parent = some 1; exit_status = pos 7 }
      ∷ [];
  current_process = some 1;
  next_pid = 5;
}

-- The blocked process is passed over and the search goes round.
round : pick four_slots (some 1) ≡ some 0
unfolding pick next_after scan_after scan_before
round = refl

reap : (process_wait four_slots (some 1)).0 ≡ pos 4
unfolding process_wait zombie_child unlink unlink_after
reap = refl

abbrev family : Children four_slots 1 (2 ∷ 3 ∷ [])
family = record {
  linked = (refl, (refl, refl));
  inside = (omega arith, (omega arith, (omega arith, tt)));
  distinct = ((omega arith, (omega arith, tt)), ((omega arith, tt), (tt, tt)));
  few = omega arith;
}

wait-Linked_example :
    let (r, status, st') = process_wait four_slots (some 1) in
    (r ≡ pos 4)
    × (status ≡ some (pos 7))
    × ((at_index st' 3).state ≡ unused)
    × Linked st'.table (first_child st'.table 1) (2 ∷ [])
wait-Linked_example = wait-Linked four_slots 1 (2 ∷ 3 ∷ []) 3 family refl

abbrev five_slots : Processes
five_slots = record four_slots { table = four_slots.table ++ (zero_process ∷ []) }

fork-Linked_example :
    let (r, st', es) = process_fork five_slots (some 1) 0x2000 0 in
    (r ≡ none)
    × ((at_index st' 4).state ≡ unused)
    × Linked st'.table (first_child st'.table 1) (4 ∷ 2 ∷ 3 ∷ [])
fork-Linked_example =
    fork-Linked five_slots 1 (2 ∷ 3 ∷ []) 4 0x2000 0
      (record {
        linked = (refl, (refl, refl));
        inside = (omega arith, (omega arith, (omega arith, tt)));
        distinct = ((omega arith, (omega arith, tt)), ((omega arith, tt), (tt, tt)));
        few = omega arith;
      })
      (omega arith, (omega arith, (omega arith, tt))) (omega arith) refl

abbrev history : List Call
history = create 0x1000 0 0x2000 0x3000 0x4000 ∷ schedule ∷ []

run_single_example : (run boot_processes history).current_process ≡ some 0
unfolding run apply process_schedule process_create
run_single_example = run_single history 0 refl

abbrev one_slot : Processes
one_slot = record {
  table =
      record zero_process {
        pid = 1;
        state = running;
        heap_start = 0x08080000;
        heap_end = 0x08080000;
      }
      ∷ [];
  current_process = some 0;
  next_pid = 2;
}

-- The break goes up to the next page boundary, whose two pages are cleared and mapped.
abbrev frames : ℕ → ℕ
frames k = 0x600000 + k * 4096

brk_two_pages :
    (process_brk one_slot (some 0) 0x08081001 frames (λ v. 0)).2
    ≡ clear_page 0x600000
      ∷ map_page 0 0x08080000 0x600000 6
      ∷ clear_page 0x601000
      ∷ map_page 0 0x08081000 0x601000 6
      ∷ []
unfolding process_brk brk_at process_mmap map_pages
brk_two_pages = refl
