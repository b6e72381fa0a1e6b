-- ===== src/Process/Mapping.antt =====
-- `process_mmap` and `process_brk` of src/process.c start no process.
use kfs.Prelude.{
  ℕ, ◌+◌, ◌-◌, ◌*◌, ◌%◌, ◌≡◌, refl, Option, none, some, List, ◌==◌, ltb, Bool-cases, inl, inr,
}
use kfs.Process.{Process, Processes, Effect, change, at_index, page_size, word}
use kfs.Process.Memory.{
  process_mmap, process_brk, brk_at, map_pages, mmap_at, grow, raise_end, page_flags, is_anonymous,
  pages_needed, new_break,
}
use kfs.Process.Running.{OneRunning, Fewer-modify, keep}

keep_field :
    (st : Processes) (i : ℕ) (f : Process → Process)
    → ((p : Process) → (f p).state ≡ p.state)
    → OneRunning st
    → OneRunning (change st i f)
keep_field st i f e v =
    keep st (change st i f) v (Fewer-modify f st.table i (λ p h. rw (e p) at h)) refl

mmap_at-OneRunning :
    (st : Processes) (i virt pages prot flags : ℕ) (alloc phys : ℕ → ℕ)
    → OneRunning st
    → OneRunning (mmap_at st i virt pages prot flags alloc phys).1
mmap_at-OneRunning st i virt pages prot flags alloc phys v =
    elim (Bool-cases
      (map_pages alloc phys (at_index st i).page_directory virt (page_flags prot)
        (is_anonymous flags) pages 0).0) [
          | inl b ↦
              rw b (keep_field st i (raise_end ((virt + pages * page_size) % word)) (λ p. refl) v)
          | inr b ↦ rw b v
        ]

pub mmap-OneRunning :
    (st : Processes) (p : Option ℕ) (addr length prot flags : ℕ) (alloc phys : ℕ → ℕ)
    → OneRunning st
    → OneRunning (process_mmap st p addr length prot flags alloc phys).1
unfolding process_mmap
mmap-OneRunning st none addr length prot flags alloc phys v = v
mmap-OneRunning st (some i) addr length prot flags alloc phys v = elim (Bool-cases (length == 0)) [
  | inl b ↦ rw b v
  | inr b ↦ rw b (mmap_at-OneRunning st i _ (pages_needed length) prot flags alloc phys v)
]

grow-OneRunning :
    (o : Option ℕ × Processes × List Effect) (i : ℕ) → OneRunning o.1 → OneRunning (grow o i).1
grow-OneRunning (none, st, es) i v = v
grow-OneRunning (some virt, st, es) i v = v

brk_at-OneRunning :
    (st : Processes) (i limit : ℕ) (alloc phys : ℕ → ℕ)
    → OneRunning st
    → OneRunning (brk_at st i limit alloc phys).1
unfolding brk_at
brk_at-OneRunning st i limit alloc phys v = elim (Bool-cases (ltb (at_index st i).heap_end limit)) [
  | inl u ↦
      let old = (at_index st i).heap_end in
      rw u (
        grow-OneRunning (process_mmap st (some i) old (limit - old) 3 0x22 alloc phys) i
          (mmap-OneRunning st (some i) old (limit - old) 3 0x22 alloc phys v))
  | inr u ↦ elim (Bool-cases (ltb limit (at_index st i).heap_end)) [
    | inl d ↦ rw (u, d) (keep_field st i (λ p. record p { heap_end = limit }) (λ p. refl) v)
    | inr d ↦ rw (u, d) v
  ]
]

pub brk-OneRunning :
    (st : Processes) (p : Option ℕ) (addr : ℕ) (alloc phys : ℕ → ℕ)
    → OneRunning st
    → OneRunning (process_brk st p addr alloc phys).1
unfolding process_brk
brk-OneRunning st none addr alloc phys v = v
brk-OneRunning st (some i) addr alloc phys v = elim (Bool-cases (addr == 0)) [
  | inl b ↦ rw b v
  | inr b ↦ rw b (brk_at-OneRunning st i (new_break addr) alloc phys v)
]
