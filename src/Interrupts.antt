-- ===== src/Interrupts.antt =====
-- The tables of interrupts and segments, src/idt.c and src/gdt.c with their headers.
--
-- An address is a number; the assembly stubs are the function `stub` from a vector to the address of
-- its stub. The instructions that load a table, and the printing of tables and registers, are left out.
pub mod Pic
pub mod Timer
mod Gates
mod Masks
mod Preempt
mod Tests
use kfs.Prelude.{
  ℕ, ◌+◌, ◌-◌, ◌*◌, ◌/◌, ◌%◌, Bool, ◌&&◌, Option, none, some, List, [], ◌∷◌, ◌++◌, leb, ltb, get_or,
  set, replicate, map, bit_or, if◌then◌else◌,
}
use kfs.Interrupts.Pic.{PortWrite, eoi_writes}

abbrev pub idt_entries : ℕ
idt_entries = 256

pub record IdtEntry : Type 0 where
  pub offset_low : ℕ
  pub selector : ℕ
  pub zero_byte : ℕ
  pub type_attr : ℕ
  pub offset_high : ℕ

-- A C handler is its address.
pub record Idt : Type 0 where
  pub entries : List IdtEntry
  pub handlers : List (Option ℕ)

abbrev pub empty_entry : IdtEntry
empty_entry = record { offset_low = 0; selector = 0; zero_byte = 0; type_attr = 0; offset_high = 0 }

-- The handler's address is below 2 ^ 32; 0x80 marks the gate as present.
abbrev pub gate : (handler selector flags : ℕ) → IdtEntry
gate handler selector flags = record {
  offset_low = handler % 0x10000;
  selector = selector;
  zero_byte = 0;
  type_attr = bit_or flags 0x80;
  offset_high = handler / 0x10000 % 0x10000;
}

abbrev pub idt_set_gate : Idt → (num handler selector flags : ℕ) → Idt
idt_set_gate st num handler selector flags = record st {
  entries = set st.entries num (gate handler selector flags);
}

abbrev pub idt_register_handler : Idt → ℕ → ℕ → Idt
idt_register_handler st num handler = record st { handlers = set st.handlers num (some handler) }

abbrev pub idt_unregister_handler : Idt → ℕ → Idt
idt_unregister_handler st num = record st { handlers = set st.handlers num none }

-- IDT_INTERRUPT with IDT_RING0 or IDT_RING3.
abbrev pub ring0_gate : ℕ
ring0_gate = 0x0e

abbrev pub ring3_gate : ℕ
ring3_gate = 0x6e

abbrev pub count_from : ℕ → ℕ → List ℕ
count_from start ℕ.zero = []
count_from start (ℕ.suc n) = start ∷ count_from (start + 1) n

abbrev with_ring0 : ℕ → ℕ × ℕ
with_ring0 v = (v, ring0_gate)

-- The calls of `idt_set_gate` in `idt_init`, with their flags: the exceptions, the hardware interrupts
-- and the system call.
abbrev pub init_gates : List (ℕ × ℕ)
init_gates =
    map with_ring0 (count_from 0 20)
    ++ (map with_ring0 (count_from 32 16) ++ ((128, ring3_gate) ∷ []))

unfoldable pub install : (ℕ → ℕ) → List (ℕ × ℕ) → Idt → Idt
install stub [] st = st
install stub ((num, flags) ∷ gates) st =
    install stub gates (idt_set_gate st num (stub num) 0x08 flags)

unfoldable pub idt_init : (ℕ → ℕ) → Idt
unfolding install
idt_init stub =
    install stub init_gates
      (record { entries = replicate 256 empty_entry; handlers = replicate 256 none })

-- What `interrupt_handler_common` does: it calls a handler, halts in the default exception handler,
-- acknowledges a hardware interrupt, or does nothing.
pub data Response : Type 0 where
  called : ℕ → Response
  halted : ℕ → Response
  acknowledged : List PortWrite → Response
  ignored : Response

unfoldable pub interrupt_handler_common : Idt → ℕ → Response
interrupt_handler_common st int_no = elim (get_or st.handlers int_no none) [
  | some handler ↦ called handler
  | none ↦
      if ltb int_no 32
      then halted int_no
      else if leb 32 int_no && leb int_no 47
      then acknowledged (eoi_writes (int_no - 32))
      else ignored
]

pub record GdtEntry : Type 0 where
  pub limit_low : ℕ
  pub base_low : ℕ
  pub base_middle : ℕ
  pub access : ℕ
  pub granularity : ℕ
  pub base_high : ℕ

-- The high half of `gran` with the high four bits of the limit, which have no bit in common.
unfoldable pub gdt_entry : (base limit access gran : ℕ) → GdtEntry
gdt_entry base limit access gran = record {
  base_low = base % 0x10000;
  base_middle = base / 0x10000 % 0x100;
  base_high = base / 0x1000000 % 0x100;
  limit_low = limit % 0x10000;
  granularity = limit / 0x10000 % 0x10 + gran / 0x10 % 0x10 * 0x10;
  access = access;
}

abbrev pub gdt_set_gate : List GdtEntry → ℕ → (base limit access gran : ℕ) → List GdtEntry
gdt_set_gate entries num base limit access gran = set entries num (gdt_entry base limit access gran)

abbrev pub null_entry : GdtEntry
null_entry = record {
  limit_low = 0;
  base_low = 0;
  base_middle = 0;
  access = 0;
  granularity = 0;
  base_high = 0;
}

-- The flags of the access byte and of the granularity, as the headers name them, are in the numbers.
unfoldable gdt_init : List GdtEntry
unfolding gdt_entry
gdt_init =
    let g0 = gdt_set_gate (replicate 6 null_entry) 0 0 0 0 0 in
    let g1 = gdt_set_gate g0 1 0 0xffffffff 0x9a 0xcf in
    let g2 = gdt_set_gate g1 2 0 0xffffffff 0x92 0xcf in
    let g3 = gdt_set_gate g2 3 0 0xffffffff 0x92 0xcf in
    let g4 = gdt_set_gate g3 4 0 0xffffffff 0xfa 0xcf in gdt_set_gate g4 5 0 0xffffffff 0xf2 0xcf
