-- ===== src/Interrupts/Gates.antt =====
-- The gates after `idt_init` of src/idt.c, and the descriptors of src/gdt.c.
use kfs.Prelude.{
  ℕ, zero, suc, ◌+◌, ◌*◌, ◌/◌, ◌%◌, ◌<◌, ◌≡◌, ◌≢◌, refl, ap, sym, ◌∙◌, subst, Bool, true, ◌&&◌,
  ◌||◌, inl, inr, Option, none, some, List, [], ◌∷◌, ◌==◌, ltb, leb, length, length-set, get_or,
  get_or-set_self, get_or-set_ne, set, replicate, length-replicate, bit_or, if◌then◌else◌, arith,
  Bool-cases,
}
use kfs.Interrupts.{
  Idt, IdtEntry, empty_entry, gate, idt_set_gate, idt_init, install, init_gates, GdtEntry,
  gdt_entry,
}

-- The flags of the last gate in the list for a vector.
unfoldable flags_of : ℕ → List (ℕ × ℕ) → Option ℕ
flags_of v [] = none
flags_of v ((num, flags) ∷ gates) = elim (flags_of v gates) [
  | some f ↦ some f
  | none ↦ if v == num then some flags else none
]

-- What the entry of a vector is after gates are installed.
abbrev entry_after : (ℕ → ℕ) → ℕ → IdtEntry → Option ℕ → IdtEntry
entry_after stub v before none = before
entry_after stub v before (some flags) = gate (stub v) 0x08 flags

install-entry :
    (stub : ℕ → ℕ) (gates : List (ℕ × ℕ)) (st : Idt) (v : ℕ)
    → v < length st.entries
    → get_or (install stub gates st).entries v empty_entry
      ≡ entry_after stub v (get_or st.entries v empty_entry) (flags_of v gates)
unfolding install flags_of
install-entry stub [] st v h = refl
install-entry stub ((num, flags) ∷ gates) st v h =
    install-entry stub gates (idt_set_gate st num (stub num) 0x08 flags) v
      (subst (λ n. v < n) (sym (length-set st.entries num (gate (stub num) 0x08 flags))) h)
    ∙ go (flags_of v gates)
  where
    here :
        entry_after stub v
          (get_or (set st.entries num (gate (stub num) 0x08 flags)) v empty_entry)
          none
        ≡ entry_after stub v
            (get_or st.entries v empty_entry)
            (if v == num then some flags else none)
    here = elim (Bool-cases (v == num)) [
      | inl e ↦
          let same : v ≡ num = ground arith in
          rw e (
            ap (λ k. get_or (set st.entries num (gate (stub num) 0x08 flags)) k empty_entry) same
            ∙ (get_or-set_self st.entries num (gate (stub num) 0x08 flags) empty_entry
                  (omega (arith, h, same))
                ∙ ap (λ k. gate (stub k) 0x08 flags) (sym same)))
      | inr e ↦
          rw e
            (get_or-set_ne st.entries num v (gate (stub num) 0x08 flags) empty_entry (ground arith))
    ]

    go :
        (o : Option ℕ)
        → entry_after stub v
            (get_or (set st.entries num (gate (stub num) 0x08 flags)) v empty_entry)
            o
          ≡ entry_after stub v (get_or st.entries v empty_entry) (elim o as (λ x. Option ℕ) [
            | some f ↦ some f
            | none ↦ if v == num then some flags else none
          ])
    go none = here
    go (some f) = refl

-- The numbers below `n` all pass a test.
all_below : ℕ → (ℕ → Bool) → Bool
all_below zero p = true
all_below (suc n) p = p n && all_below n p

all_below-lt : (n : ℕ) (p : ℕ → Bool) (v : ℕ) → all_below n p ≡ true → v < n → p v ≡ true
unfolding all_below
all_below-lt zero p v e h = absurd (omega (arith, h))
all_below-lt (suc n) p v e h = elim (Bool-cases (v == n)) [
  | inl k ↦ let same : v ≡ n = ground arith in ap p same ∙ ground (arith, e)
  | inr k ↦ all_below-lt n p v (ground (arith, e)) (ground arith)
]

-- The type and attributes of a vector: the exceptions from 0 to 19 and the hardware interrupts from 32
-- to 47 have a present gate for the kernel, 128 has one that user programs may call.
abbrev pub attributes : ℕ → ℕ
attributes v = if v == 128 then 0xee else if ltb v 20 || (leb 32 v && leb v 47) then 0x8e else 0

abbrev attr_of : Option ℕ → ℕ
attr_of none = 0
attr_of (some flags) = bit_or flags 0x80

attr_checked : all_below 256 (λ v. attr_of (flags_of v init_gates) == attributes v) ≡ true
unfolding all_below flags_of
attr_checked = refl

-- Where the processor goes through a gate: the address in the kernel's code segment, the second
-- descriptor of `gdt_init`.
abbrev pub Leads : ℕ → IdtEntry → Type 0
Leads address e =
    (e.selector ≡ 0x08) × (e.zero_byte ≡ 0) × (e.offset_low + e.offset_high * 0x10000 ≡ address)

entry_attr :
    (stub : ℕ → ℕ) (v : ℕ) (o : Option ℕ)
    → stub v < 0x100000000
    → ((entry_after stub v empty_entry o).type_attr ≡ attr_of o)
      × (attr_of o ≢ 0 → Leads (stub v) (entry_after stub v empty_entry o))
entry_attr stub v none h = (refl, λ n. absurd (n refl))
entry_attr stub v (some flags) h = (refl, λ n. (refl, refl, omega (arith, h)))

get_or-replicate : (n v : ℕ) (e : IdtEntry) → get_or (replicate n e) v e ≡ e
get_or-replicate zero v e = refl
get_or-replicate (suc n) zero e = refl
get_or-replicate (suc n) (suc v) e = get_or-replicate n v e

-- What the theorem says of an entry.
abbrev IsGate : (ℕ → ℕ) → ℕ → IdtEntry → Type 0
IsGate stub v e = (e.type_attr ≡ attributes v) × (attributes v ≢ 0 → Leads (stub v) e)

-- After `idt_init`, for every vector below 256: the type and attributes of its gate are those that the
-- vector is to have, so that user programs can call no vector but 128; and a gate that is present has the
-- selector 0x08 of the kernel's code segment, a zero byte, and the address of its own stub, whose halves
-- make it up again.
pub idt_init-gates :
    (stub : ℕ → ℕ) (v : ℕ)
    → v < 256
    → stub v < 0x100000000
    → let e = get_or (idt_init stub).entries v empty_entry in
      (e.type_attr ≡ attributes v) × (attributes v ≢ 0 → Leads (stub v) e)
unfolding idt_init
idt_init-gates stub v h k =
    let checked : attr_of (flags_of v init_gates) ≡ attributes v = ground (
      arith,
      all_below-lt 256 (λ v. attr_of (flags_of v init_gates) == attributes v) v attr_checked h,
    ) in
    let start : Idt = record {
      entries = replicate 256 empty_entry;
      handlers = replicate 256 none;
    } in
    let entry : get_or (install stub init_gates start).entries v empty_entry
        ≡ entry_after stub v empty_entry (flags_of v init_gates) =
      install-entry stub init_gates start v (omega (arith, h, length-replicate 256 empty_entry))
      ∙ ap (λ b. entry_after stub v b (flags_of v init_gates))
          (get_or-replicate 256 v empty_entry) in
    let (attr, address) = entry_attr stub v (flags_of v init_gates) k in
    subst (IsGate stub v) (sym entry) (attr ∙ checked, λ n. address (λ z. n (sym checked ∙ z)))

-- The base and the limit that the processor reads from a descriptor, and the flags in its high half.
abbrev base_of : GdtEntry → ℕ
base_of e = e.base_low + (e.base_middle * 0x10000 + e.base_high * 0x1000000)

abbrev limit_of : GdtEntry → ℕ
limit_of e = e.limit_low + e.granularity % 0x10 * 0x10000

-- A descriptor that `gdt_set_gate` writes gives the processor the base back, the limit up to its
-- twenty bits, and the flags in the high half of `gran`, in disjoint fields of one byte each or two.
gdt_entry-decoded :
    (base limit access gran : ℕ)
    → base < 0x100000000
    → gran < 0x100
    → let e = gdt_entry base limit access gran in
      (base_of e ≡ base)
      × (limit_of e ≡ limit % 0x100000)
      × (e.granularity / 0x10 ≡ gran / 0x10)
      × (e.access ≡ access)
      × (e.granularity < 0x100)
unfolding gdt_entry
gdt_entry-decoded base limit access gran h k =
    (omega (arith, h), omega arith, omega (arith, k), refl, omega arith)
