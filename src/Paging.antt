-- ===== src/Paging.antt =====
-- Page directories and tables, src/paging.c with include/paging.h.
--
-- Memory is the function from the address of a 32-bit word to its value. Directories and tables are
-- their addresses, NULL is 0, and entry `i` is the word at `4 * i` after the start. What `kmalloc` and
-- `kmalloc_aligned` answer is an argument. A result `none` is a halt by `kernel_panic`. The control
-- registers and the TLB are left out, and so is `page_fault_handler`, which prints and halts.
pub mod Clone
pub mod Translate
mod Fresh
mod Mapped
mod Identity
mod Tests
use kfs.Prelude.{
  ℕ, ◌+◌, ◌-◌, ◌*◌, ◌/◌, ◌%◌, Bool, true, false, ◌&&◌, Option, none, some, ◌==◌, leb, ltb,
  if◌then◌else◌, bit_or,
}

abbrev pub page_size : ℕ
page_size = 4096

abbrev pub page_entries : ℕ
page_entries = 1024

abbrev pub Memory : Type 0
Memory = ℕ → ℕ

-- Where the linker put the kernel's directory and its two tables.
pub record KernelTables : Type 0 where
  pub kernel_directory : ℕ
  pub kernel_table_0 : ℕ
  pub kernel_table_1 : ℕ

pub record Paging : Type 0 where
  pub memory : Memory
  pub current_directory : ℕ

abbrev pub store : Memory → ℕ → ℕ → Memory
store mem a v = λ x. if x == a then v else mem x

-- All 1024 entries of the table at `base`, entry `i` with `f i`.
abbrev pub write_table : Memory → ℕ → (ℕ → ℕ) → Memory
write_table mem base f =
    λ x. if leb base x && ltb x (base + page_size) then f ((x - base) / 4) else mem x

abbrev pub entry : Memory → ℕ → ℕ → ℕ
entry mem base i = mem (base + 4 * i)

-- `e & PAGE_PRESENT`
abbrev pub is_present : ℕ → Bool
is_present e = e % 2 == 1

-- `e & ~0xFFF`
abbrev pub frame : ℕ → ℕ
frame e = e - e % page_size

abbrev pub dir_index : ℕ → ℕ
dir_index virt_addr = virt_addr / 0x400000

abbrev pub table_index : ℕ → ℕ
table_index virt_addr = virt_addr / page_size % page_entries

-- `(phys_addr & ~0xFFF) | (flags & 0xFFF) | PAGE_PRESENT`
abbrev pub page_entry : (phys_addr flags : ℕ) → ℕ
page_entry phys_addr flags = frame phys_addr + (flags % page_size + 1 - flags % 2)

-- `table | PAGE_PRESENT | PAGE_WRITE | flags`
abbrev pub directory_entry : (table flags : ℕ) → ℕ
directory_entry table flags = bit_or table (flags - flags % 4 + 3)

unfoldable pub paging_init : KernelTables → Paging → Paging
paging_init k st =
    let clear =
      write_table
        (write_table (write_table st.memory k.kernel_directory (λ i. 0)) k.kernel_table_0 (λ i. 0))
        k.kernel_table_1 (λ i. 0) in
    let first = write_table clear k.kernel_table_0 (λ i. i * page_size + 3) in
    let second = write_table first k.kernel_table_1 (λ i. (page_entries + i) * page_size + 3) in
    record {
      memory =
          store (store second k.kernel_directory (directory_entry k.kernel_table_0 0))
            (k.kernel_directory + 4) (directory_entry k.kernel_table_1 0);
      current_directory = k.kernel_directory;
    }

unfoldable pub paging_map_page : Paging → (virt_addr phys_addr flags : ℕ) → Option Paging
paging_map_page st virt_addr phys_addr flags =
    let e = entry st.memory st.current_directory (dir_index virt_addr) in
    if is_present e
    then some (record st {
      memory = store st.memory (frame e + 4 * table_index virt_addr) (page_entry phys_addr flags);
    })
    else none

unfoldable pub paging_unmap_page : Paging → ℕ → Paging
paging_unmap_page st virt_addr =
    let e = entry st.memory st.current_directory (dir_index virt_addr) in
    if is_present e
    then record st { memory = store st.memory (frame e + 4 * table_index virt_addr) 0 }
    else st

-- In the directory at `dir`.
unfoldable pub physical_address : Memory → ℕ → ℕ → ℕ
physical_address mem dir virt_addr =
    let e = entry mem dir (dir_index virt_addr) in
    let p = entry mem (frame e) (table_index virt_addr) in
    if is_present e then (if is_present p then frame p + virt_addr % page_size else 0) else 0

abbrev pub paging_get_physical_address : Paging → ℕ → ℕ
paging_get_physical_address st virt_addr = physical_address st.memory st.current_directory virt_addr

-- The cleared table, where `kmalloc_aligned` returned `table`.
abbrev pub paging_alloc_table : Memory → ℕ → Memory
paging_alloc_table mem table = if table == 0 then mem else write_table mem table (λ i. 0)

-- `dir` is what `kmalloc_aligned` returns, and the result.
unfoldable paging_create_directory : KernelTables → Memory → ℕ → Memory
paging_create_directory k mem dir =
    let clear = write_table mem dir (λ i. 0) in
    let first = store clear dir (entry clear k.kernel_directory 0) in
    if dir == 0 then mem else store first (dir + 4) (entry first k.kernel_directory 1)

abbrev set_page : Memory → (table virt_addr phys_addr flags : ℕ) → Memory
set_page mem table virt_addr phys_addr flags =
    store mem (table + 4 * table_index virt_addr) (page_entry phys_addr flags)

-- `new` is what `kmalloc_aligned` returns, if it is called.
unfoldable pub paging_map_page_in_directory :
    Memory → (dir virt_addr phys_addr flags new : ℕ) → Option Memory
paging_map_page_in_directory mem dir virt_addr phys_addr flags new =
    let e = entry mem dir (dir_index virt_addr) in
    let e' = directory_entry new flags in
    let with_table = store (paging_alloc_table mem new) (dir + 4 * dir_index virt_addr) e' in
    if dir == 0
    then some mem
    else if is_present e
    then some (set_page mem (frame e) virt_addr phys_addr flags)
    else if new == 0
    then none
    else some (set_page with_table (frame e') virt_addr phys_addr flags)

abbrev pub paging_switch_directory : Paging → ℕ → Paging
paging_switch_directory st dir = if dir == 0 then st else record st { current_directory = dir }
