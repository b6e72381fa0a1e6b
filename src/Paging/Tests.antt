-- ===== src/Paging/Tests.antt =====
-- Concrete memories for src/paging.c.
use kfs.Prelude.{◌≡◌, refl, some, arith}
use kfs.Paging.{
  KernelTables, Memory, Paging, paging_init, paging_get_physical_address,
  paging_map_page_in_directory,
}
use kfs.Paging.Identity.{IsPlaced, init-IsSeparate, init-identity, init-IsFresh}
use kfs.Paging.Fresh.{IsFresh}
use kfs.Paging.Mapped.{map-Mapped, Mapped}
use kfs.Paging.Translate.{IsSeparate}

abbrev tables : KernelTables
tables = record {
  kernel_directory = 0x200000;
  kernel_table_0 = 0x201000;
  kernel_table_1 = 0x202000;
}

abbrev start : Paging
start = record { memory = λ _. 0; current_directory = 0 }

abbrev ready : Paging
ready = paging_init tables start

placed : IsPlaced tables
placed = record {
  directory_page = refl;
  table_0_page = refl;
  table_1_page = refl;
  not_table_0 = λ e. absurd (ground (arith, e));
  not_table_1 = λ e. absurd (ground (arith, e));
  two_tables = λ e. absurd (ground (arith, e));
}

init-identity_example : paging_get_physical_address ready 0x500123 ≡ 0x500123
init-identity_example = init-identity tables start 0x500123 placed (omega arith)

-- The page after the kernel's tables.
free_page : IsFresh ready.memory ready.current_directory 0x203000
free_page =
    init-IsFresh tables start 0x203000 placed refl (omega arith) (λ e. absurd (ground (arith, e)))
      (λ e. absurd (ground (arith, e))) (λ e. absurd (ground (arith, e)))

map-Mapped_example :
    (mem' : Memory) × (paging_map_page_in_directory ready.memory ready.current_directory 0xC0000123
        0x500000 3 0x203000
      ≡ some mem')
    × Mapped ready.memory mem' ready.current_directory 0xC0000123 0x500000
    × IsSeparate mem' ready.current_directory
unfolding paging_init
map-Mapped_example =
    map-Mapped ready.memory ready.current_directory 0xC0000123 0x500000 3 0x203000
      (init-IsSeparate tables start placed) (omega arith) (omega arith) (omega arith)
      (λ _. free_page)
