-- ===== src/VirtualMemory/Memory.antt =====
-- `kernel/virtual_memory/memory.cpp`, and of `virtual.cpp` what calls it: the pages that the kernel
-- takes and gives back, of both memories. The lock is left out. 0 is the null pointer; `none` is a
-- PANIC, a page fault, or fuel that runs out.
pub mod OnePage
pub mod GiveBack
mod Tests
use cyan_oskernel.Prelude.{
  ℕ, zero, suc, ◌+◌, ◌-◌, ◌*◌, ◌/◌, ◌%◌, ◌^◌, Bool, true, false, not, Option, none, some, ◌==◌,
  if◌then◌else◌, check_bit, bit_or, ◌>>=◌,
}
use cyan_oskernel.VirtualMemory.Physical
use cyan_oskernel.VirtualMemory.Physical.{PhysicalMemory}
use cyan_oskernel.VirtualMemory.Paging.{
  Tables, get_frame, map_page, unmap_pages, get_physical_page, map_page_table,
  check_page_table_exists,
}
use cyan_oskernel.VirtualMemory.Virtual

-- The two parts of the state: the bits of the physical pages, and the page tables.
pub record Pages : Type 0 where
  pub physical : PhysicalMemory
  pub tables : Tables

-- `PAGE_SIZE`, `FIRST_PAGE_ADDRESS`, `KERNEL_VIRTUAL_ADDRESS`, `LAST_PAGE_ADDRESS` and
-- `AVAILABLE_PAGES_START`.
abbrev pub page_size : ℕ
page_size = 0x1000

abbrev pub first_page_address : ℕ
first_page_address = 0x1000

abbrev pub kernel_virtual_address : ℕ
kernel_virtual_address = 0xC0100000

abbrev pub last_page_address : ℕ
last_page_address = 0xFFBFF000

abbrev pub available_pages_start : ℕ
available_pages_start = 0x100

-- `PAGE_USER` and `PAGE_CONTAGIOUS`.
abbrev pub is_user : ℕ → Bool
is_user flags = check_bit flags 0

abbrev pub is_contagious : ℕ → Bool
is_contagious flags = check_bit flags 3

-- `GET_PAGES`.
unfoldable pub get_pages : ℕ → ℕ
get_pages x = x / page_size + (if x % page_size == 0 then 0 else 1)

unfoldable pub parse_flags : ℕ → ℕ
parse_flags mem_flags =
    let writable = if check_bit mem_flags 1 then bit_or 1 2 else 1 in
    if check_bit mem_flags 0 then bit_or writable 4 else writable

-- The search of `_alloc_no_lock` and `_map_no_lock`.
unfoldable pub find_region : ℕ → ℕ → Tables → Option ℕ
find_region flags pages_num t =
    if is_user flags
    then Virtual.find_pages first_page_address kernel_virtual_address pages_num t
    else Virtual.find_pages kernel_virtual_address last_page_address pages_num t

-- `alloc` is `_alloc_no_lock`: the table stays in physical memory, and leaves the virtual one.
unfoldable pub create_page_table :
    (ℕ → ℕ → ℕ → Pages → Option (ℕ × Pages)) → Pages → Option (ℕ × Pages)
create_page_table alloc m = do
  (pt_addr, m') ← alloc 0 page_size 2 m
  t ← unmap_pages pt_addr 1 m'.tables
  some (pt_addr, record m' { tables = t })

-- The test and the call before each `map_page`; `create` is `create_page_table`.
unfoldable pub ensure_table : (Pages → Option (ℕ × Pages)) → ℕ → Pages → Option Pages
ensure_table create virtual_address m =
    check_page_table_exists virtual_address m.tables >>= λ exists.
    if exists
    then some m
    else (create m >>= λ (pt_addr, m').
        map_page_table virtual_address pt_addr m'.tables >>= λ t. some (record m' { tables = t }))

-- The loop of `map_pages`, with the pages left and the index.
unfoldable pub map_loop : (Pages → Option (ℕ × Pages)) → ℕ → ℕ → ℕ → ℕ → ℕ → Pages → Option Pages
unfolding ensure_table
map_loop create zero i virtual_address physical_address flags m = some m
map_loop create (suc n) i virtual_address physical_address flags m =
    ensure_table create virtual_address m >>= λ m'.
    map_page ((virtual_address + page_size * i) % 2 ^ 32)
      ((physical_address + page_size * i) % 2 ^ 32) flags m'.tables
    >>= λ t.
        map_loop create n (suc i) virtual_address physical_address flags (record m' { tables = t })

unfoldable pub map_pages : (Pages → Option (ℕ × Pages)) → ℕ → ℕ → ℕ → ℕ → Pages → Option Pages
unfolding map_loop
map_pages create virtual_address physical_address pages flags m =
    map_loop create pages 0 virtual_address physical_address flags m

-- The loop of `_alloc_no_lock` over pages that need not be neighbours.
unfoldable pub alloc_loop : (Pages → Option (ℕ × Pages)) → ℕ → ℕ → ℕ → ℕ → Pages → Option Pages
unfolding map_pages
alloc_loop create zero i virtual_address flags m = some m
alloc_loop create (suc n) i virtual_address flags m =
    Physical.alloc_page m.physical available_pages_start >>= λ (p_add, physical).
    map_pages create ((virtual_address + page_size * i) % 2 ^ 32) p_add 1 (parse_flags flags)
      (record m { physical = physical })
    >>= λ m'. alloc_loop create n (suc i) virtual_address flags m'

-- The virtual address that `_alloc_no_lock` uses, `none` inside where the asked one is in use.
unfoldable pub choose_address : ℕ → ℕ → ℕ → Tables → Option (Option ℕ)
unfolding find_region
choose_address virtual_address pages_num flags t =
    if virtual_address == 0
    then (find_region flags pages_num t >>= λ v_add. some (some v_add))
    else (Virtual.check_free_pages virtual_address pages_num t >>= λ free.
        some (if free then some virtual_address else none))

-- The rest of `_alloc_no_lock`, for the virtual address that it uses; `alloc` is itself.
unfoldable pub alloc_at :
    (ℕ → ℕ → ℕ → Pages → Option (ℕ × Pages)) → ℕ → ℕ → ℕ → Pages → Option (ℕ × Pages)
unfolding map_pages alloc_loop create_page_table
alloc_at alloc v_add pages_num flags m = elim (is_contagious flags) [
  | true ↦
      Physical.alloc_contagious_pages m.physical available_pages_start pages_num
      >>= λ (p_add, physical).
          map_pages (create_page_table alloc) v_add p_add pages_num (parse_flags flags)
            (record m { physical = physical })
          >>= λ m'. some (v_add, m')
  | false ↦
      alloc_loop (create_page_table alloc) pages_num 0 v_add flags m >>= λ m'. some (v_add, m')
]

-- The fuel bounds how deep one allocation asks for the table of another.
unfoldable pub alloc_no_lock : ℕ → ℕ → ℕ → ℕ → Pages → Option (ℕ × Pages)
unfolding choose_address alloc_at
alloc_no_lock zero virtual_address size flags m = none
alloc_no_lock (suc fuel) virtual_address size flags m =
    choose_address virtual_address (get_pages size) flags m.tables >>= λ chosen. elim chosen [
      | none ↦ some (0, m)
      | some v_add ↦ alloc_at (alloc_no_lock fuel) v_add (get_pages size) flags m
    ]

unfoldable pub free_no_lock : ℕ → ℕ → ℕ → Pages → Option Pages
free_no_lock virtual_address size flags m = do
  p_add ← get_physical_page virtual_address m.tables
  physical ← Physical.free_pages m.physical p_add (get_pages size)
  t ← unmap_pages virtual_address (get_pages size) m.tables
  some (record { physical = physical; tables = t })

abbrev pub unmap_no_lock : ℕ → ℕ → ℕ → Pages → Option Pages
unmap_no_lock virtual_address size flags m = free_no_lock virtual_address size flags m

unfoldable pub map_no_lock : ℕ → ℕ → ℕ → ℕ → Pages → Option (ℕ × Pages)
unfolding find_region map_pages create_page_table
map_no_lock fuel physical_address size flags m =
    let padding = physical_address % page_size in
    let aligned_physical_address = physical_address - padding in
    let p_add = get_frame aligned_physical_address in
    let pages_num = get_pages size + (if padding == 0 then 0 else 1) in
    if size == 0
    then some (0, m)
    else (Physical.check_free_pages m.physical p_add pages_num >>= λ free.
        if not free
        then some (0, m)
        else (find_region flags pages_num m.tables >>= λ v_add.
            Physical.set_used_pages m.physical p_add pages_num >>= λ physical.
            map_pages (create_page_table (alloc_no_lock fuel)) v_add aligned_physical_address
              (get_pages size) (parse_flags flags) (record m { physical = physical })
            >>= λ m'. some ((v_add + padding) % 2 ^ 32, m')))
