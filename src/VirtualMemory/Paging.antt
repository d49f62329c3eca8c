-- ===== src/VirtualMemory/Paging.antt =====
-- `kernel/arch/x86/paging.cpp` and `paging.h`: the page directory and the page tables, as the frames
-- of physical memory that hold them. Addresses are 32 bits wide. `none` is a page fault. What the
-- processor caches of the tables is left out: each change invalidates its page.
pub mod Mapped
use cyan_oskernel.Prelude.{
  ℕ, zero, suc, ◌+◌, ◌*◌, ◌/◌, ◌%◌, ◌^◌, Bool, true, false, ◌&&◌, Option, none, some, ◌==◌,
  if◌then◌else◌, check_bit, ◌>>=◌, ◌>>◌, assert,
}

-- `PAGE_TABLE_ENTRY` and `PAGE_DIRECTORY_ENTRY`.
pub record PageEntry : Type 0 where
  pub present : Bool
  pub rw : Bool
  pub user : Bool
  pub pwt : Bool
  pub pcd : Bool
  pub accessed : Bool
  pub dirty : Bool
  pub pse : Bool
  pub global : Bool
  pub unused : ℕ
  pub frame : ℕ

-- The frames that hold tables, each with its entries, and the frame in the register CR3.
pub record Tables : Type 0 where
  pub cr3 : ℕ
  pub entries : ℕ → ℕ → PageEntry

abbrev pub recursive_entry : ℕ
recursive_entry = 1023

abbrev pub get_frame : ℕ → ℕ
get_frame x = x / 2 ^ 12

abbrev pub get_pte_index : ℕ → ℕ
get_pte_index x = x / 2 ^ 12 % 2 ^ 10

abbrev pub get_pde_index : ℕ → ℕ
get_pde_index x = x / 2 ^ 22

-- The processor's walk to the frame of a page, by the two indices of its address.
unfoldable pub walk : ℕ → ℕ → Tables → Option ℕ
walk dir_index page_index t =
    let directory_entry = t.entries t.cr3 dir_index in
    let page_entry = t.entries directory_entry.frame page_index in
    if directory_entry.present && page_entry.present then some page_entry.frame else none

-- `PAGE_FLAGS_PRESENT`, `PAGE_FLAGS_WRITABLE`, `PAGE_FLAGS_USER` and `PAGE_FLAGS_GLOBAL` are the
-- bits 0, 1, 2 and 8. The number of the frame is a `u16`.
unfoldable pub fill_page_table_entry : PageEntry → ℕ → ℕ → PageEntry
fill_page_table_entry e physical_frame flags = record e {
  unused = 0;
  global = check_bit flags 8;
  pwt = false;
  pcd = false;
  pse = false;
  present = check_bit flags 0;
  rw = check_bit flags 1;
  user = check_bit flags 2;
  frame = physical_frame % 2 ^ 16;
}

unfoldable pub fill_directory_entry : PageEntry → ℕ → ℕ → PageEntry
fill_directory_entry e physical_frame flags = record e {
  unused = 0;
  global = check_bit flags 8;
  pwt = false;
  pcd = false;
  pse = false;
  present = check_bit flags 0;
  rw = check_bit flags 1;
  user = check_bit flags 2;
  frame = physical_frame % 2 ^ 16;
}

abbrev pub put_entry : ℕ → ℕ → PageEntry → Tables → Tables
put_entry f i e t = record t { entries = λ g j. if f == g && i == j then e else t.entries g j }

-- The table of an address and the page directory, seen through the recursive entry.
abbrev pub page_table : ℕ → Tables → Option ℕ
page_table virtual_address t = walk recursive_entry (get_pde_index virtual_address) t

abbrev pub page_dir : Tables → Option ℕ
page_dir t = walk recursive_entry recursive_entry t

unfoldable pub map_page : ℕ → ℕ → ℕ → Tables → Option Tables
unfolding walk fill_page_table_entry
map_page virtual_address physical_address flags t = do
  f ← page_table virtual_address t
  some (
      put_entry f (get_pte_index virtual_address)
        (fill_page_table_entry (t.entries f (get_pte_index virtual_address))
          (get_frame physical_address) flags)
        t)

-- The loop of `map_pages`, with the pages left and the index.
unfoldable pub map_loop : ℕ → ℕ → ℕ → ℕ → ℕ → Tables → Option Tables
unfolding map_page
map_loop zero i virtual_address physical_address flags t = some t
map_loop (suc n) i virtual_address physical_address flags t =
    map_page ((virtual_address + 2 ^ 12 * i) % 2 ^ 32) ((physical_address + 2 ^ 12 * i) % 2 ^ 32)
      flags t
    >>= λ t'. map_loop n (suc i) virtual_address physical_address flags t'

unfoldable pub map_pages : ℕ → ℕ → ℕ → ℕ → Tables → Option Tables
unfolding map_loop
map_pages virtual_address physical_address pages flags t =
    map_loop pages 0 virtual_address physical_address flags t

unfoldable pub unmap_page : ℕ → Tables → Option Tables
unfolding walk
unmap_page virtual_address t = do
  f ← page_table virtual_address t
  some (
      put_entry f (get_pte_index virtual_address)
        (record (t.entries f (get_pte_index virtual_address)) { present = false }) t)

-- The loop of `unmap_pages`, with the pages left and the index.
unfoldable pub unmap_loop : ℕ → ℕ → ℕ → Tables → Option Tables
unfolding unmap_page
unmap_loop zero i virtual_address t = some t
unmap_loop (suc n) i virtual_address t =
    unmap_page ((virtual_address + 2 ^ 12 * i) % 2 ^ 32) t >>= λ t'.
    unmap_loop n (suc i) virtual_address t'

unfoldable pub unmap_pages : ℕ → ℕ → Tables → Option Tables
unfolding unmap_loop
unmap_pages virtual_address pages t = unmap_loop pages 0 virtual_address t

unfoldable pub get_physical_page : ℕ → Tables → Option ℕ
unfolding walk
get_physical_page virtual_address t = do
  f ← page_table virtual_address t
  some (t.entries f (get_pte_index virtual_address)).frame

unfoldable pub map_page_table : ℕ → ℕ → Tables → Option Tables
unfolding walk get_physical_page fill_directory_entry
map_page_table virtual_address pt_virtual_address t = do
  d ← page_dir t
  pt_frame ← get_physical_page pt_virtual_address t
  some (
      put_entry d (get_pde_index virtual_address)
        (fill_directory_entry (t.entries d (get_pde_index virtual_address)) pt_frame 7) t)

unfoldable pub check_page_table_exists : ℕ → Tables → Option Bool
unfolding walk
check_page_table_exists virtual_address t = do
  d ← page_dir t
  some (t.entries d (get_pde_index virtual_address)).present

unfoldable pub check_page_exits_in_table : ℕ → Tables → Option Bool
unfolding walk
check_page_exits_in_table virtual_address t = do
  f ← page_table virtual_address t
  some (t.entries f (get_pte_index virtual_address)).present

unfoldable pub check_page_present : ℕ → Tables → Option Bool
unfolding check_page_table_exists check_page_exits_in_table
check_page_present virtual_address t = do
  exists ← check_page_table_exists virtual_address t
  if exists then check_page_exits_in_table virtual_address t else some false
