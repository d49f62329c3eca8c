-- ===== src/VirtualMemory/Virtual/Tests.antt =====
-- The theorems of the page tables and of the search for virtual pages, at concrete tables.
use cyan_oskernel.Prelude.{
  ℕ, ◌+◌, ◌*◌, ◌%◌, ◌^◌, ◌<◌, ◌≡◌, refl, Bool, true, false, ◌||◌, none, some, arith, ◌==◌,
  if◌then◌else◌, check_bit,
}
use cyan_oskernel.VirtualMemory.Paging.{PageEntry, Tables, get_frame, map_page}
use cyan_oskernel.VirtualMemory.Paging.Mapped.{IsValid, translate, map_page-IsValid}
use cyan_oskernel.VirtualMemory.Virtual.{find_pages}
use cyan_oskernel.VirtualMemory.Virtual.Search.{Scanned, find_pages-Scanned}

abbrev entry : Bool → ℕ → PageEntry
entry present frame = record {
  present = present;
  rw = true;
  user = false;
  pwt = false;
  pcd = false;
  accessed = false;
  dirty = false;
  pse = false;
  global = false;
  unused = 0;
  frame = frame;
}

-- The directory in frame 5 has a table in frame 6, whose first two pages are mapped.
abbrev tables : Tables
tables = record {
  cr3 = 5;
  entries = λ f i.
      if f == 5
      then entry (i == 0 || i == 1023) (if i == 1023 then 5 else 6)
      else entry (i == 0 || i == 1) (100 + i);
}

tables-IsValid : IsValid tables
tables-IsValid = record {
  recursive_present = refl;
  recursive_frame = refl;
  apart = λ i j li lj pi pj same. ground arith;
}

map_page-IsValid_example :
    (t' : Tables) × (map_page 0x2000 0x9000 3 tables ≡ some t')
    × IsValid t'
    × ((va' : ℕ)
        → va' < 2 ^ 32
        → translate va' t' ≡ (
            if get_frame 0x2000 == get_frame va'
            then (if check_bit 3 0 then some (get_frame 0x9000 % 2 ^ 16) else none)
            else translate va' tables))
map_page-IsValid_example =
    map_page-IsValid tables tables-IsValid 0x2000 (omega arith) refl (omega arith) 0x9000 3

find_pages-Scanned_example :
    Scanned tables 0x1000 10 2 (find_pages 0x1000 (0x1000 + 2 ^ 12 * 10) 2 tables)
find_pages-Scanned_example =
    find_pages-Scanned tables tables-IsValid 0x1000 10 2 (omega arith) (omega arith) (omega arith)
