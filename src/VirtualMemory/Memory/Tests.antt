-- ===== src/VirtualMemory/Memory/Tests.antt =====
-- Taking one page and giving it back, at a concrete state.
use cyan_oskernel.Prelude.{
  ℕ, ◌+◌, ◌≡◌, refl, Bool, true, false, some, arith, ◌==◌, if◌then◌else◌, replicate, set,
  get_or-replicate,
}
use cyan_oskernel.Prelude.{check_bit, set_bit}
use cyan_oskernel.VirtualMemory.Physical
use cyan_oskernel.VirtualMemory.Physical.{PhysicalMemory, alloc_page, set_used_pages}
use cyan_oskernel.VirtualMemory.Virtual.{find_pages}
use cyan_oskernel.Stdlib.Bitmap.{range_loop}
use cyan_oskernel.VirtualMemory.Physical.Alloc
use cyan_oskernel.VirtualMemory.Physical.Alloc.{is_used, set_used_pages-Marked}
use cyan_oskernel.VirtualMemory.Paging.{PageEntry, map_page, walk, check_page_present, put_entry}
use cyan_oskernel.VirtualMemory.Paging.Mapped.{IsValid}
use cyan_oskernel.VirtualMemory.Memory.{Pages, alloc_no_lock, free_no_lock, get_pages, parse_flags}
use cyan_oskernel.VirtualMemory.Memory.OnePage.{IsReady, Outcome, alloc_no_lock-Outcome}
use cyan_oskernel.VirtualMemory.Memory.GiveBack.{Restored, free_no_lock-alloc_no_lock}

abbrev entry : Bool → ℕ → PageEntry
entry present frame = record {
  present = present;
  rw = true;
  user = false;
  pwt = false;
  pcd = false;
  accessed = false;
  dirty = false;
  pse = false;
  global = false;
  unused = 0;
  frame = frame;
}

-- Every table is there, and no page; none of the 512 physical pages is used.
abbrev empty_pages : Pages
empty_pages = record {
  physical = record { tracer = replicate 64 0; physical_memory_size = 0 };
  tables = record {
    cr3 = 5;
    entries = λ f i. if f == 5 then entry true (if i == 1023 then 5 else 6 + i) else entry false 0;
  };
}

empty_tables-IsValid : IsValid empty_pages.tables
empty_tables-IsValid = record {
  recursive_present = refl;
  recursive_frame = refl;
  apart = λ i j li lj pi pj same. ground arith;
}

empty_physical-IsValid : Alloc.IsValid empty_pages.physical
empty_physical-IsValid = record {
  bytes = λ i. rw (get_or-replicate {A = ℕ} 64 0 i) (omega arith);
  pages = omega arith;
}

empty_pages-IsReady : IsReady 2 empty_pages
empty_pages-IsReady = record {
  physical_valid = empty_physical-IsValid;
  pages_there = omega arith;
  tables_valid = empty_tables-IsValid;
  present = λ va lo hi. refl;
}

alloc_no_lock-Outcome_example : Outcome 2 empty_pages (alloc_no_lock 1 0 4096 2 empty_pages)
unfolding get_pages check_bit
alloc_no_lock-Outcome_example =
    alloc_no_lock-Outcome 2 4096 0 empty_pages empty_pages-IsReady refl refl

-- The first page of the kernel's region, in the frame 256.
abbrev after_alloc : Pages
after_alloc = record {
  physical = record { tracer = set (replicate 64 0) 32 1; physical_memory_size = 4096 };
  tables = put_entry 774 256 (record (entry true 256) { user = false }) empty_pages.tables;
}

took_first : alloc_no_lock 1 0 4096 2 empty_pages ≡ some (0xC0100000, after_alloc)
unfolding alloc_no_lock check_bit find_pages check_page_present get_pages alloc_page walk map_page
    set_used_pages Physical.find_pages parse_flags set_bit range_loop
took_first = refl

free_no_lock-alloc_no_lock_example :
    (m'' : Pages) × (free_no_lock 0xC0100000 4096 2 after_alloc ≡ some m'')
    × Restored empty_pages m''
unfolding get_pages check_bit
free_no_lock-alloc_no_lock_example =
    free_no_lock-alloc_no_lock 2 4096 0 0xC0100000 256 empty_pages after_alloc empty_pages-IsReady
      refl refl (omega arith) (omega arith) refl took_first
