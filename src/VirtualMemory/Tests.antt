-- ===== src/VirtualMemory/Tests.antt =====
-- The theorems of the physical pages, at concrete inputs.
use cyan_oskernel.Prelude.{zero, suc, ◌*◌, ◌/◌, ◌≡◌, refl, some, [], ◌∷◌, arith, check_bit, set_bit}
use cyan_oskernel.Stdlib.Bitmap.Range.{AreBytes}
use cyan_oskernel.Stdlib.Bitmap.{range_loop}
use cyan_oskernel.VirtualMemory.Physical.{
  PhysicalMemory, page_size, set_used_pages, find_pages, alloc_contagious_pages,
}
use cyan_oskernel.VirtualMemory.Physical.Search.{Searched, find_pages-Searched}
use cyan_oskernel.VirtualMemory.Physical.Alloc.{
  IsValid, Allocated, alloc_contagious_pages-Allocated,
}

-- Three bytes of pages; the first eight pages and two others are used.
abbrev memory : PhysicalMemory
memory = record { tracer = 0xFF ∷ 0x12 ∷ 0 ∷ []; physical_memory_size = 0xA000 }

memory_bytes : AreBytes memory.tracer
memory_bytes zero = omega arith
memory_bytes (suc zero) = omega arith
memory_bytes (suc (suc zero)) = omega arith
memory_bytes (suc (suc (suc i))) = omega arith

memory-IsValid : IsValid memory
memory-IsValid = record { bytes = memory_bytes; pages = omega arith }

-- The memory after an allocation that succeeds.
abbrev after_alloc : PhysicalMemory
after_alloc = record { tracer = 0xFF ∷ 0xF2 ∷ 1 ∷ []; physical_memory_size = 0xE000 }

find_pages-Searched_example : Searched memory.tracer 4 (8 * (3 / 8)) (find_pages memory 3 4)
find_pages-Searched_example =
    find_pages-Searched memory 3 4 (omega arith) (omega arith) (omega arith)

alloc_contagious_pages-Allocated_example :
    Allocated memory (8 * (3 / 8)) 4 (alloc_contagious_pages memory 3 4)
alloc_contagious_pages-Allocated_example =
    alloc_contagious_pages-Allocated memory memory-IsValid 3 (omega arith) 4 (omega arith)
      (omega arith)

allocated_four : alloc_contagious_pages memory 3 4 ≡ some (13 * page_size, after_alloc)
unfolding alloc_contagious_pages find_pages set_used_pages range_loop check_bit set_bit
allocated_four = refl
