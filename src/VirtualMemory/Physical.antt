-- ===== src/VirtualMemory/Physical.antt =====
-- `kernel/virtual_memory/physical.cpp`: one bit for each physical page, set while the page is used.
-- Numbers are 32 bits wide; `none` is the PANIC of a failed search, or an access outside of the
-- array of bits.
pub mod Search
pub mod Alloc
use cyan_oskernel.Prelude.{
  ℕ, zero, suc, ◌+◌, ◌-◌, ◌*◌, ◌/◌, ◌%◌, ◌^◌, Bool, true, false, not, ◌&&◌, Option, none, some,
  List, ltb, ◌==◌, if◌then◌else◌, length, get_elem?, replicate, check_bit, set_bit, clear_bit,
  ◌>>=◌,
}
use cyan_oskernel.Stdlib.Bitmap.{range_loop}

-- The two static members. `sizeof(physical_memory_tracer)` is the length of the list.
pub record PhysicalMemory : Type 0 where
  pub tracer : List ℕ
  pub physical_memory_size : ℕ

abbrev pub page_size : ℕ
page_size = 0x1000

-- A bit for each of the pages of 4 GB.
unfoldable pub setup : PhysicalMemory
setup = record { tracer = replicate (1024 * 1024 / 8) 0; physical_memory_size = 0 }

-- The loop of `check_free_pages`; `limit` is `page_number + count`.
check_loop : ℕ → ℕ → ℕ → List ℕ → Option Bool
check_loop zero index limit bytes = none
check_loop (suc fuel) index limit bytes = elim (ltb index limit) [
  | false ↦ some true
  | true ↦ elim (get_elem? bytes (index / 8)) [
    | none ↦ none
    | some x ↦ elim (check_bit x (index % 8)) [
      | true ↦ some false
      | false ↦ check_loop fuel ((index + 1) % 2 ^ 32) limit bytes
    ]
  ]
]

pub check_free_pages : PhysicalMemory → ℕ → ℕ → Option Bool
unfolding check_loop
check_free_pages m page_number count =
    check_loop (suc count) page_number ((page_number + count) % 2 ^ 32) m.tracer

pub set_free_pages : PhysicalMemory → ℕ → ℕ → Option PhysicalMemory
set_free_pages m page_number count = do
  bytes ← range_loop clear_bit count page_number m.tracer
  some (record {
    tracer = bytes;
    physical_memory_size = (m.physical_memory_size + 2 ^ 32 - count * page_size % 2 ^ 32) % 2 ^ 32;
  })

unfoldable pub set_used_pages : PhysicalMemory → ℕ → ℕ → Option PhysicalMemory
set_used_pages m page_number count = do
  bytes ← range_loop set_bit count page_number m.tracer
  some (record {
    tracer = bytes;
    physical_memory_size = (m.physical_memory_size + count * page_size) % 2 ^ 32;
  })

-- What the bits of one byte do to a search: it ends, or goes on with `remaining_pages` and
-- `first_free_page`.
pub data Progress : Type 0 where
  done : ℕ → Progress
  going : ℕ → ℕ → Progress

-- The inner loop of `find_pages`, over the bits from `bit` on, with the rounds left.
pub find_bits : (count : ℕ) → ℕ → (bit i x remaining first : ℕ) → Progress
find_bits count zero bit i x remaining first = going remaining first
find_bits count (suc n) bit i x remaining first = elim (check_bit x bit) [
  | false ↦ elim ((remaining + 2 ^ 32 - 1) % 2 ^ 32 == 0) [
    | true ↦ done (if remaining == count then bit + i * 8 else first)
    | false ↦
        find_bits count n (bit + 1) i x ((remaining + 2 ^ 32 - 1) % 2 ^ 32)
          (if remaining == count then bit + i * 8 else first)
  ]
  | true ↦
      find_bits count n (bit + 1) i x (if not (remaining == count) then count else remaining) first
]

-- The outer loop, over the bytes from `i` on, with the rounds left.
pub find_bytes : (bytes : List ℕ) (count : ℕ) → ℕ → (i remaining first : ℕ) → Option ℕ
unfolding find_bits
find_bytes bytes count zero i remaining first = none
find_bytes bytes count (suc n) i remaining first = elim (get_elem? bytes i) [
  | none ↦ none
  | some x ↦ elim ((x == 0xFF) && not (remaining == count)) [
    | true ↦ find_bytes bytes count n (i + 1) count first
    | false ↦ elim (find_bits count 8 0 i x remaining first) [
      | done page ↦ some page
      | going remaining' first' ↦ find_bytes bytes count n (i + 1) remaining' first'
    ]
  ]
]

unfoldable pub find_pages : PhysicalMemory → ℕ → ℕ → Option ℕ
unfolding find_bytes
find_pages m start_page count =
    find_bytes m.tracer count (length m.tracer - start_page / 8) (start_page / 8) count 0

unfoldable pub alloc_contagious_pages : PhysicalMemory → ℕ → ℕ → Option (ℕ × PhysicalMemory)
alloc_contagious_pages m start count = do
  physical_pages ← find_pages m start count
  m' ← set_used_pages m physical_pages count
  some (physical_pages * page_size % 2 ^ 32, m')

unfoldable pub alloc_page : PhysicalMemory → ℕ → Option (ℕ × PhysicalMemory)
alloc_page m start = do
  physical_page ← find_pages m start 1
  m' ← set_used_pages m physical_page 1
  some (physical_page * page_size % 2 ^ 32, m')

pub free_pages : PhysicalMemory → ℕ → ℕ → Option PhysicalMemory
free_pages m page_number count = set_free_pages m page_number count
