-- ===== src/VirtualMemory/Virtual.antt =====
-- `kernel/virtual_memory/virtual.cpp`: the search for virtual pages. `none` is the PANIC of a search
-- that fails, a page fault, or fuel that runs out.
pub mod Search
mod Tests
use cyan_oskernel.Prelude.{
  ℕ, zero, suc, ◌+◌, ◌-◌, ◌*◌, ◌/◌, ◌%◌, ◌^◌, Bool, true, false, Option, none, some, ltb, ◌==◌,
  if◌then◌else◌, ◌>>=◌,
}
use cyan_oskernel.VirtualMemory.Paging.{Tables, check_page_present}

-- The loop of `find_pages`, on fuel.
unfoldable pub find_loop : ℕ → ℕ → ℕ → ℕ → ℕ → ℕ → Tables → Option ℕ
find_loop zero v_add end_address pages_num remaining first t = none
find_loop (suc fuel) v_add end_address pages_num remaining first t = elim (ltb v_add end_address) [
  | false ↦ none
  | true ↦ elim (check_page_present v_add t) [
    | none ↦ none
    | some true ↦ find_loop fuel ((v_add + 2 ^ 12) % 2 ^ 32) end_address pages_num pages_num first t
    | some false ↦
        let first' = if remaining == pages_num then v_add else first in
        let remaining' = (remaining + (2 ^ 32 - 1)) % 2 ^ 32 in
        elim (remaining' == 0) [
          | true ↦ some first'
          | false ↦
              find_loop fuel ((v_add + 2 ^ 12) % 2 ^ 32) end_address pages_num remaining' first' t
        ]
  ]
]

unfoldable pub find_pages : ℕ → ℕ → ℕ → Tables → Option ℕ
unfolding find_loop
find_pages start_address end_address pages_num t =
    find_loop (suc ((end_address - start_address) / 2 ^ 12 + 1)) start_address end_address pages_num
      pages_num 0 t

-- The loop of `check_free_pages`, with the pages left and the index.
unfoldable pub check_loop : ℕ → ℕ → ℕ → Tables → Option Bool
check_loop zero i start_address t = some true
check_loop (suc n) i start_address t =
    check_page_present ((start_address + i * 2 ^ 12) % 2 ^ 32) t >>= λ b. elim b [
      | true ↦ some false
      | false ↦ check_loop n (suc i) start_address t
    ]

unfoldable pub check_free_pages : ℕ → ℕ → Tables → Option Bool
unfolding check_loop
check_free_pages start_address pages_num t = check_loop pages_num 0 start_address t
