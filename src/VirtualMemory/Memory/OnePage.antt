-- ===== src/VirtualMemory/Memory/OnePage.antt =====
-- What taking one page does to both memories.
use cyan_oskernel.Prelude.{
  ℕ, suc, ◌+◌, ◌*◌, ◌/◌, ◌%◌, ◌^◌, ◌≤◌, ◌<◌, ◌≡◌, inl, inr, refl, sym, ap, subst, ◌∙◌, true, false,
  Option, none, some, arith, ◌==◌, if◌then◌else◌, length, check_bit, Bool-cases, ◌>>=◌,
}
use cyan_oskernel.VirtualMemory.Physical
use cyan_oskernel.VirtualMemory.Physical.{PhysicalMemory}
use cyan_oskernel.VirtualMemory.Physical.Alloc
use cyan_oskernel.VirtualMemory.Physical.Alloc.{
  is_used, Marked, Allocated, allocated, exhausted, alloc_page-Allocated, free_pages-Marked,
}
use cyan_oskernel.VirtualMemory.Paging.{Tables, get_frame, get_pde_index, map_page}
use cyan_oskernel.VirtualMemory.Paging.Mapped.{
  IsValid, translate, map_page-IsValid, map_page-directory, check_page_table_exists-present,
}
use cyan_oskernel.VirtualMemory.Virtual.Search.{
  is_found, used, Scanned, run, nothing, find_pages-Scanned,
}
use cyan_oskernel.VirtualMemory.Memory.{
  Pages, page_size, first_page_address, kernel_virtual_address, available_pages_start, is_user,
  is_contagious, get_pages, parse_flags, find_region, create_page_table, ensure_table, map_loop,
  map_pages, alloc_loop, choose_address, alloc_at, alloc_no_lock,
}

-- The region of virtual memory that an allocation searches, in pages.
abbrev pub region_start : ℕ → ℕ
region_start flags = if is_user flags then first_page_address else kernel_virtual_address

abbrev pub region_pages : ℕ → ℕ
region_pages flags = if is_user flags then 0xC00FF else 0x3FAFF

-- The state is in order, and the tables of the region are all there.
pub record IsReady (flags : ℕ) (m : Pages) : Type 0 where
  pub physical_valid : Alloc.IsValid m.physical
  pub pages_there : available_pages_start < 8 * length m.physical.tracer
  pub tables_valid : IsValid m.tables
  pub present :
      (va : ℕ)
      → region_start flags ≤ va
      → va < region_start flags + 2 ^ 12 * region_pages flags
      → (m.tables.entries m.tables.cr3 (get_pde_index va)).present ≡ true

-- The physical page `p` was the first free one that may be taken, and the virtual page `v` was not
-- mapped; now `v` leads to the frame that the 16 bits of an argument can name, which is `p` below
-- 2 ^ 16.
pub record Gave (flags : ℕ) (m : Pages) (v p : ℕ) (m' : Pages) : Type 0 where
  pub from : region_start flags ≤ v
  pub to : v < region_start flags + 2 ^ 12 * region_pages flags
  pub was_unmapped : translate v m.tables ≡ none
  pub was_free : is_used m.physical p ≡ false
  pub from_start : available_pages_start ≤ p
  pub least : (q : ℕ) → available_pages_start ≤ q → q < p → is_used m.physical q ≡ true
  pub page : p < 8 * length m.physical.tracer
  pub marked : Marked true p 1 m.physical m'.physical
  pub tables_valid : IsValid m'.tables
  pub directory_kept : (i : ℕ) → m'.tables.entries m'.tables.cr3 i ≡ m.tables.entries m.tables.cr3 i
  pub translates :
      (va : ℕ)
      → va < 2 ^ 32
      → translate va m'.tables
        ≡ (if get_frame v == get_frame va then some (p % 2 ^ 16) else translate va m.tables)

not_found : (r : Option ℕ) → is_found r ≡ false → r ≡ none
not_found none h = refl
not_found (some f) h = ground arith

-- A region ends before the addresses of the recursive entry.
pub region_inside : (flags : ℕ) → region_start flags + 2 ^ 12 * region_pages flags < 0xFFC00000
region_inside flags = ground arith

find_region-Scanned :
    (flags n : ℕ) (t : Tables)
    → IsValid t
    → 1 ≤ n
    → n < 2 ^ 32
    → Scanned t (region_start flags) (region_pages flags) n (find_region flags n t)
unfolding find_region
find_region-Scanned flags n t v pos small = elim (Bool-cases (is_user flags)) [
  | inl user ↦ rw user (find_pages-Scanned t v first_page_address 0xC00FF n pos small (omega arith))
  | inr kernel ↦
      rw kernel (find_pages-Scanned t v kernel_virtual_address 0x3FAFF n pos small (omega arith))
]

parse_flags-present : (flags : ℕ) → check_bit (parse_flags flags) 0 ≡ true
unfolding parse_flags check_bit
parse_flags-present flags = elim (Bool-cases (check_bit flags 1)) [
  | inl writable ↦ elim (Bool-cases (check_bit flags 0)) [
    | inl user ↦ rw (writable, parse_flags) (rw user refl)
    | inr kernel ↦ rw (writable, parse_flags) (rw kernel refl)
  ]
  | inr readonly ↦ elim (Bool-cases (check_bit flags 0)) [
    | inl user ↦ rw (readonly, parse_flags) (rw user refl)
    | inr kernel ↦ rw (readonly, parse_flags) (rw kernel refl)
  ]
]

-- With its table there, a page is mapped without another allocation.
map_pages-one :
    (create : Pages → Option (ℕ × Pages)) (va pa flags : ℕ) (m : Pages) (t' : Tables)
    → IsValid m.tables
    → va < 2 ^ 32
    → pa < 2 ^ 32
    → (m.tables.entries m.tables.cr3 (get_pde_index va)).present ≡ true
    → map_page va pa flags m.tables ≡ some t'
    → map_pages create va pa 1 flags m ≡ some (record m { tables = t' })
unfolding map_pages map_loop ensure_table
map_pages-one create va pa flags m t' valid lv lp there mapped =
    let exists = check_page_table_exists-present m.tables valid va lv in
    let v0 : (va + page_size * 0) % 2 ^ 32 ≡ va = omega arith in
    let p0 : (pa + page_size * 0) % 2 ^ 32 ≡ pa = omega arith in
    rw (exists, map_pages, map_loop, ensure_table) (rw there (rw v0 (rw p0 (rw mapped refl))))

-- The result of a request for one page, at an address that the kernel chooses: a page of each memory,
-- or a PANIC where one of the searches fails.
pub data Outcome (flags : ℕ) (m : Pages) : Option (ℕ × Pages) → Type 0 where
  gave : (v p : ℕ) (m' : Pages) → Gave flags m v p m' → Outcome flags m (some (v, m'))
  no_virtual :
      ((k : ℕ) → k < region_pages flags → used m.tables (region_start flags) k ≡ true)
      → Outcome flags m none
  no_physical :
      ((p : ℕ)
        → available_pages_start ≤ p
        → p < 8 * length m.physical.tracer
        → is_used m.physical p ≡ true)
      → Outcome flags m none

module _ (flags size fuel : ℕ) (m : Pages) (ready : IsReady flags m)
    (one_page : get_pages size ≡ 1) where
  -- The rest of the allocation, once its virtual page is found.
  abbrev create : Pages → Option (ℕ × Pages)
  create = create_page_table (alloc_no_lock fuel)

  give :
      (v : ℕ)
      → region_start flags ≤ v
      → v < region_start flags + 2 ^ 12 * region_pages flags
      → translate v m.tables ≡ none
      → (r : Option (ℕ × PhysicalMemory)) → Physical.alloc_page m.physical available_pages_start ≡ r
      → Allocated m.physical (8 * (available_pages_start / 8)) 1 r
      → (o : Option (ℕ × Pages)) × ((alloc_loop create 1 0 v flags m >>= λ m'. some (v, m')) ≡ o)
        × Outcome flags m o
  unfolding alloc_loop
  give v from to unmapped _ e (exhausted none_free) = (
    none,
    rw (e, alloc_loop) refl,
    no_physical λ p lo hi. elim (Bool-cases (is_used m.physical p)) [
      | inl taken ↦ taken
      | inr free ↦ absurd (
          none_free p lo (omega arith) λ j from_p to_p.
            let same : j ≡ p = omega arith in ap (λ (k : ℕ). is_used m.physical k) same ∙ free)
    ],
  )
  give v from to unmapped _ e (allocated p physical first marked) =
      let low : v < 2 ^ 32 = omega (arith, region_inside flags) in
      let page : p < 2 ^ 20 = omega (arith, first.inside, ready.physical_valid.pages) in
      let (t', ran, valid, translates) =
        map_page-IsValid m.tables ready.tables_valid v low (ready.present v from to)
          (omega (arith, region_inside flags)) (p * 0x1000) (parse_flags flags) in
      let v0 : (v + page_size * 0) % 2 ^ 32 ≡ v = omega arith in
      let m₁ : Pages = record m { physical = physical } in
      let mapped =
        map_pages-one create v (p * 0x1000) (parse_flags flags) m₁ t' ready.tables_valid low
          (omega arith) (ready.present v from to) ran in
      (
        some (v, record { physical = physical; tables = t' }),
        rw (e, alloc_loop) (rw v0 (rw mapped refl)),
        gave v p (record { physical = physical; tables = t' })
            (record {
              from = from;
              to = to;
              was_unmapped = unmapped;
              was_free = first.free p (omega arith) (omega arith);
              from_start = omega (arith, first.from);
              least = λ q lo below. elim (Bool-cases (is_used m.physical q)) [
                | inl taken ↦ taken
                | inr free ↦
                    let up = first.least q (omega arith) λ j from_q to_q.
                      let same : j ≡ q = omega arith in
                      ap (λ (k : ℕ). is_used m.physical k) same ∙ free in
                    absurd (omega arith)
              ];
              page = omega (arith, first.inside);
              marked = marked;
              tables_valid = valid;
              directory_kept =
                  map_page-directory m.tables ready.tables_valid v low (ready.present v from to)
                    (omega (arith, region_inside flags)) (p * 0x1000) (parse_flags flags) t' ran;
              translates = λ va l.
                  translates va l
                  ∙ rw (parse_flags-present flags) (
                      ap
                        (λ (x : ℕ).
                          if get_frame v == get_frame va
                          then some (x % 2 ^ 16)
                          else translate va m.tables)
                        (omega arith));
            }),
      )

  module _ (scattered : is_contagious flags ≡ false) where
    alloc_at-scattered :
        (v : ℕ)
        → alloc_at (alloc_no_lock fuel) v 1 flags m
          ≡ (alloc_loop create 1 0 v flags m >>= λ m'. some (v, m'))
    unfolding alloc_at
    alloc_at-scattered v = rw (scattered, alloc_at) refl

    alloc_no_lock-searched :
        (r : Option ℕ)
        → find_region flags 1 m.tables ≡ r
        → alloc_no_lock (suc fuel) 0 size flags m
          ≡ (r >>= λ v. alloc_loop create 1 0 v flags m >>= λ m'. some (v, m'))
    unfolding alloc_no_lock choose_address
    alloc_no_lock-searched none e = rw (one_page, alloc_no_lock) (rw (e, choose_address) refl)
    alloc_no_lock-searched (some v) e =
        rw (one_page, alloc_no_lock)
          (rw (e, choose_address)
            (ap (λ (n : ℕ). alloc_at (alloc_no_lock fuel) v n flags m) one_page
              ∙ alloc_at-scattered v))

    searched-Outcome :
        (r : Option ℕ)
        → Scanned m.tables (region_start flags) (region_pages flags) 1 r
        → (o : Option (ℕ × Pages)) × ((r >>= λ v.
              alloc_loop create 1 0 v flags m >>= λ m'. some (v, m'))
            ≡ o)
          × Outcome flags m o
    searched-Outcome _ (nothing full) = (
      none,
      refl,
      no_virtual λ k lt.
          let (j, small, taken) = full k (omega arith) in
          let same : k ≡ k + j = omega arith in
          ap (λ (x : ℕ). used m.tables (region_start flags) x) same ∙ taken,
    )
    searched-Outcome _ (run s fits free before) =
        let v = region_start flags + 2 ^ 12 * s in
        let first : s ≡ s + 0 = omega arith in
        let unmapped =
          not_found (translate v m.tables)
            (ap (λ (x : ℕ). used m.tables (region_start flags) x) first ∙ free 0 (omega arith)) in
        give v (omega arith) (omega arith) unmapped
          (Physical.alloc_page m.physical available_pages_start) refl
          (alloc_page-Allocated m.physical ready.physical_valid available_pages_start
            ready.pages_there)

    -- A request for one page that is not asked to be contiguous, with the tables of its region
    -- there, ends. Either it takes the first free physical page from 0x100 on and a page of the
    -- region that was not mapped, which is then mapped to the frame of that number modulo 2 ^ 16,
    -- with every other page of both memories as it was; or it comes to a PANIC, where every page of
    -- the region is mapped or every physical page from 0x100 on is used.
    pub alloc_no_lock-Outcome : Outcome flags m (alloc_no_lock (suc fuel) 0 size flags m)
    alloc_no_lock-Outcome =
        let (o, ran, out) =
          searched-Outcome (find_region flags 1 m.tables)
            (find_region-Scanned flags 1 m.tables ready.tables_valid (omega arith) (omega arith)) in
        subst (Outcome flags m)
          (sym (alloc_no_lock-searched (find_region flags 1 m.tables) refl ∙ ran)) out
