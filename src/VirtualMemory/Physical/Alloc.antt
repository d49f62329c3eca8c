-- ===== src/VirtualMemory/Physical/Alloc.antt =====
-- Taking and giving back physical pages.
use cyan_oskernel.Prelude.{
  ℕ, zero, suc, ◌+◌, ◌-◌, ◌*◌, ◌/◌, ◌%◌, ◌^◌, ◌≤◌, ◌<◌, ◌≡◌, inl, inr, refl, ap, subst, ◌∙◌, Bool,
  true, false, Option, none, some, List, arith, ltb, if◌then◌else◌, Bool-cases, length,
  get_elem?-eq-get_or, length-replicate, get_or-replicate, set_bit, clear_bit, check_bit-set_bit,
  check_bit-clear_bit, set_bit-lt, clear_bit-lt, check_bit_empty,
}
use native.Mathlib.Decide.{dec_lt}
use cyan_oskernel.Stdlib.Bitmap.Range.{bit, AreBytes, in_range, Written, range_loop-Written}
use cyan_oskernel.VirtualMemory.Physical.{
  PhysicalMemory, page_size, setup, set_free_pages, set_used_pages, find_pages,
  alloc_contagious_pages, alloc_page, free_pages, check_loop, check_free_pages,
}
use cyan_oskernel.VirtualMemory.Physical.Search.{
  AreFree, FirstFit, Searched, fit, no_fit, find_pages-Searched,
}

-- The array holds bytes, a bit for each page of at most 4 GB.
pub record IsValid (m : PhysicalMemory) : Type 0 where
  pub bytes : AreBytes m.tracer
  pub pages : 8 * length m.tracer ≤ 2 ^ 20

-- Whether a page is used.
abbrev pub is_used : PhysicalMemory → ℕ → Bool
is_used m = bit m.tracer

-- `after` is `m` with the `n` pages from `p` on used or free, as `value` says.
pub record Marked (value : Bool) (p n : ℕ) (m after : PhysicalMemory) : Type 0 where
  pub valid : IsValid after
  pub pages_kept : length after.tracer ≡ length m.tracer
  pub marks : (q : ℕ) → is_used after q ≡ (if in_range p n q then value else is_used m q)

-- At the start every page is free, and none is counted.
pub setup-IsValid :
    IsValid setup × ((q : ℕ) → is_used setup q ≡ false) × (setup.physical_memory_size ≡ 0)
unfolding setup
setup-IsValid = (
  record {
    bytes = λ i. rw (get_or-replicate {A = ℕ} (1024 * 1024 / 8) 0 i) (omega arith);
    pages = omega (arith, length-replicate {A = ℕ} (1024 * 1024 / 8) 0);
  },
  λ q.
      rw (get_or-replicate {A = ℕ} (1024 * 1024 / 8) 0 (q / 8))
        (check_bit_empty (q % 8) (omega arith)),
  refl,
)

module _ (m : PhysicalMemory) (v : IsValid m) (p n : ℕ) (inside : p + n ≤ 8 * length m.tracer) where
  range-Marked :
      (value : Bool) (bytes : List ℕ) (size : ℕ)
      → Written value p n m.tracer bytes
      → Marked value p n m (record { tracer = bytes; physical_memory_size = size })
  range-Marked value bytes size w = record {
    valid = record { bytes = w.bytes; pages = omega (arith, w.length_kept, v.pages) };
    pages_kept = w.length_kept;
    marks = w.bits;
  }

  -- `set_used_pages` marks its pages as used, and counts their bytes.
  pub set_used_pages-Marked :
      (m' : PhysicalMemory) × (set_used_pages m p n ≡ some m')
      × Marked true p n m m'
      × (m'.physical_memory_size ≡ (m.physical_memory_size + n * page_size) % 2 ^ 32)
  unfolding set_used_pages
  set_used_pages-Marked =
      let (bytes, ran, w) =
        range_loop-Written set_bit true check_bit-set_bit set_bit-lt n p m.tracer v.bytes inside
          (omega (arith, v.pages)) in
      (
        record {
          tracer = bytes;
          physical_memory_size = (m.physical_memory_size + n * page_size) % 2 ^ 32;
        },
        rw ran,
        range-Marked true bytes _ w,
        refl,
      )

  -- `free_pages` marks its pages as free, and takes their bytes off the count.
  pub free_pages-Marked :
      (m' : PhysicalMemory) × (free_pages m p n ≡ some m')
      × Marked false p n m m'
      × (m'.physical_memory_size
          ≡ (m.physical_memory_size + 2 ^ 32 - n * page_size % 2 ^ 32) % 2 ^ 32)
  unfolding free_pages set_free_pages
  free_pages-Marked =
      let (bytes, ran, w) =
        range_loop-Written clear_bit false check_bit-clear_bit clear_bit-lt n p m.tracer v.bytes
          inside (omega (arith, v.pages)) in
      (
        record {
          tracer = bytes;
          physical_memory_size =
              (m.physical_memory_size + 2 ^ 32 - n * page_size % 2 ^ 32) % 2 ^ 32;
        },
        rw ran,
        range-Marked false bytes _ w,
        refl,
      )

-- What an allocation of `n` pages, looked for from page `s` on, gives: the pages were free, are
-- now used, and no other page changes; or it panics, since no such run of pages is free.
pub data Allocated (m : PhysicalMemory) (s n : ℕ) : Option (ℕ × PhysicalMemory) → Type 0 where
  allocated :
      (p : ℕ) (m' : PhysicalMemory)
      → FirstFit m.tracer n s p
      → Marked true p n m m'
      → Allocated m s n (some (p * page_size, m'))
  exhausted :
      ((p : ℕ) → s ≤ p → p + n ≤ 8 * length m.tracer → ¬ AreFree m.tracer p n)
      → Allocated m s n none

module _ (m : PhysicalMemory) (v : IsValid m) (start : ℕ)
    (inside : start < 8 * length m.tracer) where
  allocate_from :
      (n : ℕ) (r : Option ℕ)
      → find_pages m start n ≡ r
      → Searched m.tracer n (8 * (start / 8)) r
      → 0 < n
      → Allocated m (8 * (start / 8)) n (alloc_contagious_pages m start n)
  unfolding alloc_contagious_pages
  allocate_from n r e (fit p first) pos =
      let (m', ran, marked, _) = set_used_pages-Marked m v p n first.inside in
      let exact : p * page_size % 2 ^ 32 ≡ p * page_size = omega (arith, v.pages, first.inside) in
      rw (e, ran) (rw exact (allocated p m' first marked))
  allocate_from n r e (no_fit none_free) pos = rw e (exhausted none_free)

  -- An allocation of at least one page and fewer than 2 ^ 32, from a page of a valid array on, takes
  -- the first free run that is long enough and marks it as used, or panics where there is none.
  pub alloc_contagious_pages-Allocated :
      (n : ℕ)
      → 0 < n
      → n < 2 ^ 32
      → Allocated m (8 * (start / 8)) n (alloc_contagious_pages m start n)
  alloc_contagious_pages-Allocated n pos small =
      allocate_from n _ refl (find_pages-Searched m start n pos small inside) pos

  alloc_page-eq : alloc_page m start ≡ alloc_contagious_pages m start 1
  unfolding alloc_page alloc_contagious_pages
  alloc_page-eq = refl

  -- An allocation of one page takes the first free page.
  pub alloc_page-Allocated : Allocated m (8 * (start / 8)) 1 (alloc_page m start)
  alloc_page-Allocated =
      rw alloc_page-eq (alloc_contagious_pages-Allocated 1 (omega arith) (omega arith))

Allocated-some :
    {m : PhysicalMemory} {s n : ℕ} {r : Option (ℕ × PhysicalMemory)} (a : ℕ) (m' : PhysicalMemory)
    → Allocated m s n r
    → r ≡ some (a, m')
    → (p : ℕ) × (a ≡ p * page_size) × FirstFit m.tracer n s p × Marked true p n m m'
Allocated-some {m} {n} a m' (allocated p after first marked) e =
    let same : after ≡ m' = cc in
    (p, ground arith, first, subst (λ (x : PhysicalMemory). Marked true p n m x) same marked)
Allocated-some a m' (exhausted none_free) e = cc

-- Giving back the pages of an allocation that succeeded, in a valid array, makes every page used or free as it was before.
pub free-alloc :
    (m m' : PhysicalMemory) (start n address : ℕ)
    → IsValid m
    → start < 8 * length m.tracer
    → 0 < n
    → n < 2 ^ 32
    → alloc_contagious_pages m start n ≡ some (address, m')
    → (m'' : PhysicalMemory) × (free_pages m' (address / page_size) n ≡ some m'')
      × ((q : ℕ) → is_used m'' q ≡ is_used m q)
free-alloc m m' start n address v inside pos small e =
    let (p, at, first, marked) =
      Allocated-some address m' (alloc_contagious_pages-Allocated m v start inside n pos small) e in
    let page : address / page_size ≡ p = omega arith in
    let (m'', ran, freed, _) =
      free_pages-Marked m' marked.valid p n (omega (arith, marked.pages_kept, first.inside)) in
    (
      m'',
      ap (λ (k : ℕ). free_pages m' k n) page ∙ ran,
      λ q. ground (arith, freed.marks q, marked.marks q, first.free q),
    )

-- What `check_free_pages` says of the `n` pages from `p` on.
pub data Checked (m : PhysicalMemory) (p n : ℕ) : Option Bool → Type 0 where
  all_free : AreFree m.tracer p n → Checked m p n (some true)
  one_used : (q : ℕ) → p ≤ q → q < p + n → is_used m q ≡ true → Checked m p n (some false)

module _ (m : PhysicalMemory) (v : IsValid m) (p n : ℕ) (inside : p + n ≤ 8 * length m.tracer) where
  check_loop-Checked :
      (f i : ℕ)
      → p + n < i + f
      → p ≤ i
      → i ≤ p + n
      → ((j : ℕ) → p ≤ j → j < i → is_used m j ≡ false)
      → Checked m p n (check_loop f i (p + n) m.tracer)
  unfolding check_loop
  check_loop-Checked zero i fuel lo hi before = absurd (omega arith)
  check_loop-Checked (suc f) i fuel lo hi before = elim (dec_lt i (p + n)) [
    | no end ↦
        let test : ltb i (p + n) ≡ false = ground arith in
        rw (test, check_loop) (all_free (λ j l h. before j l (omega arith)))
    | yes lt ↦
        let test : ltb i (p + n) ≡ true = ground arith in
        let next : (i + 1) % 2 ^ 32 ≡ i + 1 = omega (arith, v.pages) in
        rw (test, check_loop)
          (rw (get_elem?-eq-get_or m.tracer (i / 8) 0 (omega arith))
            (elim (Bool-cases (is_used m i)) [
              | inl used ↦ rw used (one_used i lo lt used)
              | inr free ↦ rw free (
                  rw next (
                    check_loop-Checked f (i + 1) (omega arith) (omega arith) (omega arith) λ j l h.
                      elim (dec_lt j i) [
                        | yes lt' ↦ before j l lt'
                        | no ge ↦
                            let same : j ≡ i = omega arith in
                            ap (λ (k : ℕ). is_used m k) same ∙ free
                      ]))
            ]))
  ]

  -- `check_free_pages` answers, and says whether all its pages are free.
  pub check_free_pages-Checked : Checked m p n (check_free_pages m p n)
  unfolding check_free_pages
  check_free_pages-Checked =
      let limit : (p + n) % 2 ^ 32 ≡ p + n = omega (arith, v.pages) in
      rw limit (
        check_loop-Checked (suc n) p (omega arith) (omega arith) (omega arith)
          λ j lo hi. absurd (omega arith))
