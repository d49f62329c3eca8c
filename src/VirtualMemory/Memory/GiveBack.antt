-- ===== src/VirtualMemory/Memory/GiveBack.antt =====
-- Giving a page back.
use native.Mathlib.Decide.{dec_lt}
use cyan_oskernel.Prelude.{
  ℕ, suc, ◌+◌, ◌*◌, ◌%◌, ◌^◌, ◌≤◌, ◌<◌, ◌≡◌, inl, inr, refl, sym, ap, subst, ◌∙◌, true, false,
  Option, none, some, arith, ◌==◌, if◌then◌else◌, Bool-cases,
}
use cyan_oskernel.Stdlib.Bitmap.Range.{in_range, one_bit}
use cyan_oskernel.VirtualMemory.Physical
use cyan_oskernel.VirtualMemory.Physical.{PhysicalMemory}
use cyan_oskernel.VirtualMemory.Physical.Alloc.{is_used, free_pages-Marked}
use cyan_oskernel.VirtualMemory.Paging.{
  PageEntry, Tables, get_frame, get_pde_index, get_pte_index, walk, unmap_pages, unmap_loop,
  unmap_page, get_physical_page,
}
use cyan_oskernel.VirtualMemory.Paging.Mapped.{
  translate, unmap_page-IsValid, get_physical_page-translate,
}
use cyan_oskernel.VirtualMemory.Memory.{
  Pages, available_pages_start, is_contagious, get_pages, alloc_no_lock, free_no_lock,
}
use cyan_oskernel.VirtualMemory.Memory.OnePage.{
  IsReady, Gave, region_inside, Outcome, gave, no_virtual, no_physical, alloc_no_lock-Outcome,
}

-- What both memories say of every page is what they said before.
pub record Restored (m m'' : Pages) : Type 0 where
  pub marks : (q : ℕ) → is_used m''.physical q ≡ is_used m.physical q
  pub translates : (va : ℕ) → va < 2 ^ 32 → translate va m''.tables ≡ translate va m.tables

module _ (flags size v p : ℕ) (m m' : Pages) (ready : IsReady flags m) (g : Gave flags m v p m')
    (one_page : get_pages size ≡ 1) where
  low : v < 2 ^ 32
  low = omega (arith, g.to, region_inside flags)

  there : (m'.tables.entries m'.tables.cr3 (get_pde_index v)).present ≡ true
  there =
      ap (λ (e : PageEntry). e.present) (g.directory_kept (get_pde_index v))
      ∙ ready.present v g.from g.to

  mapped_there : translate v m'.tables ≡ some (p % 2 ^ 16)
  mapped_there = g.translates v low ∙ ground arith

  free_no_lock-runs :
      (p_add : ℕ) (physical : PhysicalMemory) (t : Tables)
      → get_physical_page v m'.tables ≡ some p_add
      → Physical.free_pages m'.physical p_add (get_pages size) ≡ some physical
      → unmap_pages v (get_pages size) m'.tables ≡ some t
      → free_no_lock v size flags m' ≡ some (record { physical = physical; tables = t })
  unfolding free_no_lock
  free_no_lock-runs p_add physical t found freed unmapped =
      rw (found, free_no_lock) (rw freed (rw unmapped refl))

  unmap_pages-one :
      (t : Tables)
      → unmap_page v m'.tables ≡ some t
      → unmap_pages v (get_pages size) m'.tables ≡ some t
  unfolding unmap_pages unmap_loop
  unmap_pages-one t unmapped =
      let v0 : (v + 2 ^ 12 * 0) % 2 ^ 32 ≡ v = omega (arith, low) in
      ap (λ (n : ℕ). unmap_pages v n m'.tables) one_page ∙ rw (v0, unmap_loop) (rw unmapped refl)

  marks_back :
      (q : ℕ) → (if in_range p 1 q then false else is_used m'.physical q) ≡ is_used m.physical q
  marks_back q = elim (Bool-cases (p == q)) [
    | inl same ↦
        let e : p ≡ q = ground arith in
        one_bit p q false (is_used m'.physical q)
        ∙ rw same (sym g.was_free ∙ ap (λ (k : ℕ). is_used m.physical k) e)
    | inr other ↦
        one_bit p q false (is_used m'.physical q)
        ∙ rw other (g.marked.marks q ∙ one_bit p q true (is_used m.physical q) ∙ rw other refl)
  ]

  same_translation :
      (va : ℕ) → get_frame v ≡ get_frame va → translate v m.tables ≡ translate va m.tables
  same_translation va e =
      let dir : get_pde_index v ≡ get_pde_index va = omega arith in
      let page : get_pte_index v ≡ get_pte_index va = omega arith in
      ap (λ (i : ℕ). walk i (get_pte_index v) m.tables) dir
      ∙ ap (λ (i : ℕ). walk (get_pde_index va) i m.tables) page

  translates_back :
      (va : ℕ)
      → va < 2 ^ 32
      → (if get_frame v == get_frame va then none else translate va m'.tables)
        ≡ translate va m.tables
  translates_back va l = elim (Bool-cases (get_frame v == get_frame va)) [
    | inl same ↦ rw same (sym g.was_unmapped ∙ same_translation va (ground arith))
    | inr other ↦ rw other (g.translates va l ∙ rw other refl)
  ]

  -- A page whose frame has a number below 2 ^ 16, the most that an entry of a table holds, is given
  -- back.
  free_no_lock-restores :
      p < 2 ^ 16 → (m'' : Pages) × (free_no_lock v size flags m' ≡ some m'') × Restored m m''
  free_no_lock-restores fits =
      let (t, unmapped, valid, translates) =
        unmap_page-IsValid m'.tables g.tables_valid v low there
          (omega (arith, g.to, region_inside flags)) in
      let (physical, freed, marked, size_left) =
        free_pages-Marked m'.physical g.marked.valid p 1
          (omega (arith, g.page, g.marked.pages_kept)) in
      let found =
        get_physical_page-translate m'.tables g.tables_valid v low (p % 2 ^ 16) mapped_there in
      let frame : p % 2 ^ 16 ≡ p = omega arith in
      (
        record { physical = physical; tables = t },
        free_no_lock-runs p physical t (found ∙ ap some frame)
            (ap (λ (n : ℕ). Physical.free_pages m'.physical p n) one_page ∙ freed)
            (unmap_pages-one t unmapped),
        record {
          marks = λ q. marked.marks q ∙ marks_back q;
          translates = λ va l. translates va l ∙ translates_back va l;
        },
      )

-- With a free page below 2 ^ 16, the page that is taken is below it too.
low_page :
    {flags v p : ℕ} {m m' : Pages}
    → Gave flags m v p m'
    → (q : ℕ) → available_pages_start ≤ q
    → q < 2 ^ 16
    → is_used m.physical q ≡ false
    → p < 2 ^ 16
low_page {p = p} g q from low free = elim (dec_lt q p) [
  | yes below ↦ absurd (ground (arith, g.least q from below))
  | no up ↦ omega arith
]

Outcome-Restored :
    (flags size v q : ℕ) (m m' : Pages) (r : Option (ℕ × Pages))
    → IsReady flags m
    → get_pages size ≡ 1
    → available_pages_start ≤ q
    → q < 2 ^ 16
    → is_used m.physical q ≡ false
    → Outcome flags m r
    → r ≡ some (v, m')
    → (m'' : Pages) × (free_no_lock v size flags m' ≡ some m'') × Restored m m''
Outcome-Restored flags size v q m m' _ ready one_page from low free (gave w p after g) e =
    let at : w ≡ v = cc in
    let state : after ≡ m' = cc in
    subst (λ (x : ℕ). (m'' : Pages) × (free_no_lock x size flags m' ≡ some m'') × Restored m m'') at
      (subst
        (λ (x : Pages). (m'' : Pages) × (free_no_lock w size flags x ≡ some m'') × Restored m m'')
        state
        (free_no_lock-restores flags size w p m after ready g one_page
          (low_page g q from low free)))
Outcome-Restored flags size v q m m' _ ready one_page from low free (no_virtual full) e = cc
Outcome-Restored flags size v q m m' _ ready one_page from low free (no_physical full) e = cc

-- Where a physical page from 0x100 on and below 2 ^ 16 was free, the page that an allocation took is
-- given back: what both memories say of every page is then what it was before the allocation.
pub free_no_lock-alloc_no_lock :
    (flags size fuel v q : ℕ) (m m' : Pages)
    → IsReady flags m
    → get_pages size ≡ 1
    → is_contagious flags ≡ false
    → available_pages_start ≤ q
    → q < 2 ^ 16
    → is_used m.physical q ≡ false
    → alloc_no_lock (suc fuel) 0 size flags m ≡ some (v, m')
    → (m'' : Pages) × (free_no_lock v size flags m' ≡ some m'') × Restored m m''
free_no_lock-alloc_no_lock flags size fuel v q m m' ready one_page scattered from low free e =
    Outcome-Restored flags size v q m m' (alloc_no_lock (suc fuel) 0 size flags m) ready one_page
      from low free (alloc_no_lock-Outcome flags size fuel m ready one_page scattered) e
