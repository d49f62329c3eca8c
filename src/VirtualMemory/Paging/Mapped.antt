-- ===== src/VirtualMemory/Paging/Mapped.antt =====
-- What mapping and unmapping a page do to the addresses of every page.
use cyan_oskernel.Prelude.{
  ℕ, ◌%◌, ◌^◌, ◌<◌, ◌≡◌, refl, sym, ap, subst, ◌∙◌, true, false, ◌&&◌, Option, none, some, arith,
  ◌==◌, if◌then◌else◌, Bool-cases, inl, inr, check_bit, ◌>>=◌,
}
use cyan_oskernel.VirtualMemory.Paging.{
  PageEntry, Tables, get_frame, get_pte_index, get_pde_index, walk, put_entry, page_table, page_dir,
  fill_page_table_entry, map_page, unmap_page, check_page_table_exists, check_page_exits_in_table,
  check_page_present, get_physical_page,
}

-- The directory is its own last table, and no two entries of it name one frame.
pub record IsValid (t : Tables) : Type 0 where
  pub recursive_present : (t.entries t.cr3 1023).present ≡ true
  pub recursive_frame : (t.entries t.cr3 1023).frame ≡ t.cr3
  pub apart :
      (i j : ℕ)
      → i < 1024
      → j < 1024
      → (t.entries t.cr3 i).present ≡ true
      → (t.entries t.cr3 j).present ≡ true
      → (t.entries t.cr3 i).frame ≡ (t.entries t.cr3 j).frame
      → i ≡ j

-- The frame that the processor finds for an address.
abbrev pub translate : ℕ → Tables → Option ℕ
translate virtual_address t = walk (get_pde_index virtual_address) (get_pte_index virtual_address) t

same_page :
    (a b : ℕ)
    → (get_frame a == get_frame b)
      ≡ (get_pde_index a == get_pde_index b && get_pte_index a == get_pte_index b)
same_page a b = ground arith

module _ (t : Tables) (v : IsValid t) (va : ℕ) (low : va < 2 ^ 32) where
  page_table-eq :
      (t.entries t.cr3 (get_pde_index va)).present ≡ true
      → page_table va t ≡ some (t.entries t.cr3 (get_pde_index va)).frame
  unfolding walk
  page_table-eq there = ground (arith, v.recursive_present, v.recursive_frame)

  page_dir-eq : page_dir t ≡ some t.cr3
  unfolding walk
  page_dir-eq = ground (arith, v.recursive_present, v.recursive_frame)

  -- `check_page_table_exists` reads the directory's entry of the address.
  pub check_page_table_exists-present :
      check_page_table_exists va t ≡ some (t.entries t.cr3 (get_pde_index va)).present
  unfolding check_page_table_exists walk
  check_page_table_exists-present = ground (arith, v.recursive_present, v.recursive_frame)

  -- `get_physical_page` is the frame that the processor finds, where it finds one.
  pub get_physical_page-translate :
      (f : ℕ) → translate va t ≡ some f → get_physical_page va t ≡ some f
  unfolding get_physical_page walk
  get_physical_page-translate f found =
      let there : (t.entries t.cr3 (get_pde_index va)).present ≡ true = ground (arith, found) in
      ground (arith, there, found, page_table-eq there)

  -- `check_page_present` says whether the processor finds a frame for the address.
  pub check_page_present-translate :
      check_page_present va t ≡ some (elim (translate va t) [ none ↦ false | some _ ↦ true ])
  unfolding check_page_present check_page_table_exists check_page_exits_in_table walk
  check_page_present-translate = elim (Bool-cases (t.entries t.cr3 (get_pde_index va)).present) [
    | inl there ↦
        ap
          (λ d. (d >>= λ f. some (t.entries f (get_pde_index va)).present) >>= λ b.
            if b then check_page_exits_in_table va t else some false)
          page_dir-eq
        ∙ ground (arith, there, page_table-eq there)
    | inr gone ↦
        ap
          (λ d. (d >>= λ f. some (t.entries f (get_pde_index va)).present) >>= λ b.
            if b then check_page_exits_in_table va t else some false)
          page_dir-eq
        ∙ ground (arith, gone)
  ]

  module _ (there : (t.entries t.cr3 (get_pde_index va)).present ≡ true)
      (user_part : get_pde_index va < 1023) (e : PageEntry) where
    abbrev written : Tables
    written = put_entry (t.entries t.cr3 (get_pde_index va)).frame (get_pte_index va) e t

    not_cr3 : ((t.entries t.cr3 (get_pde_index va)).frame == t.cr3) ≡ false
    not_cr3 = elim (Bool-cases ((t.entries t.cr3 (get_pde_index va)).frame == t.cr3)) [
      | inl same ↦ absurd (
          omega (
            arith,
            v.apart (get_pde_index va) 1023 (omega arith) (omega arith) there v.recursive_present
                (ground (arith, v.recursive_frame)),
          ))
      | inr distinct ↦ distinct
    ]

    other : (i : ℕ) → written.entries t.cr3 i ≡ t.entries t.cr3 i
    other i = rw not_cr3 refl

    written-IsValid : IsValid written
    written-IsValid = record {
      recursive_present = ap (λ (x : PageEntry). x.present) (other 1023) ∙ v.recursive_present;
      recursive_frame = ap (λ (x : PageEntry). x.frame) (other 1023) ∙ v.recursive_frame;
      apart = λ i j si sj pi pj same.
          v.apart i j si sj (ap (λ (x : PageEntry). x.present) (sym (other i)) ∙ pi)
            (ap (λ (x : PageEntry). x.present) (sym (other j)) ∙ pj)
            (ap (λ (x : PageEntry). x.frame) (sym (other i))
              ∙ same
              ∙ ap (λ (x : PageEntry). x.frame) (other j));
    }

    -- Two tables of the directory are one exactly where the addresses have one index in it.
    same_table :
        (va' : ℕ)
        → va' < 2 ^ 32
        → (t.entries t.cr3 (get_pde_index va')).present ≡ true
        → ((t.entries t.cr3 (get_pde_index va)).frame
            == (t.entries t.cr3 (get_pde_index va')).frame)
          ≡ (get_pde_index va == get_pde_index va')
    same_table va' low' here = elim (Bool-cases (get_pde_index va == get_pde_index va')) [
      | inl same ↦
          let one : get_pde_index va ≡ get_pde_index va' = ground arith in
          ground (arith, ap (λ (i : ℕ). (t.entries t.cr3 i).frame) one)
      | inr differ ↦
          elim (Bool-cases (
            (t.entries t.cr3 (get_pde_index va)).frame
            == (t.entries t.cr3 (get_pde_index va')).frame)) [
              | inl shared ↦
                  let one =
                    v.apart (get_pde_index va) (get_pde_index va') (omega arith) (omega arith) there
                      here (ground arith) in
                  absurd (ground (arith, one))
              | inr separate ↦ ground (arith, separate, differ)
            ]
    ]

    written-translate :
        (va' : ℕ)
        → va' < 2 ^ 32
        → translate va' written ≡ (
            if get_frame va == get_frame va'
            then (if e.present then some e.frame else none)
            else translate va' t)
    unfolding walk
    written-translate va' low' = elim (Bool-cases (t.entries t.cr3 (get_pde_index va')).present) [
      | inl here ↦
          ground (arith, other (get_pde_index va'), same_page va va', same_table va' low' here)
      | inr gone ↦ ground (arith, other (get_pde_index va'), same_page va va')
    ]

  module _ (there : (t.entries t.cr3 (get_pde_index va)).present ≡ true)
      (user_part : get_pde_index va < 1023) where
    -- In valid tables, where the table of an address below the recursive entry is present, mapping
    -- its page causes no page fault and keeps the tables valid. The processor then finds, for each
    -- address of the page, the frame whose number is that of the physical page modulo 2 ^ 16 (or no
    -- frame, if the flags are without the bit of a present page), and for every other address what
    -- it found before.
    pub map_page-IsValid :
        (physical_address flags : ℕ)
        → (t' : Tables) × (map_page va physical_address flags t ≡ some t')
          × IsValid t'
          × ((va' : ℕ)
              → va' < 2 ^ 32
              → translate va' t' ≡ (
                  if get_frame va == get_frame va'
                  then (if check_bit flags 0
                      then some (get_frame physical_address % 2 ^ 16)
                      else none)
                  else translate va' t))
    unfolding map_page fill_page_table_entry
    map_page-IsValid physical_address flags =
        let old = t.entries (t.entries t.cr3 (get_pde_index va)).frame (get_pte_index va) in
        let e = fill_page_table_entry old (get_frame physical_address) flags in
        (
          written there user_part e,
          ap
              (λ d. d >>= λ f. some (
                put_entry f (get_pte_index va)
                  (fill_page_table_entry (t.entries f (get_pte_index va))
                    (get_frame physical_address) flags)
                  t))
              (page_table-eq there),
          written-IsValid there user_part e,
          written-translate there user_part e,
        )

    -- Mapping a page below the recursive entry leaves the directory as it is.
    pub map_page-directory :
        (physical_address flags : ℕ) (t' : Tables)
        → map_page va physical_address flags t ≡ some t'
        → (i : ℕ) → t'.entries t'.cr3 i ≡ t.entries t.cr3 i
    unfolding map_page fill_page_table_entry
    map_page-directory physical_address flags t' ran i =
        let old = t.entries (t.entries t.cr3 (get_pde_index va)).frame (get_pte_index va) in
        let e = fill_page_table_entry old (get_frame physical_address) flags in
        let wrote : map_page va physical_address flags t ≡ some (written there user_part e) =
          ap
            (λ d. d >>= λ f. some (
              put_entry f (get_pte_index va)
                (fill_page_table_entry (t.entries f (get_pte_index va)) (get_frame physical_address)
                  flags)
                t))
            (page_table-eq there) in
        let same : written there user_part e ≡ t' = cc in
        subst (λ (x : Tables). x.entries x.cr3 i ≡ t.entries t.cr3 i) same
          (other there user_part e i)

    -- Under the same conditions, after unmapping the page the processor finds no frame for its
    -- addresses, and for every other address what it found before.
    pub unmap_page-IsValid :
        (t' : Tables) × (unmap_page va t ≡ some t')
        × IsValid t'
        × ((va' : ℕ)
            → va' < 2 ^ 32
            → translate va' t' ≡ (if get_frame va == get_frame va' then none else translate va' t))
    unfolding unmap_page
    unmap_page-IsValid =
        let e = record (t.entries (t.entries t.cr3 (get_pde_index va)).frame (get_pte_index va)) {
          present = false;
        } in
        (
          written there user_part e,
          ap
              (λ d. d >>= λ f. some (
                put_entry f (get_pte_index va)
                  (record (t.entries f (get_pte_index va)) { present = false }) t))
              (page_table-eq there),
          written-IsValid there user_part e,
          written-translate there user_part e,
        )
