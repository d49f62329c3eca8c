-- ===== src/Filesystem/HandlesManager/Alive.antt =====
-- A handle that is in use leads to a description that is there.
use cyan_oskernel.Prelude.{
  ℕ, ◌≡◌, ◌≢◌, refl, sym, ap, ◌∙◌, true, false, some, List, [], arith, ◌==◌, length, get_elem?,
  get_elem?_inside,
}
use native.Mathlib.Decide.{dec_lt}
use cyan_oskernel.Stdlib.Links.{mem}
use cyan_oskernel.Filesystem.HandlesManager.{
  HandleType, invalid, file_description, process_description, same_type, HandleEntry,
  HandlesManager, construct, get_file_description, get_process_description, check_handle,
}

-- The list that owns the descriptions of a type; none does for the invalid one.
abbrev pub owners : HandleType → HandlesManager → List ℕ
owners invalid m = []
owners file_description m = m.file_description_table
owners process_description m = m.process_description_table

-- No entry has the null pointer, the description of a handle in use is owned, and two handles in
-- use of one type have different ones.
pub record IsValid (m : HandlesManager) : Type 0 where
  pub there : (h : ℕ) (e : HandleEntry) → get_elem? m.handle_table h ≡ some e → e.description ≢ 0
  pub owned :
      (h : ℕ) (e : HandleEntry)
      → get_elem? m.handle_table h ≡ some e
      → same_type e.type invalid ≡ false
      → mem e.description (owners e.type m) ≡ true
  pub apart :
      (h g : ℕ) (e f : HandleEntry)
      → get_elem? m.handle_table h ≡ some e
      → get_elem? m.handle_table g ≡ some f
      → same_type e.type invalid ≡ false
      → same_type e.type f.type ≡ true
      → e.description ≡ f.description
      → h ≡ g

-- The new table is valid.
pub construct-IsValid : IsValid construct
unfolding construct
construct-IsValid = record {
  there = λ h e at. ground arith;
  owned = λ h e at use_. ground arith;
  apart = λ h g e f at. ground arith;
}

-- `check_handle` of a handle is the type of its entry.
check_handle-entry :
    (m : HandlesManager) (h : ℕ) (ty : HandleType)
    → same_type ty invalid ≡ false
    → check_handle h m ≡ some ty
    → (e : HandleEntry) × (get_elem? m.handle_table h ≡ some e) × (e.type ≡ ty)
unfolding check_handle
check_handle-entry m h ty in_use checked = elim (dec_lt h (length m.handle_table)) [
  | yes lt ↦
      let (e, at) = get_elem?_inside m.handle_table h lt in (e, at, ground (arith, checked, at))
  | no ge ↦ ground (arith, checked, in_use)
]

-- In a valid table, a handle of which `check_handle` says that it is a file's gives its description,
-- which the table owns.
pub get_file_description-Owned :
    (m : HandlesManager) (h : ℕ)
    → IsValid m
    → check_handle h m ≡ some file_description
    → (p : ℕ) × (get_file_description h m ≡ some p) × (mem p m.file_description_table ≡ true)
unfolding get_file_description
get_file_description-Owned m h v checked =
    let (e, at, is_file) = check_handle-entry m h file_description refl checked in
    let not_null : (e.description == 0) ≡ false = ground (arith, v.there h e at) in
    (
      e.description,
      rw (at, get_file_description) (rw not_null (rw is_file refl)),
      ap (λ (ty : HandleType). mem e.description (owners ty m)) (sym is_file)
          ∙ v.owned h e at (ap (λ (ty : HandleType). same_type ty invalid) is_file),
    )

-- The same of a handle of a process.
pub get_process_description-Owned :
    (m : HandlesManager) (h : ℕ)
    → IsValid m
    → check_handle h m ≡ some process_description
    → (p : ℕ) × (get_process_description h m ≡ some p) × (mem p m.process_description_table ≡ true)
unfolding get_process_description
get_process_description-Owned m h v checked =
    let (e, at, is_process) = check_handle-entry m h process_description refl checked in
    let not_null : (e.description == 0) ≡ false = ground (arith, v.there h e at) in
    (
      e.description,
      rw (at, get_process_description) (rw not_null (rw is_process refl)),
      ap (λ (ty : HandleType). mem e.description (owners ty m)) (sym is_process)
          ∙ v.owned h e at (ap (λ (ty : HandleType). same_type ty invalid) is_process),
    )
