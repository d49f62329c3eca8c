-- ===== src/Filesystem/HandlesManager/Remove.antt =====
-- Removing a handle destroys its description, and leaves the other handles as they are.
use cyan_oskernel.Prelude.{
  ℕ, ◌<◌, ◌≡◌, ◌≢◌, ◌⊎◌, inl, inr, refl, sym, ap, ◌∙◌, false, some, List, arith, ◌==◌,
  if◌then◌else◌, Bool-cases, length, get_elem?, set, get_elem?-set, get_elem?-beyond,
}
use native.Mathlib.Decide.{dec_lt}
use cyan_oskernel.Stdlib.Links.{mem}
use cyan_oskernel.Filesystem.HandlesManager.{
  HandleType, invalid, file_description, process_description, same_type, HandleEntry,
  HandlesManager, remove_if, remove_description, remove_handle,
}
use cyan_oskernel.Filesystem.HandlesManager.Alive.{IsValid, owners}
use cyan_oskernel.Filesystem.HandlesManager.Change.{mem-remove_if, mem-removed, same_type-eq}

owners_table :
    (ty : HandleType) (m : HandlesManager) (table : List HandleEntry)
    → owners ty (record m { handle_table = table }) ≡ owners ty m
owners_table invalid m table = refl
owners_table file_description m table = refl
owners_table process_description m table = refl

-- The description `d` of type `ty` is destroyed; the table of handles and the others stay.
record Destroyed (ty : HandleType) (d : ℕ) (m after : HandlesManager) : Type 0 where
  table : after.handle_table ≡ m.handle_table
  gone : mem d (owners ty after) ≡ false
  others :
      (ty' : HandleType) (q : ℕ)
      → (same_type ty' ty ≡ false) ⊎ (q ≢ d)
      → mem q (owners ty' after) ≡ mem q (owners ty' m)

remove_description-Destroyed :
    (ty : HandleType) (d : ℕ) (m : HandlesManager)
    → same_type ty invalid ≡ false
    → (after : HandlesManager) × (remove_description (record { type = ty; description = d }) m
        ≡ some after)
      × Destroyed ty d m after
unfolding remove_description
remove_description-Destroyed invalid d m use_ = ground (arith, use_)
remove_description-Destroyed file_description d m use_ = (
  record m { file_description_table = remove_if d m.file_description_table },
  refl,
  record { table = refl; gone = mem-removed d m.file_description_table; others = others },
)
  where
    others :
        (ty' : HandleType) (q : ℕ)
        → (same_type ty' file_description ≡ false) ⊎ (q ≢ d)
        → mem q (
            owners ty' (record m { file_description_table = remove_if d m.file_description_table }))
          ≡ mem q (owners ty' m)
    others invalid q other = refl
    others file_description q (inl differ) = ground (arith, differ)
    others file_description q (inr ne) = mem-remove_if q d m.file_description_table ne
    others process_description q other = refl
remove_description-Destroyed process_description d m use_ = (
  record m { process_description_table = remove_if d m.process_description_table },
  refl,
  record { table = refl; gone = mem-removed d m.process_description_table; others = others },
)
  where
    others :
        (ty' : HandleType) (q : ℕ)
        → (same_type ty' process_description ≡ false) ⊎ (q ≢ d)
        → mem q (
            owners ty'
              (record m { process_description_table = remove_if d m.process_description_table }))
          ≡ mem q (owners ty' m)
    others invalid q other = refl
    others file_description q other = refl
    others process_description q (inl differ) = ground (arith, differ)
    others process_description q (inr ne) = mem-remove_if q d m.process_description_table ne

-- What removing the handle `h`, whose entry is `e`, leaves.
pub record Removed (h : ℕ) (e : HandleEntry) (m after : HandlesManager) : Type 0 where
  pub valid : IsValid after
  pub marked :
      get_elem? after.handle_table h ≡ some (record { type = invalid; description = e.description })
  pub destroyed : mem e.description (owners e.type after) ≡ false
  pub others : (g : ℕ) → g ≢ h → get_elem? after.handle_table g ≡ get_elem? m.handle_table g

module _ (m : HandlesManager) (v : IsValid m) (h : ℕ) (e : HandleEntry)
    (at : get_elem? m.handle_table h ≡ some e) (in_use : same_type e.type invalid ≡ false) where
  inside : h < length m.handle_table
  inside = elim (dec_lt h (length m.handle_table)) [
    | yes lt ↦ lt
    | no ge ↦ let beyond = get_elem?-beyond m.handle_table h (omega arith) in cc
  ]

  module _ (middle : HandlesManager) (d : Destroyed e.type e.description m middle) where
    abbrev blank : HandleEntry
    blank = record e { type = invalid }

    abbrev after : HandlesManager
    after = record middle { handle_table = set middle.handle_table h blank }

    entries :
        (g : ℕ)
        → get_elem? after.handle_table g
          ≡ (if h == g then some blank else get_elem? m.handle_table g)
    entries g =
        ap (λ (t : List HandleEntry). get_elem? (set t h blank) g) d.table
        ∙ get_elem?-set m.handle_table h g blank inside

    -- An entry in use is another one, as it was.
    still :
        (g : ℕ) (f : HandleEntry)
        → get_elem? after.handle_table g ≡ some f
        → same_type f.type invalid ≡ false
        → (get_elem? m.handle_table g ≡ some f) × (g ≢ h)
    still g f bt use_ = elim (Bool-cases (h == g)) [
      | inl same ↦
          let now : some blank ≡ some f = sym (entries g ∙ rw same refl) ∙ bt in
          let is : blank ≡ f = cc in
          absurd (ground (arith, ap (λ (k : HandleEntry). same_type k.type invalid) is, use_))
      | inr other ↦ (sym (entries g ∙ rw other refl) ∙ bt, λ eq. ground arith)
    ]

    after-IsValid : IsValid after
    after-IsValid = record {
      there = λ g f bt. elim (Bool-cases (h == g)) [
        | inl same ↦
            let now : some blank ≡ some f = sym (entries g ∙ rw same refl) ∙ bt in
            let is : blank ≡ f = cc in
            λ null. v.there h e at (ap (λ (k : HandleEntry). k.description) is ∙ null)
        | inr other ↦ v.there g f (sym (entries g ∙ rw other refl) ∙ bt)
      ];
      owned = λ g f bt use_.
          let (old, ne) = still g f bt use_ in
          ap (λ (xs : List ℕ). mem f.description xs)
            (owners_table f.type middle (set middle.handle_table h blank))
          ∙ d.others f.type f.description (elim (Bool-cases (same_type f.type e.type)) [
            | inl same ↦ inr (λ eq. ne (v.apart g h f e old at use_ same eq))
            | inr differ ↦ inl differ
          ])
          ∙ v.owned g f old use_;
      apart = λ g g' f f' bt bt' use_ same eq.
          let (old, ne) = still g f bt use_ in
          let type : f.type ≡ f'.type = same_type-eq f.type f'.type same in
          let (old', ne') =
            still g' f' bt' (ap (λ (k : HandleType). same_type k invalid) (sym type) ∙ use_) in
          v.apart g g' f f' old old' use_ same eq;
    }

  -- In a valid table, removing a handle in use ends: its description is destroyed, its entry is
  -- invalid from then on, every other handle names what it named, and the table stays valid.
  pub remove_handle-Removed :
      (m' : HandlesManager) × (remove_handle h m ≡ some m') × Removed h e m m'
  unfolding remove_handle
  remove_handle-Removed =
      let (middle, ran, d) = remove_description-Destroyed e.type e.description m in_use in
      let not_null : (e.description == 0) ≡ false = ground (arith, v.there h e at) in
      (
        after middle d,
        rw (at, remove_handle) (rw not_null (rw in_use (rw ran refl))),
        record {
          valid = after-IsValid middle d;
          marked = entries middle d h ∙ ground arith;
          destroyed =
              ap (λ (xs : List ℕ). mem e.description xs)
                (owners_table e.type middle (set middle.handle_table h (blank middle d)))
              ∙ d.gone;
          others = λ g ne.
              let test : (h == g) ≡ false = ground arith in entries middle d g ∙ rw test refl;
        },
      )
