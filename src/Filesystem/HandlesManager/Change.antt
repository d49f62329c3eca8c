-- ===== src/Filesystem/HandlesManager/Change.antt =====
-- Adding and removing handles keep the table valid, and leave the other handles as they are.
use native.Mathlib.Decide.{ℕ_discrete}
use cyan_oskernel.Prelude.{
  ℕ, ◌≡◌, ◌≢◌, ◌⊎◌, inl, inr, refl, sym, ap, ◌∙◌, true, false, ◌||◌, none, some, List, [], ◌∷◌,
  ◌++◌, arith, ◌==◌, if◌then◌else◌, length, get_elem?, get_elem?-append_one, get_elem?-beyond,
  length-append,
}
use cyan_oskernel.Stdlib.Links.{mem}
use cyan_oskernel.Filesystem.HandlesManager.{
  HandleType, invalid, file_description, process_description, same_type, HandleEntry,
  HandlesManager, remove_if, add_file, add_process,
}
use cyan_oskernel.Filesystem.HandlesManager.Alive.{IsValid, owners}

mem-append_one : (x : ℕ) (xs : List ℕ) (y : ℕ) → mem x (xs ++ y ∷ []) ≡ (y == x || mem x xs)
unfolding mem
mem-append_one x [] y = ground arith
mem-append_one x (z ∷ zs) y = ground (arith, mem-append_one x zs y)

-- Removing one description keeps the others.
pub mem-remove_if : (x p : ℕ) (xs : List ℕ) → x ≢ p → mem x (remove_if p xs) ≡ mem x xs
unfolding mem remove_if
mem-remove_if x p [] ne = refl
mem-remove_if x p (y ∷ ys) ne = ground (arith, mem-remove_if x p ys ne)

pub mem-removed : (p : ℕ) (xs : List ℕ) → mem p (remove_if p xs) ≡ false
unfolding mem remove_if
mem-removed p [] = refl
mem-removed p (y ∷ ys) = ground (arith, mem-removed p ys)

-- A table with one entry more, whose description has just come to the list of its type.
record Added (entry : HandleEntry) (m after : HandlesManager) : Type 0 where
  table : after.handle_table ≡ m.handle_table ++ entry ∷ []
  real : entry.description ≢ 0
  fresh : mem entry.description (owners entry.type m) ≡ false
  in_use : same_type entry.type invalid ≡ false
  kept :
      (ty : HandleType) (p : ℕ)
      → same_type ty invalid ≡ false
      → mem p (owners ty m) ≡ true
      → mem p (owners ty after) ≡ true
  here : mem entry.description (owners entry.type after) ≡ true

pub same_type-eq : (a b : HandleType) → same_type a b ≡ true → a ≡ b
same_type-eq a b h = ground arith

module _ (m after : HandlesManager) (entry : HandleEntry) (v : IsValid m)
    (a : Added entry m after) where
  entries :
      (h : ℕ)
      → get_elem? after.handle_table h
        ≡ (if h == length m.handle_table then some entry else get_elem? m.handle_table h)
  entries h =
      ap (λ (t : List HandleEntry). get_elem? t h) a.table
      ∙ get_elem?-append_one m.handle_table entry h

  -- An entry of the new table is the new one, or one of the old.
  entry-cases :
      (h : ℕ) (e : HandleEntry)
      → get_elem? after.handle_table h ≡ some e
      → ((h ≡ length m.handle_table) × (e ≡ entry)) ⊎ (get_elem? m.handle_table h ≡ some e)
  entry-cases h e at = elim (ℕ_discrete h (length m.handle_table)) [
    | yes same ↦
        let test : (h == length m.handle_table) ≡ true = ground arith in
        let new : get_elem? after.handle_table h ≡ some entry = entries h ∙ rw test refl in
        inl (same, cc)
    | no other ↦
        let test : (h == length m.handle_table) ≡ false = ground arith in
        inr (sym (entries h ∙ rw test refl) ∙ at)
  ]

  -- An old entry in use does not have the new description.
  differ :
      (h : ℕ) (e : HandleEntry)
      → get_elem? m.handle_table h ≡ some e
      → same_type e.type invalid ≡ false
      → e.type ≡ entry.type
      → e.description ≢ entry.description
  differ h e at use_ ty same =
      let owned = v.owned h e at use_ in
      let moved : mem entry.description (owners entry.type m) ≡ true =
        ap (λ (k : HandleType). mem entry.description (owners k m)) (sym ty)
        ∙ ap (λ (p : ℕ). mem p (owners e.type m)) (sym same)
        ∙ owned in
      ground (arith, moved, a.fresh)

  Added-IsValid : IsValid after
  Added-IsValid = record {
    there = λ h e at. elim (entry-cases h e at) [
      | inl (same, new) ↦ λ null. a.real (ap (λ (k : HandleEntry). k.description) (sym new) ∙ null)
      | inr old ↦ v.there h e old
    ];
    owned = λ h e at use_. elim (entry-cases h e at) [
      | inl (same, new) ↦
          ap (λ (k : HandleEntry). mem k.description (owners k.type after)) new ∙ a.here
      | inr old ↦ a.kept e.type e.description use_ (v.owned h e old use_)
    ];
    apart = λ h g e f at bt use_ same eq.
        let type : e.type ≡ f.type = same_type-eq e.type f.type same in
        elim (entry-cases h e at) [
          | inl (is_h, new_e) ↦ elim (entry-cases g f bt) [
            | inl (is_g, new_f) ↦ is_h ∙ sym is_g
            | inr old_f ↦ absurd (
                differ g f old_f (ap (λ (k : HandleType). same_type k invalid) (sym type) ∙ use_)
                  (sym type ∙ ap (λ (k : HandleEntry). k.type) new_e)
                  (sym eq ∙ ap (λ (k : HandleEntry). k.description) new_e))
          ]
          | inr old_e ↦ elim (entry-cases g f bt) [
            | inl (is_g, new_f) ↦ absurd (
                differ h e old_e use_ (type ∙ ap (λ (k : HandleEntry). k.type) new_f)
                  (eq ∙ ap (λ (k : HandleEntry). k.description) new_f))
            | inr old_f ↦ v.apart h g e f old_e old_f use_ same eq
          ]
        ];
  }

-- The handle that an `add_handle` returns names the description, and every other handle what it
-- named before.
pub record AddedHandle (ty : HandleType) (p : ℕ) (m : HandlesManager) (h : ℕ)
    (after : HandlesManager) : Type 0 where
  pub valid : IsValid after
  pub new : get_elem? m.handle_table h ≡ none
  pub named : get_elem? after.handle_table h ≡ some (record { type = ty; description = p })
  pub others : (g : ℕ) → g ≢ h → get_elem? after.handle_table g ≡ get_elem? m.handle_table g

module _ (m : HandlesManager) (v : IsValid m) (p : ℕ) (real : p ≢ 0) where
  add-AddedHandle :
      (ty : HandleType) (after : HandlesManager) (h : ℕ)
      → Added (record { type = ty; description = p }) m after
      → h ≡ length m.handle_table
      → AddedHandle ty p m h after
  add-AddedHandle ty after h a at =
      let entry : HandleEntry = record { type = ty; description = p } in
      record {
        valid = Added-IsValid m after entry v a;
        new = get_elem?-beyond m.handle_table h (omega arith);
        named =
            let test : (h == length m.handle_table) ≡ true = ground arith in
            entries m after entry v a h ∙ rw test refl;
        others = λ g ne.
            let test : (g == length m.handle_table) ≡ false = ground arith in
            entries m after entry v a g ∙ rw test refl;
      }

  -- Adding a description that no handle owns yet gives a new handle for it, keeps the table valid, and
  -- changes no other handle. This is the `add_handle` of a file.
  pub add_file-AddedHandle :
      mem p m.file_description_table ≡ false
      → AddedHandle file_description p m (add_file p m).0 (add_file p m).1
  unfolding add_file
  add_file-AddedHandle fresh =
      let entry : HandleEntry = record { type = file_description; description = p } in
      let size = length-append m.handle_table (entry ∷ []) in
      add-AddedHandle file_description (add_file p m).1 (add_file p m).0
        (record {
          table = refl;
          real = real;
          fresh = fresh;
          in_use = refl;
          kept = kept;
          here = mem-append_one p m.file_description_table p ∙ ground arith;
        })
        (omega arith)
    where
      kept :
          (ty : HandleType) (q : ℕ)
          → same_type ty invalid ≡ false
          → mem q (owners ty m) ≡ true
          → mem q (owners ty (add_file p m).1) ≡ true
      kept invalid q use_ there = ground (arith, use_)
      kept file_description q use_ there =
          mem-append_one q m.file_description_table p ∙ ground (arith, there)
      kept process_description q use_ there = there

  -- The same of the `add_handle` of a process.
  pub add_process-AddedHandle :
      mem p m.process_description_table ≡ false
      → AddedHandle process_description p m (add_process p m).0 (add_process p m).1
  unfolding add_process
  add_process-AddedHandle fresh =
      let entry : HandleEntry = record { type = process_description; description = p } in
      let size = length-append m.handle_table (entry ∷ []) in
      add-AddedHandle process_description (add_process p m).1 (add_process p m).0
        (record {
          table = refl;
          real = real;
          fresh = fresh;
          in_use = refl;
          kept = kept;
          here = mem-append_one p m.process_description_table p ∙ ground arith;
        })
        (omega arith)
    where
      kept :
          (ty : HandleType) (q : ℕ)
          → same_type ty invalid ≡ false
          → mem q (owners ty m) ≡ true
          → mem q (owners ty (add_process p m).1) ≡ true
      kept invalid q use_ there = ground (arith, use_)
      kept file_description q use_ there = there
      kept process_description q use_ there =
          mem-append_one q m.process_description_table p ∙ ground (arith, there)
