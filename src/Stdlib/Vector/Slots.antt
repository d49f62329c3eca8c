-- ===== src/Stdlib/Vector/Slots.antt =====
-- What the loops over raw storage do to each slot.
use native.Mathlib.Decide.{ℕ_discrete}
use cyan_oskernel.Prelude.{
  ℕ, zero, suc, ◌+◌, ◌-◌, ◌≤◌, ◌<◌, ◌≡◌, true, ◌≢◌, refl, ap, ◌∙◌, ◌&&◌, Option, none, some, List,
  arith, ltb, leb, lt→ltb, ◌==◌, if◌then◌else◌, length, get_elem?, set, length-set, get_elem?-set,
}
use cyan_oskernel.Stdlib.Vector.{copy_slots, destroy_slots, shift_up, shift_down}

module _ {A : Type 0} where
  -- The `n` slots from `i` on hold objects.
  abbrev pub Objects : List (Option A) → ℕ → ℕ → Type 0
  Objects slots i n = (j : ℕ) → i ≤ j → j < i + n → (x : A) × (get_elem? slots j ≡ some (some x))

  copy_slots-step :
      (n i o : ℕ) (source slots : List (Option A)) (x : A)
      → get_elem? source i ≡ some (some x)
      → i + o < length slots
      → copy_slots (suc n) i o source slots
        ≡ copy_slots n (suc i) o source (set slots (i + o) (some x))
  unfolding copy_slots
  copy_slots-step n i o source slots x e lt = rw (e, lt→ltb (i + o) (length slots) lt, copy_slots)

  destroy_slots-step :
      (n i : ℕ) (slots : List (Option A)) (x : A)
      → get_elem? slots i ≡ some (some x)
      → destroy_slots (suc n) i slots ≡ destroy_slots n (suc i) (set slots i none)
  unfolding destroy_slots
  destroy_slots-step n i slots x e = rw (e, destroy_slots)

  shift_down-step :
      (n i : ℕ) (slots : List (Option A)) (x : A)
      → get_elem? slots (suc i) ≡ some (some x)
      → i < length slots
      → shift_down (suc n) i slots ≡ shift_down n (suc i) (set slots i (some x))
  unfolding shift_down
  shift_down-step n i slots x e lt = rw (e, lt→ltb i (length slots) lt, shift_down)

  shift_up-step :
      (n i : ℕ) (slots : List (Option A)) (x : A)
      → get_elem? slots i ≡ some (some x)
      → suc i < length slots
      → shift_up true (suc n) (suc i) slots
        ≡ shift_up true n i (set (set slots (suc i) (some x)) i none)
  unfolding shift_up
  shift_up-step n i slots x e lt =
      let kept : get_elem? (set slots (suc i) (some x)) i ≡ some (some x) =
        ground (arith, get_elem?-set slots (suc i) i (some x) lt) in
      rw (e, shift_up) (rw (lt→ltb (suc i) (length slots) lt) (rw kept refl))

  -- Copying constructs the objects of a range `o` slots on, and touches no other slot.
  pub copy_slots_lem :
      (n i o : ℕ) (source slots : List (Option A))
      → Objects source i n
      → i + n + o ≤ length slots
      → (slots' : List (Option A)) × (copy_slots n i o source slots ≡ some slots')
        × (length slots' ≡ length slots)
        × ((j : ℕ)
            → get_elem? slots' j ≡ (
                if leb (i + o) j && ltb j (i + n + o)
                then get_elem? source (j - o)
                else get_elem? slots j))
  unfolding copy_slots
  copy_slots_lem zero i o source slots objects fits = (slots, refl, refl, λ j. ground arith)
  copy_slots_lem (suc n) i o source slots objects fits =
      let (x, e) = objects i (omega arith) (omega arith) in
      let now = set slots (i + o) (some x) in
      let same : length now ≡ length slots = length-set slots (i + o) (some x) in
      let (slots', ran, len, at) =
        copy_slots_lem n (suc i) o source now (λ j lo hi. objects j (omega arith) (omega arith))
          (omega arith) in
      (
        slots',
        copy_slots-step n i o source slots x e (omega arith) ∙ ran,
        len ∙ same,
        λ j. copied j (at j) (get_elem?-set slots (i + o) j (some x) (omega arith)) e,
      )
    where
      copied :
          {x : A} {r s : Option (Option A)} (j : ℕ)
          → r ≡ (if leb (suc i + o) j && ltb j (suc i + n + o) then get_elem? source (j - o) else s)
          → s ≡ (if (i + o) == j then some (some x) else get_elem? slots j)
          → get_elem? source i ≡ some (some x)
          → r ≡ (
              if leb (i + o) j && ltb j (i + suc n + o)
              then get_elem? source (j - o)
              else get_elem? slots j)
      copied j h k e = elim (ℕ_discrete (i + o) j) [
        | yes same ↦ let back : j - o ≡ i = omega arith in rw back (ground arith)
        | no ne ↦ ground arith
      ]

  -- Destroying empties a range.
  pub destroy_slots_lem :
      (n i : ℕ) (slots : List (Option A))
      → Objects slots i n
      → i + n ≤ length slots
      → (slots' : List (Option A)) × (destroy_slots n i slots ≡ some slots')
        × (length slots' ≡ length slots)
        × ((j : ℕ)
            → get_elem? slots' j
              ≡ (if leb i j && ltb j (i + n) then some none else get_elem? slots j))
  unfolding destroy_slots
  destroy_slots_lem zero i slots objects fits = (slots, refl, refl, λ j. ground arith)
  destroy_slots_lem (suc n) i slots objects fits =
      let (x, e) = objects i (omega arith) (omega arith) in
      let write = λ (j : ℕ). get_elem?-set slots i j none (omega arith) in
      let (slots', ran, len, at) =
        destroy_slots_lem n (suc i) (set slots i none)
          (λ j lo hi.
            let (y, f) = objects j (omega arith) (omega arith) in (y, ground (arith, write j)))
          (omega (arith, length-set slots i none)) in
      (
        slots',
        destroy_slots-step n i slots x e ∙ ran,
        len ∙ length-set slots i none,
        λ j. ground (arith, at j, write j),
      )

  -- The loop of `remove` moves a range of objects one slot down.
  pub shift_down_lem :
      (n i : ℕ) (slots : List (Option A))
      → Objects slots i (suc n)
      → i + n < length slots
      → (slots' : List (Option A)) × (shift_down n i slots ≡ some slots')
        × (length slots' ≡ length slots)
        × ((j : ℕ)
            → get_elem? slots' j
              ≡ (if leb i j && ltb j (i + n) then get_elem? slots (suc j) else get_elem? slots j))
  unfolding shift_down
  shift_down_lem zero i slots objects fits = (slots, refl, refl, λ j. ground arith)
  shift_down_lem (suc n) i slots objects fits =
      let (x, e) = objects (suc i) (omega arith) (omega arith) in
      let write = λ (j : ℕ). get_elem?-set slots i j (some x) (omega arith) in
      let (slots', ran, len, at) =
        shift_down_lem n (suc i) (set slots i (some x))
          (λ j lo hi.
            let (y, f) = objects j (omega arith) (omega arith) in (y, ground (arith, write j)))
          (omega (arith, length-set slots i (some x))) in
      (
        slots',
        shift_down-step n i slots x e (omega arith) ∙ ran,
        len ∙ length-set slots i (some x),
        λ j. ground (arith, at j, write j, write (suc j)),
      )

  -- One slot after a round of `make_free_spot` and the rounds after it.
  moved_up :
      {x : A} {r a b : Option (Option A)} (p n j : ℕ) (slots : List (Option A))
      → j ≢ p
      → get_elem? slots (p + n) ≡ some (some x)
      → r ≡ (if ltb p j && leb j (p + n) then a else b)
      → b ≡ (
          if (p + n) == j
          then some none
          else if suc (p + n) == j
          then some (some x)
          else get_elem? slots j)
      → a ≡ (
          if (p + n) == (j - 1)
          then some none
          else if suc (p + n) == (j - 1)
          then some (some x)
          else get_elem? slots (j - 1))
      → r ≡ (if ltb p j && leb j (p + suc n) then get_elem? slots (j - 1) else get_elem? slots j)
  moved_up p n j slots ne e hr hb ha = elim (ℕ_discrete j (suc (p + n))) [
    | yes top ↦ let back : j - 1 ≡ p + n = omega arith in rw back (ground arith)
    | no other ↦ ground arith
  ]

  -- The loop of `make_free_spot` moves a range of objects one slot up; the slot at its beginning is
  -- left free.
  pub shift_up_lem :
      (n p : ℕ) (slots : List (Option A))
      → Objects slots p n
      → p + n < length slots
      → (slots' : List (Option A)) × (shift_up true n (p + n) slots ≡ some slots')
        × (length slots' ≡ length slots)
        × ((j : ℕ)
            → j ≢ p
            → get_elem? slots' j
              ≡ (if ltb p j && leb j (p + n) then get_elem? slots (j - 1) else get_elem? slots j))
  unfolding shift_up
  shift_up_lem zero p slots objects fits = (slots, refl, refl, λ j ne. ground arith)
  shift_up_lem (suc n) p slots objects fits =
      let (x, e) = objects (p + n) (omega arith) (omega arith) in
      let top : p + suc n ≡ suc (p + n) = omega arith in
      let up = set slots (suc (p + n)) (some x) in
      let same_up : length up ≡ length slots = length-set slots (suc (p + n)) (some x) in
      let write = λ (j : ℕ). get_elem?-set slots (suc (p + n)) j (some x) (omega arith) in
      let free = λ (j : ℕ). get_elem?-set up (p + n) j none (omega arith) in
      let (slots', ran, len, at) =
        shift_up_lem n p (set up (p + n) none)
          (λ j lo hi.
            let (y, f) = objects j (omega arith) (omega arith) in
            (y, ground (arith, write j, free j)))
          (omega (arith, length-set up (p + n) none)) in
      (
        slots',
        ap (λ (i : ℕ). shift_up true (suc n) i slots) top
            ∙ shift_up-step n (p + n) slots x e (omega arith)
            ∙ ran,
        len ∙ length-set up (p + n) none ∙ same_up,
        λ j ne.
            moved_up p n j slots ne e (at j ne)
              (free j ∙ ap (λ o. if (p + n) == j then some none else o) (write j))
              (free (j - 1)
                ∙ ap (λ o. if (p + n) == (j - 1) then some none else o) (write (j - 1))),
      )
