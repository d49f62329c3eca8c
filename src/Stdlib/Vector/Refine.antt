-- ===== src/Stdlib/Vector/Refine.antt =====
-- A vector behaves as the list of its objects: growth and access.
use native.Mathlib.Decide.{dec_lt}
use cyan_oskernel.Prelude.{
  ℕ, ◌-◌, ◌^◌, ◌≤◌, ◌<◌, ◌≡◌, refl, sym, subst, ◌∙◌, false, Option, none, some, List, arith, ltb,
  lt→ltb, ◌==◌, length, get_elem?, replicate, get_elem?-beyond, get_elem?_inside,
  get_elem?-replicate, length-replicate,
}
use cyan_oskernel.Stdlib.Vector.{
  Vector, destruct_used_objects, realloc, make_free_spot, make_room, insert, push_back, at, copy,
}
use cyan_oskernel.Stdlib.Vector.Slots.{Objects, copy_slots_lem, destroy_slots_lem}
use cyan_oskernel.Stdlib.Vector.{shift_up}

-- The vector holds the objects `q`, each in the slot of its index, and the slots beyond hold none.
pub record Holds {ℓ} {A : Type ℓ} (v : Vector A) (q : List A) : Type ℓ where
  pub storage : length v.storage ≡ v.capacity
  pub small : v.capacity < 2 ^ 32
  pub steps : 0 < v.allocation_steps
  pub count : v.count ≡ length q
  pub fits : v.count ≤ v.capacity
  pub slots : (i : ℕ) → i < v.capacity → get_elem? v.storage i ≡ some (get_elem? q i)

module _ {A : Type 0} where
  same_vector : {v w : Vector A} → some v ≡ some w → v ≡ w
  same_vector e = cc

  -- A vector whose storage ends at its last object, with capacity to spare by its own account,
  -- writes past the storage.
  push_back_outside :
      (v : Vector A) (x : A)
      → v.count < v.capacity
      → length v.storage ≤ v.count
      → push_back v x ≡ none
  unfolding push_back insert make_room make_free_spot shift_up
  push_back_outside v x room short =
      let test : (v.count == v.capacity) ≡ false = ground arith in
      let rounds : v.count - v.count ≡ 0 = omega arith in
      let outside : ltb v.count (length v.storage) ≡ false = ground arith in
      rw (test, rounds) (rw outside refl)

  module _ (v : Vector A) (q : List A) (h : Holds v q) where
    pub held-Objects : Objects v.storage 0 v.count
    held-Objects j lo hi =
        let (x, got) = get_elem?_inside q j (omega (arith, h.count)) in
        (x, ground (arith, h.slots j, h.fits))

    -- `destruct_used_objects` succeeds, and leaves no object.
    pub destruct_lem :
        (slots : List (Option A)) × (destruct_used_objects v ≡ some slots)
        × (length slots ≡ v.capacity)
        × ((j : ℕ) → j < v.capacity → get_elem? slots j ≡ some none)
    unfolding destruct_used_objects
    destruct_lem =
        let (slots, ran, len, spots) =
          destroy_slots_lem v.count 0 v.storage held-Objects (omega (arith, h.storage, h.fits)) in
        (
          slots,
          ran,
          len ∙ h.storage,
          λ j lt. ground (arith, spots j, h.slots j, h.count, get_elem?-beyond q j),
        )

    -- `realloc` to a larger capacity keeps the objects.
    pub realloc-Holds :
        (n : ℕ)
        → v.capacity < n
        → n < 2 ^ 32
        → (v' : Vector A) × (realloc v n ≡ some v') × Holds v' q × (v'.capacity ≡ n)
    unfolding realloc
    realloc-Holds n larger small =
        let (slots, ran, len, spots) =
          copy_slots_lem v.count 0 0 v.storage (replicate n none) held-Objects
            (omega (arith, length-replicate {A = Option A} n none, h.fits)) in
        let (old, destroyed, _, _) = destruct_lem in
        let positive : (n == 0) ≡ false = ground arith in
        (
          record v { capacity = n; storage = slots },
          rw (positive, lt→ltb v.capacity n larger, ran, destroyed) refl,
          record {
            storage = len ∙ length-replicate n none;
            small = small;
            steps = h.steps;
            count = h.count;
            fits = omega (arith, h.fits);
            slots = λ i lt. ground (
              arith,
              spots i,
              h.slots i,
              h.count,
              h.fits,
              get_elem?-beyond q i,
              get_elem?-replicate {A = Option A} n none i,
            );
          },
          refl,
        )

    -- `operator[]` reads the object of its index, and fails its ASSERT beyond the last.
    pub at_lem : (i : ℕ) → at v i ≡ get_elem? q i
    unfolding at
    at_lem i = elim (dec_lt i v.count) [
      | yes lt ↦ ground (arith, h.slots i, h.fits)
      | no ge ↦ ground (arith, get_elem?-beyond q i, h.count)
    ]

    -- A copy of a vector with capacity to spare has storage for its objects only, but the capacity
    -- of the other: what it appends is written past the storage.
    pub copy_overflow :
        (v' : Vector A) (x : A) → v.count < v.capacity → copy v ≡ some v' → push_back v' x ≡ none
    unfolding copy
    copy_overflow v' x room copied =
        let fresh = replicate {A = Option A} v.count none in
        let len0 : length fresh ≡ v.count = length-replicate {A = Option A} v.count none in
        let (slots, ran, len, _) =
          copy_slots_lem v.count 0 0 v.storage fresh held-Objects (omega arith) in
        let made : copy v ≡ some (record v { storage = slots }) = rw ran refl in
        subst (λ (w : Vector A). push_back w x ≡ none) (same_vector (sym made ∙ copied))
          (push_back_outside (record v { storage = slots }) x room (omega arith))
