-- ===== src/Stdlib/Vector/Insert.antt =====
-- Insertion into a vector is that into the list of its objects.
use native.Mathlib.Decide.{ℕ_discrete}
use cyan_oskernel.Prelude.{
  ℕ, zero, suc, ◌+◌, ◌-◌, ◌%◌, ◌^◌, ◌≤◌, ◌<◌, ◌≡◌, ◌≢◌, ◌⊎◌, inl, inr, refl, sym, ap, subst, ◌∙◌,
  true, false, Option, none, some, List, [], ◌∷◌, ◌++◌, arith, ltb, leb, lt→ltb, ◌==◌,
  if◌then◌else◌, length, get_elem?, set, replicate, length-set, get_elem?-set, get_elem?-beyond,
  get_elem?-replicate, length-replicate,
}
use cyan_oskernel.Stdlib.Vector.{
  Vector, realloc_with_free_spot, make_free_spot, make_room, insert, push_back,
}
use cyan_oskernel.Stdlib.Vector.Slots.{Objects, copy_slots_lem, shift_up_lem}
use cyan_oskernel.Stdlib.Vector.{shift_up}
use cyan_oskernel.Stdlib.Vector.Refine.{Holds, held-Objects, destruct_lem}

-- The list with an object put in before an index.
abbrev pub insert_at {ℓ} : {A : Type ℓ} → List A → ℕ → A → List A
insert_at xs zero x = x ∷ xs
insert_at [] (suc i) x = x ∷ []
insert_at (y ∷ ys) (suc i) x = y ∷ insert_at ys i x

module _ {A : Type 0} where
  length-insert_at : (q : List A) (p : ℕ) (x : A) → length (insert_at q p x) ≡ suc (length q)
  length-insert_at q zero x = refl
  length-insert_at [] (suc p) x = refl
  length-insert_at (y ∷ q) (suc p) x = ap (λ (n : ℕ). suc n) (length-insert_at q p x)

  get_elem?-insert_at :
      (q : List A) (p j : ℕ) (x : A)
      → p ≤ length q
      → get_elem? (insert_at q p x) j
        ≡ (if ltb j p then get_elem? q j else if j == p then some x else get_elem? q (j - 1))
  get_elem?-insert_at q zero zero x le = refl
  get_elem?-insert_at q zero (suc j) x le = ground arith
  get_elem?-insert_at [] (suc p) j x le = absurd (omega arith)
  get_elem?-insert_at (y ∷ q) (suc p) zero x le = ground arith
  get_elem?-insert_at (y ∷ q) (suc p) (suc zero) x le =
      ground (arith, get_elem?-insert_at q p 0 x (omega arith))
  get_elem?-insert_at (y ∷ q) (suc p) (suc (suc j)) x le =
      ground (arith, get_elem?-insert_at q p (suc j) x (omega arith))

  module _ (v : Vector A) (q : List A) (h : Holds v q) where
    -- The vector with room at an index: every object from there on stands one slot further on.
    record Room (p : ℕ) (v' : Vector A) : Type 0 where
      storage : length v'.storage ≡ v'.capacity
      small : v'.capacity < 2 ^ 32
      left : v.count < v'.capacity
      count : v'.count ≡ v.count
      steps : v'.allocation_steps ≡ v.allocation_steps
      slots :
          (j : ℕ)
          → j < v'.capacity
          → j ≢ p
          → get_elem? v'.storage j ≡ some (if ltb j p then get_elem? q j else get_elem? q (j - 1))

    held_from : (p n : ℕ) → p + n ≤ v.count → Objects v.storage p n
    held_from p n le j lo hi = held-Objects v q h j (omega arith) (omega arith)

    grow-Room :
        (p : ℕ)
        → p ≤ v.count
        → v.count ≡ v.capacity
        → v.capacity + v.allocation_steps < 2 ^ 32
        → (v' : Vector A) × (realloc_with_free_spot v (v.capacity + v.allocation_steps) p ≡ some v')
          × Room p v'
    unfolding realloc_with_free_spot
    grow-Room p le full small =
        let n = v.capacity + v.allocation_steps in
        let fresh = replicate {A = Option A} n none in
        let len0 : length fresh ≡ n = length-replicate {A = Option A} n none in
        let steps = h.steps in
        let (slots, ran, len, spots) =
          copy_slots_lem p 0 0 v.storage fresh (held_from 0 p (omega arith)) (omega arith) in
        let (slots', ran', len', spots') =
          copy_slots_lem (v.count - p) p 1 v.storage slots (held_from p (v.count - p) (omega arith))
            (omega arith) in
        let (old, destroyed, _, _) = destruct_lem v q h in
        let enough : leb (v.count + 1) n ≡ true = ground arith in
        let inside : leb p v.count ≡ true = ground arith in
        (
          record v { capacity = n; storage = slots' },
          rw (enough, inside, lt→ltb v.capacity n (omega arith), ran) (rw (ran', destroyed) refl),
          record {
            storage = len' ∙ len ∙ len0;
            small = small;
            left = omega arith;
            count = refl;
            steps = refl;
            slots = λ j lt ne. ground (
              arith,
              spots' j,
              spots j,
              h.slots j,
              h.slots (j - 1),
              h.count,
              get_elem?-beyond q j,
              get_elem?-beyond q (j - 1),
              get_elem?-replicate {A = Option A} n none j,
            );
          },
        )

    same_shift :
        (p : ℕ)
        → (v.trivial ≡ true) ⊎ (p ≡ v.count)
        → shift_up v.trivial (v.count - p) v.count v.storage
          ≡ shift_up true (v.count - p) v.count v.storage
    unfolding shift_up
    same_shift p (inl plain) = ap (λ b. shift_up b (v.count - p) v.count v.storage) plain
    same_shift p (inr at_end) =
        let nothing : v.count - p ≡ 0 = omega arith in
        ap (λ (n : ℕ). shift_up v.trivial n v.count v.storage) nothing
        ∙ sym (ap (λ (n : ℕ). shift_up true n v.count v.storage) nothing)

    shift-Room :
        (p : ℕ)
        → p ≤ v.count
        → v.count < v.capacity
        → (v.trivial ≡ true) ⊎ (p ≡ v.count)
        → (v' : Vector A) × (make_free_spot v p ≡ some v') × Room p v'
    unfolding make_free_spot
    shift-Room p le room fit =
        let whole : p + (v.count - p) ≡ v.count = omega arith in
        let (slots, ran, len, spots) =
          shift_up_lem (v.count - p) p v.storage (held_from p (v.count - p) (omega arith))
            (omega (arith, h.storage)) in
        (
          record v { storage = slots },
          rw
              (same_shift p fit
                ∙ ap (λ (i : ℕ). shift_up true (v.count - p) i v.storage) (sym whole)
                ∙ ran)
              refl,
          record {
            storage = len ∙ h.storage;
            small = h.small;
            left = room;
            count = refl;
            steps = refl;
            slots = λ j lt ne. ground (
              arith,
              spots j ne,
              h.slots j,
              h.slots (j - 1),
              h.count,
              get_elem?-beyond q j,
              get_elem?-beyond q (j - 1),
            );
          },
        )

    make_room-Room :
        (p : ℕ)
        → p ≤ v.count
        → v.capacity + v.allocation_steps < 2 ^ 32
        → (v.trivial ≡ true) ⊎ ((p ≡ v.count) ⊎ (v.count ≡ v.capacity))
        → (v' : Vector A) × (make_room v p ≡ some v') × Room p v'
    unfolding make_room
    make_room-Room p le small fit = elim (ℕ_discrete v.count v.capacity) [
      | yes full ↦
          let test : (v.count == v.capacity) ≡ true = ground arith in
          let exact : (v.capacity + v.allocation_steps) % 2 ^ 32 ≡ v.capacity + v.allocation_steps =
            omega arith in
          let (v', ran, room) = grow-Room p le full small in (v', rw (test, exact) ran, room)
      | no ne ↦
          let test : (v.count == v.capacity) ≡ false = ground arith in
          let (v', ran, room) = shift-Room p le (omega (arith, h.fits)) (moves ne fit) in
          (v', rw test ran, room)
    ]
      where
        moves :
            v.count ≢ v.capacity
            → (v.trivial ≡ true) ⊎ ((p ≡ v.count) ⊎ (v.count ≡ v.capacity))
            → (v.trivial ≡ true) ⊎ (p ≡ v.count)
        moves ne (inl plain) = inl plain
        moves ne (inr (inl at_end)) = inr at_end
        moves ne (inr (inr full)) = absurd (ne full)

    by_count :
        {p : ℕ}
        → (v.trivial ≡ true) ⊎ ((p ≡ length q) ⊎ (v.count ≡ v.capacity))
        → (v.trivial ≡ true) ⊎ ((p ≡ v.count) ⊎ (v.count ≡ v.capacity))
    by_count (inl plain) = inl plain
    by_count (inr (inl at_end)) = inr (inl (at_end ∙ sym h.count))
    by_count (inr (inr full)) = inr (inr full)

    -- Where the capacity can grow by a step below 2 ^ 32, `insert` at an index of the vector or at its
    -- end puts the object in before that index, and grows the storage where it is full. Inside of a
    -- vector with room to spare this is so for types whose assignment needs no object there: the
    -- source assigns to a slot without one.
    pub insert-Holds :
        (p : ℕ) (x : A)
        → p ≤ length q
        → v.capacity + v.allocation_steps < 2 ^ 32
        → (v.trivial ≡ true) ⊎ ((p ≡ length q) ⊎ (v.count ≡ v.capacity))
        → (v' : Vector A) × (insert v p x ≡ some v') × Holds v' (insert_at q p x)
    unfolding insert
    insert-Holds p x le small fit =
        let (v', ran, room) = make_room-Room p (omega (arith, h.count)) small (by_count fit) in
        let inside : p < length v'.storage = omega (arith, room.storage, room.left, h.count) in
        (
          record v' { storage = set v'.storage p (some x); count = v'.count + 1 },
          rw ran (rw (lt→ltb p (length v'.storage) inside) refl),
          record {
            storage = length-set v'.storage p (some x) ∙ room.storage;
            small = room.small;
            steps = omega (arith, room.steps, h.steps);
            count = omega (arith, room.count, h.count, length-insert_at q p x);
            fits = omega (arith, room.count, room.left);
            slots = λ j lt. ground (
              arith,
              get_elem?-set v'.storage p j (some x) inside,
              get_elem?-insert_at q p j x le,
              room.slots j lt,
            );
          },
        )

    insert_at-end : (xs : List A) (x : A) → insert_at xs (length xs) x ≡ xs ++ x ∷ []
    insert_at-end [] x = refl
    insert_at-end (y ∷ ys) x = ap (λ (zs : List A). y ∷ zs) (insert_at-end ys x)

    -- Where the capacity can grow by a step below 2 ^ 32, `push_back` appends an object, and grows the storage where it is full.
    pub push_back-Holds :
        (x : A)
        → v.capacity + v.allocation_steps < 2 ^ 32
        → (v' : Vector A) × (push_back v x ≡ some v') × Holds v' (q ++ x ∷ [])
    unfolding push_back
    push_back-Holds x small =
        let (v', ran, held) = insert-Holds (length q) x (omega arith) small (inr (inl refl)) in
        (
          v',
          ap (λ (i : ℕ). insert v i x) h.count ∙ ran,
          subst (λ (xs : List A). Holds v' xs) (insert_at-end q x) held,
        )
