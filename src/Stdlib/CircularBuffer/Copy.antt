-- ===== src/Stdlib/CircularBuffer/Copy.antt =====
-- Copies of a circular buffer, and the assignment between buffers of different capacities.
use native.Mathlib.Nat.{mod-add-mod, mod-eq_of_lt, mod-eq-sub-mod}
use native.Mathlib.Decide.{dec_lt}
use cyan_oskernel.Prelude.{
  ℕ, zero, suc, ◌+◌, ◌-◌, ◌%◌, ◌≤◌, ◌<◌, ◌≡◌, refl, true, false, ap, ◌∙◌, Option, none, some, List,
  arith, ltb, lt→ltb, ◌==◌, if◌then◌else◌, length, get_elem?, set, replicate, length-set,
  get_elem?-set, get_elem?-beyond, get_elem?_inside, get_elem?-replicate, length-replicate,
}
use cyan_oskernel.Stdlib.CircularBuffer.{
  CircularBuffer, size_add, destroy_loop, destroy_used_objects, copy_loop, copy, assign,
}
use cyan_oskernel.Stdlib.CircularBuffer.Refine.{
  Holds, wrap_below, wrap_above, wrap-lt, wrap-injective,
}

module _ {A : Type 0} where
  destroy_loop-step :
      (n capacity i : ℕ) (slots : List (Option A)) (x : A)
      → get_elem? slots i ≡ some (some x)
      → destroy_loop (suc n) capacity i slots
        ≡ destroy_loop n capacity (size_add i 1 % capacity) (set slots i none)
  unfolding destroy_loop
  destroy_loop-step n capacity i slots x e = rw (e, destroy_loop)

  copy_loop-step :
      (n capacity i : ℕ) (source slots : List (Option A)) (x : A)
      → get_elem? source i ≡ some (some x)
      → i < length slots
      → copy_loop (suc n) capacity i source slots
        ≡ copy_loop n capacity (size_add i 1 % capacity) source (set slots i (some x))
  unfolding copy_loop
  copy_loop-step n capacity i source slots x e lt = rw (e, lt→ltb i (length slots) lt, copy_loop)

module _ {A : Type 0} (b : CircularBuffer A) (q : List A) (h : Holds b q) where
  -- The slots of `b`'s ring, by their distance from its head, are as `at` says.
  abbrev Slots : List (Option A) → (ℕ → Option A) → Type 0
  Slots slots at =
      (length slots ≡ b.capacity)
      × ((i : ℕ) → i < b.capacity → get_elem? slots ((b.head + i) % b.capacity) ≡ some (at i))

  index_at : ℕ → ℕ
  index_at k = (b.head + k) % b.capacity

  index-step : (k : ℕ) → size_add (index_at k) 1 % b.capacity ≡ index_at (suc k)
  unfolding index_at
  index-step k = rw small (rw mod-add-mod (ap (λ j. j % b.capacity) (omega arith)))
    where
      small : size_add (index_at k) 1 ≡ index_at k + 1
      small = omega (arith, wrap-lt (b.head + k) b.capacity (omega arith), h.small)

  -- After `k` rounds the loop has destroyed the `k` oldest objects.
  destroy_loop-Slots :
      (n k : ℕ) (slots : List (Option A))
      → k + n ≡ length q
      → Slots slots (λ i. if ltb i k then none else get_elem? q i)
      → (slots' : List (Option A)) × (destroy_loop n b.capacity (index_at k) slots ≡ some slots')
        × Slots slots' (λ i. none)
  unfolding destroy_loop index_at
  destroy_loop-Slots zero k slots e s =
      (slots, refl, (s.0, λ i hi. ground (arith, s.1 i hi, get_elem?-beyond q i)))
  destroy_loop-Slots (suc n) k slots e s =
      let (x, got) = get_elem?_inside q k (omega arith) in
      let held : get_elem? slots (index_at k) ≡ some (some x) =
        ground (arith, s.1 k, h.count, h.fits) in
      let (slots', ran, after) =
        destroy_loop-Slots n (suc k) (set slots (index_at k) none) (omega arith) (
          length-set slots (index_at k) none ∙ s.0,
          λ i hi. ground (
            arith,
            s.1 i hi,
            h.count,
            h.fits,
            wrap-lt (b.head + k) b.capacity,
            get_elem?-set slots (index_at k) ((b.head + i) % b.capacity) none,
            wrap-injective b.head k i b.capacity,
          ),
        ) in
      (
        slots',
        destroy_loop-step n b.capacity (index_at k) slots x held ∙ rw (index-step k) ran,
        after,
      )

  -- The loop copies the objects from the `k`-th on.
  copy_loop-Slots :
      (n k : ℕ) (slots : List (Option A))
      → k + n ≡ length q
      → Slots slots (λ i. if ltb i k then get_elem? q i else none)
      → (slots' : List (Option A)) × (copy_loop n b.capacity (index_at k) b.data_slots slots
          ≡ some slots')
        × Slots slots' (get_elem? q)
  unfolding copy_loop index_at
  copy_loop-Slots zero k slots e s =
      (slots, refl, (s.0, λ i hi. ground (arith, s.1 i hi, get_elem?-beyond q i)))
  copy_loop-Slots (suc n) k slots e s =
      let (x, got) = get_elem?_inside q k (omega arith) in
      let held : get_elem? b.data_slots (index_at k) ≡ some (some x) =
        ground (arith, h.slots k, h.count, h.fits) in
      let inside : index_at k < length slots =
        omega (arith, wrap-lt (b.head + k) b.capacity (omega arith), s.0) in
      let (slots', ran, after) =
        copy_loop-Slots n (suc k) (set slots (index_at k) (some x)) (omega arith) (
          length-set slots (index_at k) (some x) ∙ s.0,
          λ i hi. ground (
            arith,
            s.1 i hi,
            h.count,
            h.fits,
            wrap-lt (b.head + k) b.capacity,
            get_elem?-set slots (index_at k) ((b.head + i) % b.capacity) (some x),
            wrap-injective b.head k i b.capacity,
          ),
        ) in
      (
        slots',
        copy_loop-step n b.capacity (index_at k) b.data_slots slots x held inside
            ∙ rw (index-step k) ran,
        after,
      )

  start-index : index_at 0 ≡ b.head
  unfolding index_at
  start-index = ground (arith, wrap_below b.head 0 b.capacity)

  -- Slots that hold the objects make a buffer that holds them.
  pub ring-Holds :
      (slots : List (Option A))
      → Slots slots (get_elem? q)
      → Holds (record b { data_slots = slots }) q
  ring-Holds slots s = record {
    storage = s.0;
    small = h.small;
    head_in = h.head_in;
    count = h.count;
    fits = h.fits;
    tail_at = h.tail_at;
    slots = s.1;
  }

  pub copy_loop_fresh :
      (slots : List (Option A))
      → Slots slots (λ i. none)
      → (slots' : List (Option A)) × (copy_loop b.size b.capacity b.head b.data_slots slots
          ≡ some slots')
        × Slots slots' (get_elem? q)
  copy_loop_fresh slots s =
      let (slots', ran, after) =
        copy_loop-Slots (length q) 0 slots (omega arith) (s.0, λ i hi. ground (arith, s.1 i hi)) in
      (slots', rw (h.count, ← start-index) ran, after)

  -- The copy constructor gives a buffer that holds the same objects.
  pub copy-Holds : (b' : CircularBuffer A) × (copy b ≡ some b') × Holds b' q
  unfolding copy
  copy-Holds =
      let (slots, ran, after) = copy_loop_fresh (replicate b.capacity none) (
        length-replicate b.capacity none,
        λ i hi.
            get_elem?-replicate b.capacity none _ (wrap-lt (b.head + i) b.capacity (omega arith)),
      ) in
      (record b { data_slots = slots }, rw ran, ring-Holds slots after)

  -- `destroy_used_objects` succeeds, and leaves no object in any slot.
  pub destroy-Slots :
      (slots' : List (Option A)) × (destroy_used_objects b
        ≡ some (record b { data_slots = slots' }))
      × Slots slots' (λ i. none)
  unfolding destroy_used_objects
  destroy-Slots =
      let (slots', ran, after) =
        destroy_loop-Slots (length q) 0 b.data_slots (omega arith)
          (h.storage, λ i hi. ground (arith, h.slots i hi)) in
      (slots', rw (h.count, ← start-index, ran), after)

-- Every slot stands at some distance from every head.
wrap_back : (h j n : ℕ) → h < n → j < n → (h + (j + n - h) % n) % n ≡ j
wrap_back h j n hh hj = elim (dec_lt j h) [
  | yes p ↦
      rw (mod-eq_of_lt {n = j + n - h} {m = n} (omega arith))
        (omega (arith, wrap_above h (j + n - h) n hh (omega arith) (omega arith)))
  | no p ↦ rw (mod-eq-sub-mod {n = j + n - h} {m = n} (omega arith)) (
      rw (mod-eq_of_lt {n = j + n - h - n} {m = n} (omega arith))
        (omega (arith, wrap_below h (j + n - h - n) n (omega arith))))
]

empty_at :
    {A : Type 0} (b : CircularBuffer A) (q : List A) (h : Holds b q) (slots : List (Option A))
    → Slots b q h slots (λ i. none)
    → (j : ℕ) → j < b.capacity
    → get_elem? slots j ≡ some none
empty_at b q h slots s j hj =
    rw (wrap_back b.head j b.capacity h.head_in hj) at
      (s.1 ((j + b.capacity - b.head) % b.capacity) (wrap-lt _ b.capacity (omega arith)))

copy_loop_outside :
    {A : Type 0} (n capacity i : ℕ) (source slots : List (Option A))
    → length slots ≤ i
    → copy_loop (suc n) capacity i source slots ≡ none
unfolding copy_loop
copy_loop_outside n capacity i source slots le = ground arith

module _ {A : Type 0} (b other : CircularBuffer A) (p q : List A) (hb : Holds b p)
    (ho : Holds other q) where
  -- Between buffers of one capacity, `operator=` gives a buffer that holds the other's objects.
  pub assign-Holds :
      b.capacity ≡ other.capacity
      → (b' : CircularBuffer A) × (assign b other ≡ some b') × Holds b' q
  unfolding assign
  assign-Holds same =
      let (emptied, destroyed, none_left) = destroy-Slots b p hb in
      let (slots, ran, after) = copy_loop_fresh other q ho emptied (
        none_left.0 ∙ same,
        λ i hi.
            empty_at b p hb emptied none_left _
              (rw same (wrap-lt (other.head + i) other.capacity (omega arith))),
      ) in
      let test : (b.capacity == other.capacity) ≡ true = ground arith in
      (
        record other { data_slots = slots },
        rw (destroyed, test, ran),
        ring-Holds other q ho slots after,
      )

  -- `operator=` of a buffer that is not empty into one whose storage ends before the other's oldest
  -- object writes past the
  -- storage.
  pub assign_overflow : 0 < length q → b.capacity ≤ other.head → assign b other ≡ none
  unfolding assign
  assign_overflow some_left short =
      let (emptied, destroyed, _) = destroy-Slots b p hb in
      let test : (b.capacity == other.capacity) ≡ false = ground (arith, ho.head_in) in
      let size : other.size ≡ suc (other.size - 1) = omega (arith, ho.count) in
      rw (destroyed, test, size)
        (rw (
          copy_loop_outside (other.size - 1) other.capacity other.head other.data_slots
            (replicate b.capacity none)
            (omega (arith, length-replicate {A = Option A} b.capacity none))))
