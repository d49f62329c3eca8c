-- ===== src/Stdlib/Stack/Refine.antt =====
-- A stack behaves as the bounded list of its objects, the oldest first.
use cyan_oskernel.Prelude.{
  ℕ, suc, ◌+◌, ◌-◌, ◌%◌, ◌^◌, ◌≤◌, ◌<◌, ◌≡◌, refl, ◌∙◌, Option, none, some, List, [], ◌∷◌, ◌++◌,
  arith, length, get_elem?, set, replicate, length-set, length-append, get_elem?-set,
  get_elem?-beyond, get_elem?_inside, get_elem?-append_one, get_elem?-replicate, length-replicate,
}
use cyan_oskernel.Stdlib.Vector.Slots.{Objects, copy_slots_lem}
use cyan_oskernel.Stdlib.Stack
use cyan_oskernel.Stdlib.Stack.{Stack, is_full, is_empty, push, pop, copy, assign}

pub record Holds {ℓ} {A : Type ℓ} (s : Stack A) (q : List A) : Type ℓ where
  pub storage : length s.storage ≡ s.capacity
  pub small : s.capacity < 2 ^ 32
  pub count : s.size ≡ length q
  pub fits : s.size ≤ s.capacity
  pub slots : (i : ℕ) → i < s.capacity → get_elem? s.storage i ≡ some (get_elem? q i)

module _ {A : Type 0} where
  -- A new stack is empty.
  construct-Holds_stack : (n : ℕ) → n < 2 ^ 32 → Holds (Stack.construct A n) []
  unfolding Stack.construct
  construct-Holds_stack n lt = record {
    storage = length-replicate n none;
    small = lt;
    count = refl;
    fits = omega arith;
    slots = λ i h. get_elem?-replicate n none i h;
  }

  module _ (s : Stack A) (q : List A) (h : Holds s q) where
    held-Objects : Objects s.storage 0 s.size
    held-Objects j lo hi =
        let (x, got) = get_elem?_inside q j (omega (arith, h.count)) in
        (x, ground (arith, h.slots j, h.fits))

    -- `push` puts an object on top of a stack that is not full; on a full one its ASSERT fails.
    pub push-Holds :
        (x : A)
        → (length q < s.capacity
            → (s' : Stack A) × (push s x ≡ some s')
              × Holds s' (q ++ x ∷ [])
              × (s'.capacity ≡ s.capacity))
          × (length q ≡ s.capacity → push s x ≡ none)
    unfolding push is_full
    push-Holds x = (
      λ room.
          let small = h.small in
          let write = λ (i : ℕ).
            get_elem?-set s.storage s.size i (some x) (omega (arith, h.storage, h.count)) in
          (
            record s { storage = set s.storage s.size (some x); size = (s.size + 1) % 2 ^ 32 },
            ground (arith, h.storage, h.count),
            record {
              storage = length-set s.storage s.size (some x) ∙ h.storage;
              small = h.small;
              count = omega (arith, h.count, length-append q (x ∷ []));
              fits = omega (arith, h.count);
              slots = λ i lt. ground (
                arith,
                write i,
                get_elem?-append_one q x i,
                h.slots i lt,
                h.count,
                get_elem?-beyond q i,
              );
            },
            refl,
          ),
      λ full. ground (arith, h.count),
    )

    -- A copy of a stack holds the same objects.
    pub copy-Holds_stack : (s' : Stack A) × (copy s ≡ some s') × Holds s' q
    unfolding copy
    copy-Holds_stack =
        let fresh = replicate {A = Option A} s.capacity none in
        let len0 : length fresh ≡ s.capacity = length-replicate {A = Option A} s.capacity none in
        let (slots, ran, len, spots) =
          copy_slots_lem s.size 0 0 s.storage fresh held-Objects (omega (arith, h.fits)) in
        (
          record s { storage = slots },
          rw ran refl,
          record {
            storage = len ∙ len0;
            small = h.small;
            count = h.count;
            fits = h.fits;
            slots = λ i lt. ground (
              arith,
              spots i,
              h.slots i lt,
              h.count,
              get_elem?-beyond q i,
              get_elem?-replicate {A = Option A} s.capacity none i,
            );
          },
        )

  -- `pop` returns the object on top and keeps the others.
  pub pop-Holds :
      (s : Stack A) (q : List A) (x : A)
      → Holds s (q ++ x ∷ [])
      → (s' : Stack A) × (pop s ≡ some (x, s')) × Holds s' q × (s'.capacity ≡ s.capacity)
  unfolding pop is_empty
  pop-Holds s q x h =
      let size : s.size ≡ suc (length q) = omega (arith, h.count, length-append q (x ∷ [])) in
      let top : get_elem? s.storage (s.size - 1) ≡ some (some x) =
        ground (arith, h.slots (s.size - 1), h.fits, get_elem?-append_one q x (s.size - 1)) in
      let inside : s.size - 1 < length s.storage = omega (arith, h.fits, h.storage) in
      let free = λ (i : ℕ). get_elem?-set s.storage (s.size - 1) i none inside in
      (
        record s { storage = set s.storage (s.size - 1) none; size = s.size - 1 },
        ground arith,
        record {
          storage = length-set s.storage (s.size - 1) none ∙ h.storage;
          small = h.small;
          count = omega arith;
          fits = omega (arith, h.fits);
          slots = λ i lt.
              ground
                (arith, free i, h.slots i lt, get_elem?-append_one q x i, get_elem?-beyond q i);
        },
        refl,
      )
