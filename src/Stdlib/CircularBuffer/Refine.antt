-- ===== src/Stdlib/CircularBuffer/Refine.antt =====
-- A circular buffer behaves as the bounded queue of the objects that it holds.
use cyan_oskernel.Prelude.{
  ℕ, suc, ◌+◌, ◌-◌, ◌%◌, ◌^◌, ◌≤◌, ◌<◌, ◌≡◌, refl, ap, ◌∙◌, none, some, List, [], ◌∷◌, ◌++◌, arith,
  length, get_elem?, set, length-set, length-append, get_elem?-set, get_elem?-append_one,
  get_elem?-beyond, get_elem?-replicate, length-replicate,
}
use native.Mathlib.Nat.{mod-eq_of_lt, mod-eq-sub-mod, mod-add-mod}
use native.Mathlib.Decide.{dec_lt}
use cyan_oskernel.Stdlib.CircularBuffer.{CircularBuffer, size_add, queue, dequeue, construct}

-- The buffer holds the objects `q`, oldest first: the slot at distance `i` from `head` holds the
-- `i`-th of them, and the slots beyond hold none.
pub record Holds {ℓ} {A : Type ℓ} (b : CircularBuffer A) (q : List A) : Type ℓ where
  pub storage : length b.data_slots ≡ b.capacity
  pub small : b.capacity < 2 ^ 32
  pub head_in : b.head < b.capacity
  pub count : b.size ≡ length q
  pub fits : b.size ≤ b.capacity
  pub tail_at : b.tail ≡ (b.head + b.size) % b.capacity
  pub slots :
      (i : ℕ)
      → i < b.capacity
      → get_elem? b.data_slots ((b.head + i) % b.capacity) ≡ some (get_elem? q i)

-- Where the slot at distance `i` from `h` stands, in the ring of `n` slots.
pub wrap_below : (h i n : ℕ) → h + i < n → (h + i) % n ≡ h + i
wrap_below h i n lt = mod-eq_of_lt lt

pub wrap_above : (h i n : ℕ) → h < n → i ≤ n → n ≤ h + i → (h + i) % n ≡ h + i - n
wrap_above h i n hh hi le = omega (
  arith,
  mod-eq-sub-mod {n = h + i} {m = n} le,
  mod-eq_of_lt {n = h + i - n} {m = n} (omega arith),
)

-- Slots at different distances are different.
pub wrap-injective : (h i j n : ℕ) → h < n → i < n → j < n → (h + i) % n ≡ (h + j) % n → i ≡ j
wrap-injective h i j n hh hi hj e = elim (dec_lt (h + i) n) [
  | yes p ↦ elim (dec_lt (h + j) n) [
    | yes q ↦ omega (arith, wrap_below h i n p, wrap_below h j n q)
    | no q ↦ omega (arith, wrap_below h i n p, wrap_above h j n hh (omega arith) (omega arith))
  ]
  | no p ↦ elim (dec_lt (h + j) n) [
    | yes q ↦ omega (arith, wrap_above h i n hh (omega arith) (omega arith), wrap_below h j n q)
    | no q ↦ omega (
      arith,
      wrap_above h i n hh (omega arith) (omega arith),
      wrap_above h j n hh (omega arith) (omega arith),
    )
  ]
]

-- One step round the ring is one step further from `h`.
pub wrap-step : (h i n : ℕ) → 0 < n → ((h + 1) % n + i) % n ≡ (h + suc i) % n
wrap-step h i n p = rw mod-add-mod (ap (λ k. k % n) (omega arith))

pub wrap-lt : (k n : ℕ) → 0 < n → k % n < n
wrap-lt k n p = omega arith

module _ {A : Type 0} where
  -- A new buffer is empty.
  pub construct-Holds : (n : ℕ) → 0 < n → n < 2 ^ 32 → Holds (construct A n) []
  unfolding construct
  construct-Holds n pos lt = record {
    storage = length-replicate n none;
    small = lt;
    head_in = pos;
    count = refl;
    fits = omega arith;
    tail_at = omega arith;
    slots = λ i h. get_elem?-replicate n none ((0 + i) % n) (wrap-lt (0 + i) n pos);
  }

  module _ (b : CircularBuffer A) (q : List A) (h : Holds b q) where
    pub tail-lt : b.tail < b.capacity
    tail-lt = omega (arith, h.tail_at, wrap-lt (b.head + b.size) b.capacity (omega arith))

    next_tail :
        b.size < b.capacity
        → size_add b.tail 1 % b.capacity ≡ (b.head + size_add b.size 1) % b.capacity
    next_tail room =
        rw (tail_step, size_step, h.tail_at, mod-add-mod) (ap (λ k. k % b.capacity) (omega arith))
      where
        tail_step : size_add b.tail 1 ≡ b.tail + 1
        tail_step = omega (arith, tail-lt)

        size_step : size_add b.size 1 ≡ b.size + 1
        size_step = omega arith

    -- The write at `tail` adds the object at distance `size`.
    write-slots :
        (x : A)
        → b.size < b.capacity
        → (i : ℕ) → i < b.capacity
        → get_elem? (set b.data_slots b.tail (some x)) ((b.head + i) % b.capacity)
          ≡ some (get_elem? (q ++ x ∷ []) i)
    write-slots x room i hi = ground (
      arith,
      get_elem?-set b.data_slots b.tail ((b.head + i) % b.capacity) (some x),
      tail-lt,
      get_elem?-append_one q x i,
      h.slots i,
      wrap-injective b.head b.size i b.capacity,
    )

    -- The slot at `head` holds the oldest object.
    head_slot : get_elem? b.data_slots b.head ≡ some (get_elem? q 0)
    head_slot = ground (arith, h.slots 0, wrap_below b.head 0 b.capacity)

  -- `queue` on a buffer that is not full appends the object.
  pub queue-refines :
      (b : CircularBuffer A) (q : List A) (x : A)
      → Holds b q
      → length q < b.capacity
      → (b' : CircularBuffer A) × (queue b x ≡ some b')
        × Holds b' (q ++ x ∷ [])
        × (b'.capacity ≡ b.capacity)
  unfolding queue
  queue-refines b q x h room = (
    record b {
      data_slots = set b.data_slots b.tail (some x);
      tail = size_add b.tail 1 % b.capacity;
      size = size_add b.size 1;
    },
    ground (arith, tail-lt b q h),
    record {
      storage = length-set b.data_slots b.tail (some x) ∙ h.storage;
      small = h.small;
      head_in = h.head_in;
      count = omega (arith, length-append q (x ∷ []));
      fits = omega arith;
      tail_at = next_tail b q h (omega arith);
      slots = write-slots b q h x (omega arith);
    },
    refl,
  )

  -- `queue` on a full buffer fails its ASSERT.
  pub queue_full :
      (b : CircularBuffer A) (q : List A) (x : A)
      → Holds b q
      → length q ≡ b.capacity
      → queue b x ≡ none
  unfolding queue
  queue_full b q x h full = ground arith

  module _ (b : CircularBuffer A) (x : A) (q : List A) (h : Holds b (x ∷ q)) where
    next_head : size_add b.head 1 ≡ b.head + 1
    next_head = omega arith

    next_head_tail : b.tail ≡ (size_add b.head 1 % b.capacity + (b.size - 1)) % b.capacity
    next_head_tail =
        rw (next_head, wrap-step b.head (b.size - 1) b.capacity (omega arith), h.tail_at)
          (ap (λ k. (b.head + k) % b.capacity) (omega arith))

    -- Destroying the slot at `head` and stepping on leaves the younger objects.
    destroy-slots :
        (i : ℕ)
        → i < b.capacity
        → get_elem? (set b.data_slots b.head none) (((b.head + 1) % b.capacity + i) % b.capacity)
          ≡ some (get_elem? q i)
    destroy-slots i hi = elim (dec_lt (suc i) b.capacity) [
      | yes inside ↦ ground (
        arith,
        wrap-step b.head i b.capacity,
        get_elem?-set b.data_slots b.head ((b.head + suc i) % b.capacity) none,
        h.slots (suc i),
        wrap_below b.head 0 b.capacity,
        wrap-injective b.head 0 (suc i) b.capacity,
      )
      | no last ↦ ground (
        arith,
        wrap-step b.head i b.capacity,
        wrap_above b.head (suc i) b.capacity,
        get_elem?-set b.data_slots b.head b.head none,
        get_elem?-beyond q i,
      )
    ]

    -- `dequeue` on a buffer that is not empty returns the oldest object and keeps the others.
    pub dequeue-refines :
        (b' : CircularBuffer A) × (dequeue b ≡ some (x, b'))
        × Holds b' q
        × (b'.capacity ≡ b.capacity)
    unfolding dequeue
    dequeue-refines = (
      record b {
        data_slots = set b.data_slots b.head none;
        head = size_add b.head 1 % b.capacity;
        size = b.size - 1;
      },
      ground (arith, head_slot b (x ∷ q) h),
      record {
        storage = length-set b.data_slots b.head none ∙ h.storage;
        small = h.small;
        head_in = wrap-lt (size_add b.head 1) b.capacity (omega arith);
        count = omega arith;
        fits = omega arith;
        tail_at = next_head_tail;
        slots = rw next_head destroy-slots;
      },
      refl,
    )

  -- `dequeue` on an empty buffer fails its ASSERT.
  pub dequeue_empty : (b : CircularBuffer A) → Holds b [] → dequeue b ≡ none
  unfolding dequeue
  dequeue_empty b h = ground arith
