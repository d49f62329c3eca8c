-- ===== src/Stdlib/CircularBuffer.antt =====
-- `libraries/stdlib/circular_buffer.h`: a queue of fixed capacity in a ring of raw storage.
-- `size_t` is 32 bits wide. `none` is a failed ASSERT, a division by zero or an access outside of
-- the storage or to a slot without an object. Giving memory back (`operator delete`) is left out.
pub mod Refine
pub mod Copy
use cyan_oskernel.Prelude.{
  ℕ, zero, suc, ◌+◌, ◌-◌, ◌%◌, ◌^◌, Bool, Option, none, some, List, ◌==◌, if◌then◌else◌, not,
  length, get_elem?, set, replicate, ltb, ◌>>=◌, ◌>>◌, assert,
}

-- A slot of `data` is `none` while it holds no constructed object.
pub record CircularBuffer {ℓ} (A : Type ℓ) : Type ℓ where
  pub data_slots : List (Option A)
  pub head : ℕ
  pub tail : ℕ
  pub size : ℕ
  pub capacity : ℕ

abbrev pub size_add : ℕ → ℕ → ℕ
size_add a b = (a + b) % 2 ^ 32

module _ {ℓ} {A : Type ℓ} where
  -- `m_data[i]` of a slot that holds an object.
  abbrev pub read_slot : List (Option A) → ℕ → Option A
  read_slot slots i = elim (get_elem? slots i) [ none ↦ none | some o ↦ o ]

  -- `new (&m_data[i]) T{x}`.
  abbrev pub write_slot : List (Option A) → ℕ → A → Option (List (Option A))
  write_slot slots i x = if ltb i (length slots) then some (set slots i (some x)) else none

  -- `m_data[i].~T()`.
  abbrev pub destroy_slot : List (Option A) → ℕ → Option (List (Option A))
  destroy_slot slots i = read_slot slots i >>= λ _. some (set slots i none)

  pub is_empty : CircularBuffer A → Bool
  is_empty b = b.size == 0

  pub is_full : CircularBuffer A → Bool
  is_full b = b.size == b.capacity

  unfoldable pub available_size : CircularBuffer A → ℕ
  available_size b = (b.capacity + 2 ^ 32 - b.size) % 2 ^ 32

  pub queue : CircularBuffer A → A → Option (CircularBuffer A)
  unfolding is_full
  queue b x = do
    assert (not (is_full b))
    slots ← write_slot b.data_slots b.tail x
    some (record b {
      data_slots = slots;
      tail = size_add b.tail 1 % b.capacity;
      size = size_add b.size 1;
    })

  -- `m_size--` runs only at `m_size ≠ 0`.
  pub dequeue : CircularBuffer A → Option (A × CircularBuffer A)
  unfolding is_empty
  dequeue b = do
    assert (not (is_empty b))
    ret_data ← read_slot b.data_slots b.head
    slots ← destroy_slot b.data_slots b.head
    some (
      ret_data,
      record b { data_slots = slots; head = size_add b.head 1 % b.capacity; size = b.size - 1 },
    )

  pub front : CircularBuffer A → Option A
  unfolding is_empty
  front b = do assert (not (is_empty b)); read_slot b.data_slots b.head

  pub back : CircularBuffer A → Option A
  unfolding is_empty
  back b = do
    assert (not (is_empty b))
    read_slot b.data_slots (if b.tail == 0 then b.capacity - 1 else b.tail - 1)

  -- The loop of `destroy_used_objects`, with the rounds left.
  pub destroy_loop : ℕ → ℕ → ℕ → List (Option A) → Option (List (Option A))
  destroy_loop zero capacity index slots = some slots
  destroy_loop (suc n) capacity index slots = elim (destroy_slot slots index) [
    | none ↦ none
    | some slots' ↦ destroy_loop n capacity (size_add index 1 % capacity) slots'
  ]

  pub destroy_used_objects : CircularBuffer A → Option (CircularBuffer A)
  unfolding destroy_loop
  destroy_used_objects b = do
    slots ← destroy_loop b.size b.capacity b.head b.data_slots
    some (record b { data_slots = slots })

  -- The loop that copies the objects of `source`, each to the same index.
  pub copy_loop : ℕ → ℕ → ℕ → List (Option A) → List (Option A) → Option (List (Option A))
  copy_loop zero capacity index source slots = some slots
  copy_loop (suc n) capacity index source slots =
      elim (read_slot source index >>= write_slot slots index) [
        | none ↦ none
        | some slots' ↦ copy_loop n capacity (size_add index 1 % capacity) source slots'
      ]

  -- The copy constructor.
  pub copy : CircularBuffer A → Option (CircularBuffer A)
  unfolding copy_loop
  copy other = do
    slots ←
        copy_loop other.size other.capacity other.head other.data_slots
          (replicate other.capacity none)
    some (record other { data_slots = slots })

  -- `operator=(const CircularBuffer&)` of two distinct objects. The new storage has the old
  -- capacity of `b`.
  pub assign : CircularBuffer A → CircularBuffer A → Option (CircularBuffer A)
  unfolding destroy_used_objects copy_loop
  assign b other = do
    emptied ← destroy_used_objects b
    slots ←
        copy_loop other.size other.capacity other.head other.data_slots
          (if b.capacity == other.capacity then emptied.data_slots else replicate b.capacity none)
    some (record other { data_slots = slots })

-- `CircularBuffer(size_t size)`.
unfoldable pub construct {ℓ} : (A : Type ℓ) → ℕ → CircularBuffer A
construct A size = record {
  data_slots = replicate size none;
  head = 0;
  tail = 0;
  size = 0;
  capacity = size;
}
