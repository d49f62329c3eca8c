-- ===== src/Stdlib/Vector.antt =====
-- `libraries/stdlib/vector.h`: a sequence in raw storage that grows. `size_t` is 32 bits wide. An
-- iterator is the index that it holds; `none` is a failed ASSERT, or an access outside of the
-- storage or to a slot without an object. Giving memory back is left out.
pub mod Slots
pub mod Refine
pub mod Insert
pub mod Remove
mod Tests
use cyan_oskernel.Prelude.{
  ℕ, zero, suc, ◌+◌, ◌-◌, ◌%◌, ◌^◌, Bool, true, false, not, Option, none, some, List, [], ◌==◌, leb,
  ltb, if◌then◌else◌, replicate, ◌>>=◌, ◌>>◌, assert,
}
use cyan_oskernel.Stdlib.CircularBuffer.{read_slot, write_slot, destroy_slot}

-- A slot of `storage` is `none` while it holds no constructed object. `trivial` says of the type of
-- the objects whether an assignment needs no object there, as that of numbers and pointers.
pub record Vector {ℓ} (A : Type ℓ) : Type ℓ where
  pub storage : List (Option A)
  pub count : ℕ
  pub capacity : ℕ
  pub allocation_steps : ℕ
  pub trivial : Bool

module _ {ℓ} {A : Type ℓ} where
  -- The loops that construct objects in other storage, `offset` slots on, from index `i` on, with
  -- the rounds left: those of `realloc`, `realloc_with_free_spot` and `copy_storage`.
  pub copy_slots : ℕ → ℕ → ℕ → List (Option A) → List (Option A) → Option (List (Option A))
  copy_slots zero i offset source slots = some slots
  copy_slots (suc n) i offset source slots =
      elim (read_slot source i >>= write_slot slots (i + offset)) [
        | none ↦ none
        | some slots' ↦ copy_slots n (suc i) offset source slots'
      ]

  -- The loop of `destruct_used_objects`.
  pub destroy_slots : ℕ → ℕ → List (Option A) → Option (List (Option A))
  destroy_slots zero i slots = some slots
  destroy_slots (suc n) i slots = elim (destroy_slot slots i) [
    | none ↦ none
    | some slots' ↦ destroy_slots n (suc i) slots'
  ]

  -- `m_storage[i] = move(x)`.
  abbrev pub assign_slot : Bool → List (Option A) → ℕ → A → Option (List (Option A))
  assign_slot true slots i x = write_slot slots i x
  assign_slot false slots i x = read_slot slots i >>= λ _. write_slot slots i x

  -- The loop of `make_free_spot`, at index `suc i`.
  pub shift_up : Bool → ℕ → ℕ → List (Option A) → Option (List (Option A))
  shift_up b zero i slots = some slots
  shift_up b (suc n) zero slots = none
  shift_up b (suc n) (suc i) slots =
      elim (read_slot slots i >>= λ x.
      assign_slot b slots (suc i) x >>= λ slots'. destroy_slot slots' i) [
        | none ↦ none
        | some slots' ↦ shift_up b n i slots'
      ]

  -- The loop of `remove`.
  pub shift_down : ℕ → ℕ → List (Option A) → Option (List (Option A))
  shift_down zero i slots = some slots
  shift_down (suc n) i slots = elim (read_slot slots (suc i) >>= write_slot slots i) [
    | none ↦ none
    | some slots' ↦ shift_down n (suc i) slots'
  ]

  pub destruct_used_objects : Vector A → Option (List (Option A))
  unfolding destroy_slots
  destruct_used_objects v = destroy_slots v.count 0 v.storage

  pub realloc : Vector A → ℕ → Option (Vector A)
  unfolding copy_slots destruct_used_objects
  realloc v new_capacity = do
    assert (not (new_capacity == 0))
    assert (ltb v.capacity new_capacity)
    new_storage ← copy_slots v.count 0 0 v.storage (replicate new_capacity none)
    _ ← destruct_used_objects v
    some (record v { capacity = new_capacity; storage = new_storage })

  pub realloc_with_free_spot : Vector A → ℕ → ℕ → Option (Vector A)
  unfolding copy_slots destruct_used_objects
  realloc_with_free_spot v new_capacity free_spot_index = do
    assert (leb (v.count + 1) new_capacity)
    assert (leb free_spot_index v.count)
    assert (ltb v.capacity new_capacity)
    new_storage ← copy_slots free_spot_index 0 0 v.storage (replicate new_capacity none)
    new_storage ← copy_slots (v.count - free_spot_index) free_spot_index 1 v.storage new_storage
    _ ← destruct_used_objects v
    some (record v { capacity = new_capacity; storage = new_storage })

  pub make_free_spot : Vector A → ℕ → Option (Vector A)
  unfolding shift_up
  make_free_spot v free_spot_index = do
    slots ← shift_up v.trivial (v.count - free_spot_index) v.count v.storage
    some (record v { storage = slots })

  -- The room that `emplace` and `insert` make at an index.
  pub make_room : Vector A → ℕ → Option (Vector A)
  unfolding realloc_with_free_spot make_free_spot
  make_room v pos =
      if v.count == v.capacity
      then realloc_with_free_spot v ((v.capacity + v.allocation_steps) % 2 ^ 32) pos
      else make_free_spot v pos

  -- `emplace` of a constructed object, and `insert`, whose body is the same.
  pub insert : Vector A → ℕ → A → Option (Vector A)
  unfolding make_room
  insert v pos x = do
    v ← make_room v pos
    slots ← write_slot v.storage pos x
    some (record v { storage = slots; count = v.count + 1 })

  pub push_back : Vector A → A → Option (Vector A)
  unfolding insert
  push_back v x = insert v v.count x

  pub push_front : Vector A → A → Option (Vector A)
  unfolding insert
  push_front v x = insert v 0 x

  pub remove : Vector A → ℕ → Option (Vector A)
  unfolding shift_down
  remove v pos = do
    _ ← read_slot v.storage pos
    slots ← shift_down (v.count - 1 - pos) pos v.storage
    slots ← destroy_slot slots (v.count - 1)
    some (record v { storage = slots; count = v.count - 1 })

  -- The loop of `remove_if`, with the objects left: a round removes one, or steps past it.
  pub remove_if_loop : (A → Bool) → ℕ → ℕ → Bool → Vector A → Option (Bool × Vector A)
  unfolding remove
  remove_if_loop predicate zero i is_removed v = some (is_removed, v)
  remove_if_loop predicate (suc n) i is_removed v = elim (read_slot v.storage i) [
    | none ↦ none
    | some x ↦ elim (predicate x) [
      | true ↦ elim (remove v i) [ none ↦ none | some v' ↦ remove_if_loop predicate n i true v' ]
      | false ↦ remove_if_loop predicate n (suc i) is_removed v
    ]
  ]

  pub remove_if : (A → Bool) → Vector A → Option (Bool × Vector A)
  unfolding remove_if_loop
  remove_if predicate v = remove_if_loop predicate v.count 0 false v

  -- The loop of `find_if`; the end is the count.
  pub find_if_loop : (A → Bool) → ℕ → ℕ → List (Option A) → Option ℕ
  find_if_loop predicate zero i slots = some i
  find_if_loop predicate (suc n) i slots = elim (read_slot slots i) [
    | none ↦ none
    | some x ↦ elim (predicate x) [ true ↦ some i | false ↦ find_if_loop predicate n (suc i) slots ]
  ]

  pub find_if : (A → Bool) → Vector A → Option ℕ
  unfolding find_if_loop
  find_if predicate v = find_if_loop predicate v.count 0 v.storage

  pub reserve : Vector A → ℕ → Option (Vector A)
  unfolding realloc
  reserve v size = if ltb v.capacity size then realloc v size else some v

  pub clear : Vector A → Option (Vector A)
  unfolding destruct_used_objects
  clear v = do slots ← destruct_used_objects v; some (record v { storage = slots; count = 0 })

  -- `operator[]`.
  pub at : Vector A → ℕ → Option A
  at v index = do assert (ltb index v.count); read_slot v.storage index

  -- The copy constructor: the storage ends at the last object, whatever the capacity says.
  pub copy : Vector A → Option (Vector A)
  unfolding copy_slots
  copy other = do
    slots ← copy_slots other.count 0 0 other.storage (replicate other.count none)
    some (record other { storage = slots })

pub construct {ℓ} : (A : Type ℓ) → Bool → ℕ → ℕ → Option (Vector A)
unfolding realloc
construct A trivial reserved_size allocation_steps = do
  assert (not (reserved_size == 0))
  assert (not (allocation_steps == 0))
  realloc
      (record {
        storage = [];
        count = 0;
        capacity = 0;
        allocation_steps = allocation_steps;
        trivial = trivial;
      })
      reserved_size
