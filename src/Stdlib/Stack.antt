-- ===== src/Stdlib/Stack.antt =====
-- `libraries/stdlib/stack.h`: a stack of fixed capacity in raw storage. `size_t` is 32 bits wide;
-- `none` is a failed ASSERT, or an access outside of the storage or to a slot without an object.
-- Giving memory back is left out; the loops over the storage are those of the vector.
pub mod Refine
mod Tests
use cyan_oskernel.Prelude.{
  ℕ, zero, suc, ◌+◌, ◌-◌, ◌%◌, ◌^◌, Bool, not, Option, none, some, List, [], ◌==◌, if◌then◌else◌,
  replicate, ◌>>=◌, ◌>>◌, assert,
}
use cyan_oskernel.Stdlib.CircularBuffer.{read_slot, write_slot, destroy_slot}
use cyan_oskernel.Stdlib.Vector.{copy_slots, destroy_slots}

pub record Stack {ℓ} (A : Type ℓ) : Type ℓ where
  pub storage : List (Option A)
  pub size : ℕ
  pub capacity : ℕ

module _ {ℓ} {A : Type ℓ} where
  pub is_empty : Stack A → Bool
  is_empty s = s.size == 0

  pub is_full : Stack A → Bool
  is_full s = s.size == s.capacity

  pub available_size : Stack A → ℕ
  available_size s = (s.capacity + 2 ^ 32 - s.size) % 2 ^ 32

  pub push : Stack A → A → Option (Stack A)
  unfolding is_full
  push s x = do
    assert (not (is_full s))
    slots ← write_slot s.storage s.size x
    some (record s { storage = slots; size = (s.size + 1) % 2 ^ 32 })

  -- `m_size - 1` is taken only at `m_size ≠ 0`.
  pub pop : Stack A → Option (A × Stack A)
  unfolding is_empty
  pop s = do
    assert (not (is_empty s))
    ret_data ← read_slot s.storage (s.size - 1)
    slots ← destroy_slot s.storage (s.size - 1)
    some (ret_data, record s { storage = slots; size = s.size - 1 })

  pub back : Stack A → Option A
  back s = read_slot s.storage ((s.size + 2 ^ 32 - 1) % 2 ^ 32)

  -- The copy constructor.
  pub copy : Stack A → Option (Stack A)
  copy other = do
    slots ← copy_slots other.size 0 0 other.storage (replicate other.capacity none)
    some (record other { storage = slots })

  -- `operator=(const Stack&)` of two distinct objects. The new storage has the old capacity of `s`.
  pub assign : Stack A → Stack A → Option (Stack A)
  assign s other = do
    emptied ← destroy_slots s.size 0 s.storage
    slots ←
        copy_slots other.size 0 0 other.storage
          (if s.capacity == other.capacity then emptied else replicate s.capacity none)
    some (record other { storage = slots })

  -- `Stack(Stack&&)`: the new stack, and what is left of the other, whose `m_data` is null.
  pub move_from : Stack A → Stack A × Stack A
  move_from other = (other, record other { storage = []; size = 0 })

pub construct {ℓ} : (A : Type ℓ) → ℕ → Stack A
construct A capacity = record { storage = replicate capacity none; size = 0; capacity = capacity }
