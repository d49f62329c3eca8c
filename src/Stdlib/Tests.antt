-- ===== src/Stdlib/Tests.antt =====
-- The theorems of the containers, at concrete inputs.
use cyan_oskernel.Prelude.{
  ℕ, zero, suc, ◌<◌, ◌≡◌, refl, none, some, [], ◌∷◌, ◌+◌, ◌%◌, arith, get_elem?, bool_eq, check_bit,
}
use cyan_oskernel.Stdlib.CircularBuffer
use cyan_oskernel.Stdlib.CircularBuffer.{CircularBuffer, queue, dequeue, copy, assign}
use cyan_oskernel.Stdlib.CircularBuffer.Refine.{
  Holds, construct-Holds, queue-refines, dequeue-refines,
}
use cyan_oskernel.Stdlib.Bitmap
use cyan_oskernel.Stdlib.Bitmap.{
  Bitmap, set_range, clear_range, find_first_clear, find_first_set, find_first_clear_range,
  check_set,
}
use cyan_oskernel.Stdlib.Bitmap.Range.{IsValid, construct-IsValid}

abbrev three : CircularBuffer ℕ
three = CircularBuffer.construct ℕ 3

three-Holds : Holds three []
three-Holds = construct-Holds 3 (omega arith) (omega arith)

abbrev one_slot : CircularBuffer ℕ
one_slot = record { data_slots = some 5 ∷ []; head = 0; tail = 0; size = 1; capacity = 1 }

one_slot-Holds : Holds one_slot (5 ∷ [])
one_slot-Holds = record {
  storage = refl;
  small = omega arith;
  head_in = omega arith;
  count = refl;
  fits = omega arith;
  tail_at = refl;
  slots = λ i lt. ground arith;
}

-- The head stands in the second of two slots.
abbrev wrapped : CircularBuffer ℕ
wrapped = record { data_slots = none ∷ some 9 ∷ []; head = 1; tail = 0; size = 1; capacity = 2 }

wrapped_slot :
    (i : ℕ) → i < 2 → get_elem? wrapped.data_slots ((1 + i) % 2) ≡ some (get_elem? (9 ∷ []) i)
wrapped_slot zero lt = refl
wrapped_slot (suc zero) lt = refl
wrapped_slot (suc (suc i)) lt = absurd (omega arith)

wrapped-Holds : Holds wrapped (9 ∷ [])
wrapped-Holds = record {
  storage = refl;
  small = omega arith;
  head_in = omega arith;
  count = refl;
  fits = omega arith;
  tail_at = refl;
  slots = wrapped_slot;
}

queue-refines_example :
    (b' : CircularBuffer ℕ) × (queue three 8 ≡ some b')
    × Holds b' (8 ∷ [])
    × (b'.capacity ≡ three.capacity)
unfolding CircularBuffer.construct
queue-refines_example = queue-refines three [] 8 three-Holds (omega arith)

dequeue-refines_example :
    (b' : CircularBuffer ℕ) × (dequeue one_slot ≡ some (5, b'))
    × Holds b' []
    × (b'.capacity ≡ one_slot.capacity)
dequeue-refines_example = dequeue-refines one_slot 5 [] one_slot-Holds

abbrev twenty : Bitmap
twenty = Bitmap.construct 20

twenty-IsValid : IsValid twenty
twenty-IsValid = (construct-IsValid 20 (omega arith)).0

-- A search for four clear bits passes a full byte without starting the count again.
find_range_spans :
    find_first_clear_range (record { bitmap_size = 20; bitmap_data = 0x3F ∷ 0xFF ∷ 0 ∷ [] }) 4 0
    ≡ some 14
unfolding find_first_clear_range bool_eq check_bit
find_range_spans = refl
