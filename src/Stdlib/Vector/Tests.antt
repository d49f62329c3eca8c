-- ===== src/Stdlib/Vector/Tests.antt =====
-- The theorems of the vector, at a concrete vector.
use cyan_oskernel.Prelude.{
  ℕ, zero, suc, ◌<◌, ◌≡◌, inl, refl, Bool, true, none, some, [], ◌∷◌, arith, ◌==◌, get_elem?,
}
use cyan_oskernel.Stdlib.Vector.{Vector, insert, remove_if, copy}
use cyan_oskernel.Stdlib.Vector.Refine.{Holds}
use cyan_oskernel.Stdlib.Vector.Insert.{insert-Holds}
use cyan_oskernel.Stdlib.Vector.Remove.{remove_if-Holds, any, filter_out}

-- Two objects, and room for a third.
abbrev pair : Vector ℕ
pair = record {
  storage = some 4 ∷ some 7 ∷ none ∷ [];
  count = 2;
  capacity = 3;
  allocation_steps = 1;
  trivial = true;
}

pair_slot : (i : ℕ) → i < 3 → get_elem? pair.storage i ≡ some (get_elem? (4 ∷ 7 ∷ []) i)
pair_slot zero lt = refl
pair_slot (suc zero) lt = refl
pair_slot (suc (suc zero)) lt = refl
pair_slot (suc (suc (suc i))) lt = absurd (omega arith)

pair-Holds : Holds pair (4 ∷ 7 ∷ [])
pair-Holds = record {
  storage = refl;
  small = omega arith;
  steps = omega arith;
  count = refl;
  fits = omega arith;
  slots = pair_slot;
}

insert-Holds_example : (v' : Vector ℕ) × (insert pair 1 9 ≡ some v') × Holds v' (4 ∷ 9 ∷ 7 ∷ [])
insert-Holds_example =
    insert-Holds pair (4 ∷ 7 ∷ []) pair-Holds 1 9 (omega arith) (omega arith) (inl refl)

abbrev is_four : ℕ → Bool
is_four n = n == 4

remove_if-Holds_example :
    (v' : Vector ℕ) × (remove_if is_four pair ≡ some (true, v')) × Holds v' (7 ∷ [])
unfolding any filter_out
remove_if-Holds_example = remove_if-Holds is_four pair (4 ∷ 7 ∷ []) pair-Holds

-- The copy has storage for two objects.
abbrev copied : Vector ℕ
copied = record pair { storage = some 4 ∷ some 7 ∷ [] }

copied-pair : copy pair ≡ some copied
unfolding copy
copied-pair = refl
