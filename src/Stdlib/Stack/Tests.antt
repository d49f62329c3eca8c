-- ===== src/Stdlib/Stack/Tests.antt =====
-- The theorems of the stack, at a concrete stack.
use cyan_oskernel.Prelude.{ℕ, zero, suc, ◌<◌, ◌≡◌, refl, none, some, [], ◌∷◌, arith, get_elem?}
use cyan_oskernel.Stdlib.Stack.{Stack}
use cyan_oskernel.Stdlib.Stack.Refine.{Holds}

abbrev pair : Stack ℕ
pair = record { storage = some 4 ∷ some 7 ∷ none ∷ []; size = 2; capacity = 3 }

pair_slot : (i : ℕ) → i < 3 → get_elem? pair.storage i ≡ some (get_elem? (4 ∷ 7 ∷ []) i)
pair_slot zero lt = refl
pair_slot (suc zero) lt = refl
pair_slot (suc (suc zero)) lt = refl
pair_slot (suc (suc (suc i))) lt = absurd (omega arith)

pair-Holds : Holds pair (4 ∷ 7 ∷ [])
pair-Holds = record {
  storage = refl;
  small = omega arith;
  count = refl;
  fits = omega arith;
  slots = pair_slot;
}
