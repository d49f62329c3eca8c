-- ===== src/Stdlib/Clib/Tests.antt =====
-- Moving memory and writing numbers, at concrete inputs.
use cyan_oskernel.Prelude.{ℕ, ◌≡◌, refl, some, List, [], ◌∷◌, arith}
use cyan_oskernel.Stdlib.Clib.{memmove, itoa}
use cyan_oskernel.Stdlib.Clib.Moves.{Copied, memmove-Copied}

-- The two areas overlap.
memmove-Copied_example :
    (after : List ℕ) × (memmove 1 0 3 (1 ∷ 2 ∷ 3 ∷ 4 ∷ []) ≡ some after)
    × Copied 1 0 3 (1 ∷ 2 ∷ 3 ∷ 4 ∷ []) (1 ∷ 2 ∷ 3 ∷ 4 ∷ []) after
memmove-Copied_example = memmove-Copied 3 1 0 (1 ∷ 2 ∷ 3 ∷ 4 ∷ []) (omega arith) (omega arith)

memmove_down : memmove 1 0 3 (1 ∷ 2 ∷ 3 ∷ 4 ∷ []) ≡ some (1 ∷ 1 ∷ 2 ∷ 3 ∷ [])
unfolding memmove
memmove_down = refl

memmove_up : memmove 0 1 3 (1 ∷ 2 ∷ 3 ∷ 4 ∷ []) ≡ some (2 ∷ 3 ∷ 4 ∷ 4 ∷ [])
unfolding memmove
memmove_up = refl

-- "7ea".
itoa_text : itoa 2026 16 ≡ some (55 ∷ 101 ∷ 97 ∷ 0 ∷ [])
unfolding itoa
itoa_text = refl
