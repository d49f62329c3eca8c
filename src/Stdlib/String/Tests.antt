-- ===== src/Stdlib/String/Tests.antt =====
-- Strings, at concrete inputs.
use cyan_oskernel.Prelude.{ℕ, ◌≤◌, ◌≡◌, refl, not, some, [], ◌∷◌, arith, ◌==◌}
use cyan_oskernel.Stdlib.Clib.{memcpy, memmove, strlen}
use cyan_oskernel.Stdlib.Clib.Moves.{byte}
use cyan_oskernel.Stdlib.StringView.{from, memcmp}
use cyan_oskernel.Stdlib.String.{String, insert, erase, erase_if, append_char, rfind}
use cyan_oskernel.Stdlib.String.Insert.{IsString}
use cyan_oskernel.Stdlib.String.Erase.{erase-insert}

-- "ab" and "xyz".
abbrev ab : String
ab = record { m_size = 2; m_data = 97 ∷ 98 ∷ 0 ∷ [] }

abbrev xyz : String
xyz = record { m_size = 3; m_data = 120 ∷ 121 ∷ 122 ∷ 0 ∷ [] }

ab-IsString : IsString ab
ab-IsString = record { storage = refl; terminated = refl; small = omega arith }

xyz-IsString : IsString xyz
xyz-IsString = record { storage = refl; terminated = refl; small = omega arith }

erase-insert_example :
    (after back : String) × (insert 1 xyz ab ≡ some after)
    × (erase 1 3 after ≡ some back)
    × (back.m_size ≡ 2)
    × ((j : ℕ) → j ≤ 2 → byte back.m_data j ≡ byte ab.m_data j)
erase-insert_example = erase-insert 1 xyz ab xyz-IsString ab-IsString (omega arith)

-- "axyzb".
insert_text :
    insert 1 xyz ab ≡ some (record { m_size = 5; m_data = 97 ∷ 120 ∷ 121 ∷ 122 ∷ 98 ∷ 0 ∷ [] })
unfolding insert memcpy from
insert_text = refl

erase_if_text :
    erase_if (λ c. not (c == 120)) xyz ≡ some (record { m_size = 1; m_data = 120 ∷ 0 ∷ 0 ∷ 0 ∷ [] })
unfolding erase_if memmove
erase_if_text = refl

rfind_text : rfind ab 2 ab ≡ some 0
unfolding rfind memcmp from
rfind_text = refl

-- `+=` of a character takes what lies behind it in memory as well.
append_char_text :
    append_char 99 (100 ∷ 0 ∷ []) ab
    ≡ some (record { m_size = 4; m_data = 97 ∷ 98 ∷ 99 ∷ 100 ∷ 0 ∷ [] })
unfolding append_char strlen memcpy from
append_char_text = refl
