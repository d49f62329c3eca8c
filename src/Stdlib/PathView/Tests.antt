-- ===== src/Stdlib/PathView/Tests.antt =====
-- The theorems of views and paths, at concrete strings.
use cyan_oskernel.Prelude.{
  ◌+◌, ◌≡◌, negsuc, refl, ◌&&◌, some, [], ◌∷◌, arith, ◌==◌, if◌then◌else◌, ◌>>=◌,
}
use cyan_oskernel.Stdlib.StringView.{StringView, find, find_char, substr, memcmp, from}
use cyan_oskernel.Stdlib.StringView.Find.{IsView, Found, find-Found}
use cyan_oskernel.Stdlib.PathView.{
  spliter, construct, count_elements, element, skip, get_element_from_full_path, resolve,
}
use cyan_oskernel.Stdlib.PathView.Count.{slashes, count_elements-slashes}

-- `/ab/c`, with its zero.
abbrev path : StringView
path = record { m_size = 5; m_data = 47 ∷ 97 ∷ 98 ∷ 47 ∷ 99 ∷ 0 ∷ [] }

path-IsView : IsView path
path-IsView = record { inside = omega arith; small = omega arith }

-- `/ab/d`.
abbrev other : StringView
other = record { m_size = 5; m_data = 47 ∷ 97 ∷ 98 ∷ 47 ∷ 100 ∷ 0 ∷ [] }

other-IsView : IsView other
other-IsView = record { inside = omega arith; small = omega arith }

abbrev letter : StringView
letter = record { m_size = 1; m_data = 99 ∷ 0 ∷ [] }

letter-IsView : IsView letter
letter-IsView = record { inside = omega arith; small = omega arith }

find-Found_example : Found path letter 1 (find path letter 1)
find-Found_example = find-Found path letter path-IsView letter-IsView (omega arith) 1 (omega arith)

count_elements-slashes_example :
    count_elements path
    ≡ some (
        if 47 == spliter && 5 == 1
        then 0
        else if 47 == spliter
        then slashes 4 (97 ∷ 98 ∷ 47 ∷ 99 ∷ 0 ∷ []) + 1
        else slashes 5 (47 ∷ 97 ∷ 98 ∷ 47 ∷ 99 ∷ 0 ∷ []) + 1)
count_elements-slashes_example =
    count_elements-slashes 47 (97 ∷ 98 ∷ 47 ∷ 99 ∷ 0 ∷ []) 5 (omega arith) (omega arith)
      (omega arith)

-- The last element of `/ab/c` is `c`.
last_element :
    (construct path >>= λ p. element p (negsuc 0))
    ≡ some (record { m_size = 1; m_data = 99 ∷ 0 ∷ [] })
unfolding construct element resolve get_element_from_full_path skip find memcmp from find_char
    substr
last_element = refl
