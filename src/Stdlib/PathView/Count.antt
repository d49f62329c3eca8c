-- ===== src/Stdlib/PathView/Count.antt =====
-- How many elements a path has.
use cyan_oskernel.Prelude.{
  ℕ, zero, suc, ◌+◌, ◌-◌, ◌^◌, ◌≤◌, ◌<◌, ◌≡◌, refl, sym, ap, ◌∙◌, inl, inr, true, false, ◌&&◌,
  Option, some, List, [], ◌∷◌, arith, ◌==◌, if◌then◌else◌, Bool-cases, length, ◌>>=◌,
}
use cyan_oskernel.Stdlib.StringView.{StringView, not_found, from, find_char}
use cyan_oskernel.Stdlib.StringView.Find.{IsView, same, stands, Found, first, nowhere, find-Found}
use cyan_oskernel.Stdlib.PathView.{spliter, count_loop, count_elements}

-- How many of the first `n` bytes are slashes.
unfoldable pub slashes : ℕ → List ℕ → ℕ
slashes zero bytes = 0
slashes (suc n) [] = 0
slashes (suc n) (x ∷ bytes) = let rest = slashes n bytes in if x == spliter then suc rest else rest

abbrev slash : StringView
slash = record { m_size = 1; m_data = spliter ∷ 0 ∷ [] }

slash-IsView : IsView slash
slash-IsView = record { inside = omega arith; small = omega arith }

slashes_end : (n : ℕ) → slashes n [] ≡ 0
unfolding slashes
slashes_end zero = refl
slashes_end (suc n) = refl

from_end : (p : ℕ) → from p [] ≡ []
unfolding from
from_end zero = refl
from_end (suc p) = refl

slash_step :
    (m p : ℕ) (bytes : List ℕ)
    → slashes (suc m) (from p bytes) ≡ (
        if same 1 (from p bytes) (spliter ∷ 0 ∷ [])
        then suc (slashes m (from (suc p) bytes))
        else slashes m (from (suc p) bytes))
unfolding slashes from same
slash_step m zero [] = sym (slashes_end m)
slash_step m zero (x ∷ bytes) = ground arith
slash_step m (suc p) [] = sym (slashes_end m)
slash_step m (suc p) (x ∷ bytes) = slash_step m p bytes

no_bytes : (bytes : List ℕ) → slashes 0 bytes ≡ 0
unfolding slashes
no_bytes bytes = refl

-- The slashes from one position are those up to another and those from it on.
none_between :
    (n m : ℕ) (path : StringView) (p : ℕ)
    → ((j : ℕ) → p ≤ j → j < p + n → stands path slash j ≡ false)
    → slashes (n + m) (from p path.m_data) ≡ slashes m (from (p + n) path.m_data)
none_between zero m path p free =
    ap (λ (i : ℕ). slashes i (from p path.m_data)) (omega arith)
    ∙ ap (λ (i : ℕ). slashes m (from i path.m_data)) (omega arith)
none_between (suc n) m path p free =
    ap (λ (i : ℕ). slashes i (from p path.m_data)) (omega arith)
    ∙ slash_step (n + m) p path.m_data
    ∙ rw (free p (omega arith) (omega arith)) refl
    ∙ none_between n m path (suc p) (λ j above below. free j (omega arith) (omega arith))
    ∙ ap (λ (i : ℕ). slashes m (from i path.m_data)) (omega arith)

one_more :
    (m : ℕ) (path : StringView) (p : ℕ)
    → stands path slash p ≡ true
    → slashes (suc m) (from p path.m_data) ≡ suc (slashes m (from (suc p) path.m_data))
one_more m path p st = slash_step m p path.m_data ∙ rw st refl

module _ (path : StringView) (iv : IsView path) (some_bytes : 1 ≤ path.m_size) where
  abbrev rest_of : ℕ → ℕ
  rest_of p = slashes (path.m_size - p) (from p path.m_data)

  count_found :
      (n p c : ℕ) (r : Option ℕ)
      → Found path slash p r
      → p ≤ path.m_size
      → path.m_size ≤ p + n
      → ((q : ℕ)
          → p < q
          → q ≤ path.m_size
          → count_loop n q (c + 1) path ≡ some (c + 1 + rest_of q + 1))
      → (r >>= λ found. elim (found == not_found) [
        | true ↦ some (c + 1)
        | false ↦ count_loop n (suc found) (c + 1) path
      ])
        ≡ some (c + rest_of p + 1)
  count_found n p c r (first i le fits st free) inside enough next =
      ap (λ b. elim b [ true ↦ some (c + 1) | false ↦ count_loop n (suc i) (c + 1) path ]) here
      ∙ next (suc i) (omega arith) (omega arith)
      ∙ ap (λ (k : ℕ). some k) (omega (arith, total))
    where
      here : (i == not_found) ≡ false
      here = ground (arith, iv.small)

      total : rest_of p ≡ suc (rest_of (suc i))
      total =
          ap (λ (k : ℕ). slashes k (from p path.m_data)) (omega arith)
          ∙ none_between (i - p) (suc (path.m_size - suc i)) path p
              (λ j above below. free j above (omega arith))
          ∙ ap (λ (k : ℕ). slashes (suc (path.m_size - suc i)) (from k path.m_data)) (omega arith)
          ∙ one_more (path.m_size - suc i) path i st
  count_found n p c r (nowhere free) inside enough next =
      ap (λ (k : ℕ). some k) (omega (arith, none_left))
    where
      none_left : rest_of p ≡ 0
      none_left =
          ap (λ (k : ℕ). slashes k (from p path.m_data)) (omega arith)
          ∙ none_between (path.m_size - p) 0 path p (λ j above below. free j above (omega arith))
          ∙ no_bytes (from (p + (path.m_size - p)) path.m_data)

  count_rest :
      (n p c : ℕ)
      → p ≤ path.m_size
      → path.m_size < p + n
      → count_loop n p c path ≡ some (c + rest_of p + 1)
  unfolding count_loop find_char
  count_rest zero p c inside enough = absurd (omega arith)
  count_rest (suc n) p c inside enough =
      count_found n p c (find_char path spliter p)
        (find-Found path slash iv slash-IsView (omega arith) p inside) inside (omega arith)
        (λ q after within. count_rest n q (c + 1) within (omega arith))

abbrev path_of : ℕ → List ℕ → ℕ → StringView
path_of front bytes size = record { m_size = size; m_data = front ∷ bytes }

-- A path of at least one byte has one element more than it has slashes, not counting one in front;
-- the path of a single slash has none.
pub count_elements-slashes :
    (front : ℕ) (bytes : List ℕ) (size : ℕ)
    → size ≤ length (front ∷ bytes)
    → size < 2 ^ 32 - 1
    → 1 ≤ size
    → count_elements (record { m_size = size; m_data = front ∷ bytes })
      ≡ some (
          if front == spliter && size == 1
          then 0
          else if front == spliter
          then slashes (size - 1) bytes + 1
          else slashes size (front ∷ bytes) + 1)
unfolding count_elements from
count_elements-slashes front bytes size inside small some_bytes =
    elim (Bool-cases (front == spliter)) [
      | inl slash_first ↦ elim (Bool-cases (size == 1)) [
        | inl alone ↦ rw (slash_first, alone) refl
        | inr more ↦
            rw (slash_first, more)
              (count_rest (path_of front bytes size) view some_bytes (suc size) 1 0 some_bytes
                  (omega arith)
                ∙ ap (λ (k : ℕ). some k) (omega arith))
      ]
      | inr plain ↦ rw (plain) (
          count_rest (path_of front bytes size) view some_bytes (suc size) 0 0 (omega arith)
            (omega arith)
          ∙ ap (λ (k : ℕ). some k) (ground arith))
    ]
  where
    view : IsView (path_of front bytes size)
    view = record { inside = inside; small = small }
