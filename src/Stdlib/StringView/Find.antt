-- ===== src/Stdlib/StringView/Find.antt =====
-- What the search in a view finds, and what a comparison says.
use native.Mathlib.Decide.{dec_lt}
use cyan_oskernel.Prelude.{
  ℕ, zero, suc, ◌+◌, ◌-◌, ◌%◌, ◌^◌, ◌≤◌, ◌<◌, ◌≡◌, refl, sym, ap, subst, ◌∙◌, inl, inr, Bool, true,
  false, not, ◌&&◌, Option, some, List, [], ◌∷◌, arith, ltb, leb, ◌==◌, if◌then◌else◌, Bool-cases,
  length, ◌>>=◌, ◌>>◌, assert,
}
use cyan_oskernel.Stdlib.StringView.{
  StringView, not_found, from, memcmp, equals, differs, position, find_loop, find,
}

-- The bytes of a view are in its memory, and its size is less than the greatest `size_t`.
pub record IsView (v : StringView) : Type 0 where
  pub inside : v.m_size ≤ length v.m_data
  pub small : v.m_size < 2 ^ 32 - 1

-- Whether the first `n` bytes are the same.
unfoldable pub same : ℕ → List ℕ → List ℕ → Bool
same zero a b = true
same (suc n) (x ∷ a) (y ∷ b) = (x == y) && same n a b
same (suc n) _ _ = false

-- Whether a string stands at an index of a view.
abbrev pub stands : StringView → StringView → ℕ → Bool
stands v str i = same str.m_size (from i v.m_data) str.m_data

length-from : (i : ℕ) (bytes : List ℕ) → length (from i bytes) ≡ length bytes - i
unfolding from
length-from zero bytes = omega arith
length-from (suc i) [] = omega arith
length-from (suc i) (x ∷ bytes) = omega (arith, length-from i bytes)

memcmp-same :
    (n : ℕ) (a b : List ℕ) → n ≤ length a → n ≤ length b → memcmp a b n ≡ some (not (same n a b))
unfolding memcmp same
memcmp-same zero a b la lb = refl
memcmp-same (suc n) [] b la lb = absurd (omega arith)
memcmp-same (suc n) (x ∷ a) [] la lb = absurd (omega arith)
memcmp-same (suc n) (x ∷ a) (y ∷ b) la lb = elim (Bool-cases (x == y)) [
  | inl e ↦ rw e (memcmp-same n a b (omega arith) (omega arith))
  | inr ne ↦ rw ne refl
]

-- The result of a search from a position: the first index at which the string stands, or
-- `NOT_FOUND` where there is none.
pub data Found (v str : StringView) (pos : ℕ) : Option ℕ → Type 0 where
  first :
      (i : ℕ)
      → pos ≤ i
      → i + str.m_size ≤ v.m_size
      → stands v str i ≡ true
      → ((j : ℕ) → pos ≤ j → j < i → stands v str j ≡ false)
      → Found v str pos (some i)
  nowhere :
      ((j : ℕ) → pos ≤ j → j + str.m_size ≤ v.m_size → stands v str j ≡ false)
      → Found v str pos (some not_found)

module _ (v str : StringView) (iv : IsView v) (is : IsView str) (fits : str.m_size ≤ v.m_size) where
  abbrev limit : ℕ
  limit = ((v.m_size + 2 ^ 32 - str.m_size) % 2 ^ 32 + 1) % 2 ^ 32

  compare_at :
      (i : ℕ)
      → i + str.m_size ≤ v.m_size
      → memcmp (from i v.m_data) str.m_data str.m_size ≡ some (not (stands v str i))
  compare_at i le =
      memcmp-same str.m_size (from i v.m_data) str.m_data
        (omega (arith, length-from i v.m_data, iv.inside)) is.inside

  step_over : (n i : ℕ) → ltb i limit ≡ false → find_loop (suc n) i limit v str ≡ some not_found
  unfolding find_loop
  step_over n i over = rw (over, find_loop) refl

  step_found :
      (n i : ℕ)
      → ltb i limit ≡ true
      → i + str.m_size ≤ v.m_size
      → stands v str i ≡ true
      → find_loop (suc n) i limit v str ≡ some i
  unfolding find_loop
  step_found n i lt le st =
      rw (lt, find_loop) (rw (compare_at i le ∙ ap (λ b. some (not b)) st) refl)

  step_on :
      (n i : ℕ)
      → ltb i limit ≡ true
      → i + str.m_size ≤ v.m_size
      → stands v str i ≡ false
      → find_loop (suc n) i limit v str ≡ find_loop n (suc i) limit v str
  unfolding find_loop
  step_on n i lt le st = rw (lt, find_loop) (rw (compare_at i le ∙ ap (λ b. some (not b)) st) refl)

  limit_is : limit ≡ suc (v.m_size - str.m_size)
  limit_is = omega (arith, iv.small, fits)

  search :
      (n pos i : ℕ)
      → pos ≤ i
      → suc limit ≤ i + n
      → 1 ≤ n
      → ((j : ℕ) → pos ≤ j → j < i → stands v str j ≡ false)
      → Found v str pos (find_loop n i limit v str)
  search zero pos i le enough more free = absurd (omega arith)
  search (suc n) pos i le enough more free = elim (dec_lt i limit) [
    | no over ↦
        subst (Found v str pos) (sym (step_over n i (ground arith)))
          (nowhere (λ j from_pos ends. free j from_pos (omega (arith, limit_is, fits))))
    | yes lt ↦
        let ends : i + str.m_size ≤ v.m_size = omega (arith, limit_is, fits) in
        elim (Bool-cases (stands v str i)) [
          | inl st ↦
              subst (Found v str pos) (sym (step_found n i (ground arith) ends st))
                (first i le ends st free)
          | inr st ↦ subst (Found v str pos) (sym (step_on n i (ground arith) ends st)) (
              search n pos (suc i) (omega arith) (omega arith) (omega arith) (λ j from_pos before.
                elim (dec_lt j i) [
                  | yes lower ↦ free j from_pos lower
                  | no not_lower ↦ ap (λ (k : ℕ). stands v str k) (omega arith) ∙ st
                ]))
        ]
  ]

  -- For a string that is not longer than the view, and a position in it, `find` ends: it returns the
  -- first index from the position on at which the string stands, or `NOT_FOUND`, where it stands at
  -- none.
  pub find-Found : (pos : ℕ) → pos ≤ v.m_size → Found v str pos (find v str pos)
  unfolding find
  find-Found pos le = subst (Found v str pos) (sym ran) (
      search (suc (suc v.m_size)) pos pos (omega arith) (omega (arith, limit_is)) (omega arith)
        (λ j from_pos before. absurd (omega arith)))
    where
      here : position v pos ≡ pos
      here = ground (arith, iv.small)

      ran : find v str pos ≡ find_loop (suc (suc v.m_size)) pos limit v str
      ran =
          ap (λ (i : ℕ). assert (leb i v.m_size) >> find_loop (suc (suc v.m_size)) i limit v str)
            here
          ∙ ap (λ b. assert b >> find_loop (suc (suc v.m_size)) pos limit v str) inner
        where
          inner : leb pos v.m_size ≡ true
          inner = ground arith

not-not : (b : Bool) → not (not b) ≡ b
not-not true = refl
not-not false = refl

-- Of two views of one size, `operator==` says whether their bytes are the same, but `operator!=` says
-- no even where the bytes differ.
pub equals-differs :
    (v other : StringView)
    → IsView v
    → IsView other
    → v.m_size ≡ other.m_size
    → (equals v other ≡ some (same v.m_size v.m_data other.m_data)) × (differs v other ≡ some false)
unfolding equals differs
equals-differs v other iv io sizes = (
  ap
        (λ b.
          if b
          then (memcmp v.m_data other.m_data v.m_size >>= λ differ. some (not differ))
          else some false)
        alike
      ∙ ap (λ r. r >>= λ differ. some (not differ))
          (memcmp-same v.m_size v.m_data other.m_data iv.inside (omega (arith, io.inside)))
      ∙ ap (λ b. some b) (not-not (same v.m_size v.m_data other.m_data)),
  ap
      (λ b.
        if b then some false else (memcmp v.m_data other.m_data v.m_size >>= λ differ. some differ))
      alike,
)
  where
    alike : (v.m_size == other.m_size) ≡ true
    alike = ground arith
