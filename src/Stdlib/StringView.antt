-- ===== src/Stdlib/StringView.antt =====
-- `libraries/stdlib/string_view.cpp`, and what it uses of `clib.cpp`. A view is the memory from
-- `m_data` on, as a list of bytes, and its size. `none` is a failed ASSERT, an access outside of the
-- memory, or fuel that runs out. `size_t` has 32 bits.
pub mod Find
use cyan_oskernel.Prelude.{
  ℕ, zero, suc, ◌+◌, ◌-◌, ◌%◌, ◌^◌, Bool, true, false, not, Option, none, some, List, [], ◌∷◌, ltb,
  leb, ◌==◌, if◌then◌else◌, get_elem?, ◌>>=◌, ◌>>◌, assert,
}

pub record StringView : Type 0 where
  pub m_size : ℕ
  pub m_data : List ℕ

-- `StringView::END` and `StringView::NOT_FOUND`.
abbrev pub end_of_view : ℕ
end_of_view = 2 ^ 32 - 1

abbrev pub not_found : ℕ
not_found = 2 ^ 32 - 1

-- The memory from an offset on.
unfoldable pub from : ℕ → List ℕ → List ℕ
from zero bytes = bytes
from (suc i) [] = []
from (suc i) (x ∷ bytes) = from i bytes

-- `memcmp`, which `strncmp` calls: whether the bytes differ.
unfoldable pub memcmp : List ℕ → List ℕ → ℕ → Option Bool
memcmp source dest zero = some false
memcmp (x ∷ source) (y ∷ dest) (suc len) = if x == y then memcmp source dest len else some true
memcmp _ _ (suc len) = none

-- `operator[]`.
abbrev pub at : StringView → ℕ → Option ℕ
at v off = get_elem? v.m_data off

-- `operator==` and `operator!=`.
unfoldable pub equals : StringView → StringView → Option Bool
unfolding memcmp
equals v other =
    if v.m_size == other.m_size
    then (memcmp v.m_data other.m_data v.m_size >>= λ differ. some (not differ))
    else some false

unfoldable pub differs : StringView → StringView → Option Bool
unfolding memcmp
differs v other =
    if v.m_size == other.m_size
    then some false
    else (memcmp v.m_data other.m_data v.m_size >>= λ differ. some differ)

abbrev pub position : StringView → ℕ → ℕ
position v pos = if pos == end_of_view then v.m_size else pos

unfoldable pub substr : StringView → ℕ → ℕ → Option StringView
unfolding from
substr v pos len = do
  let start = position v pos
  let size = if len == end_of_view then (v.m_size + 2 ^ 32 - start) % 2 ^ 32 else len
  assert (leb ((start + size) % 2 ^ 32) v.m_size)
  some (record { m_size = size; m_data = from start v.m_data })

-- The loop of `find`, on fuel; `limit` is `(m_size - str.m_size) + 1`.
unfoldable pub find_loop : ℕ → ℕ → ℕ → StringView → StringView → Option ℕ
unfolding memcmp from
find_loop zero i limit v str = none
find_loop (suc n) i limit v str = elim (ltb i limit) [
  | false ↦ some not_found
  | true ↦ memcmp (from i v.m_data) str.m_data str.m_size >>= λ differ. elim differ [
    | false ↦ some i
    | true ↦ find_loop n (suc i) limit v str
  ]
]

unfoldable pub find : StringView → StringView → ℕ → Option ℕ
unfolding find_loop
find v str pos = do
  assert (leb (position v pos) v.m_size)
  find_loop (suc (suc v.m_size)) (position v pos)
      (((v.m_size + 2 ^ 32 - str.m_size) % 2 ^ 32 + 1) % 2 ^ 32) v str

-- `find` of a character other than 0: of the string of that character.
unfoldable pub find_char : StringView → ℕ → ℕ → Option ℕ
unfolding find
find_char v c pos = find v (record { m_size = 1; m_data = c ∷ 0 ∷ [] }) pos
