-- ===== src/Stdlib/PathView.antt =====
-- `libraries/stdlib/path_view.cpp`: a path as the views of its absolute and its relative part.
-- `none` is a failed ASSERT, or what is `none` of a view; an `int` that holds a position is the
-- `size_t` of the same bits.
pub mod Count
mod Tests
use cyan_oskernel.Prelude.{
  ℕ, zero, suc, ◌+◌, ◌-◌, ◌%◌, ◌^◌, ℤ, pos, negsuc, Bool, true, false, not, ◌&&◌, ◌||◌, Option,
  none, some, List, [], ◌∷◌, ltb, leb, ◌==◌, if◌then◌else◌, ◌>>=◌, ◌>>◌, assert,
}
use cyan_oskernel.Stdlib.StringView.{
  StringView, end_of_view, not_found, at, equals, substr, find, find_char,
}

pub data PathType : Type 0 where
  absolute relative relative_recursive : PathType

-- `SPLITER`, the code of the slash.
abbrev pub spliter : ℕ
spliter = 47

abbrev pub empty_view : StringView
empty_view = record { m_size = 0; m_data = 0 ∷ [] }

abbrev two_dots : StringView
two_dots = record { m_size = 2; m_data = 46 ∷ 46 ∷ 0 ∷ [] }

pub record PathView : Type 0 where
  pub m_type : PathType
  pub m_absolute_path : StringView
  pub m_relative_path : StringView
  pub m_absolute_path_count : ℕ
  pub m_relative_path_count : ℕ

unfoldable pub is_valid : StringView → Option Bool
is_valid path = if path.m_size == 0 then some false else (do
  last ← at path (path.m_size - 1)
  some (not (not (path.m_size == 1) && last == spliter)))

unfoldable pub get_type : StringView → Option PathType
unfolding is_valid
get_type path = do
  valid ← is_valid path
  assert valid
  front ← at path 0
  if front == spliter then some absolute else (do
    dots ← find path two_dots 0
    some (if dots == end_of_view then relative else relative_recursive))

-- The loop of `count_elements`, on fuel.
unfoldable pub count_loop : ℕ → ℕ → ℕ → StringView → Option ℕ
count_loop zero last_found count path = none
count_loop (suc n) last_found count path = find_char path spliter last_found >>= λ found.
    elim (found == not_found) [
      | true ↦ some (count + 1)
      | false ↦ count_loop n (suc found) (count + 1) path
    ]

unfoldable pub count_elements : StringView → Option ℕ
unfolding count_loop
count_elements path = do
  front ← at path 0
  if front == spliter && path.m_size == 1
      then some 0
      else count_loop (suc path.m_size) (if front == spliter then 1 else 0) 0 path

-- The loops that pass elements: `pos = path.find(SPLITER, pos) + 1`, which wraps to 0 where no
-- slash is found.
unfoldable pub skip : ℕ → ℕ → StringView → Option ℕ
skip zero start path = some start
skip (suc n) start path =
    find_char path spliter start >>= λ found. skip n ((found + 1) % 2 ^ 32) path

unfoldable pub get_element_from_full_path : StringView → ℕ → Option StringView
unfolding skip
get_element_from_full_path path index = do
  front ← at path 0
  start ← skip index (if front == spliter then 1 else 0) path
  next_splitter ← find_char path spliter start
  substr path start (
      if next_splitter == end_of_view
      then (path.m_size + 2 ^ 32 - start) % 2 ^ 32
      else (next_splitter + 2 ^ 32 - start) % 2 ^ 32)

abbrev is_absolute : PathType → Bool
is_absolute absolute = true
is_absolute _ = false

-- `PathView(StringView)`.
unfoldable pub construct : StringView → Option PathView
unfolding get_type count_elements
construct path = do
  type ← get_type path
  count ← count_elements path
  some (
      if is_absolute type
      then record {
        m_type = type;
        m_absolute_path = path;
        m_relative_path = empty_view;
        m_absolute_path_count = count;
        m_relative_path_count = 0;
      }
      else record {
        m_type = type;
        m_absolute_path = empty_view;
        m_relative_path = path;
        m_absolute_path_count = 0;
        m_relative_path_count = count;
      })

-- `PathView(StringView, StringView)`.
unfoldable pub join : StringView → StringView → Option PathView
unfolding get_type count_elements
join working_dir relative_path = do
  absolute_count ← count_elements working_dir
  relative_count ← count_elements relative_path
  working_type ← get_type working_dir
  assert (is_absolute working_type)
  relative_type ← get_type relative_path
  assert (not (is_absolute relative_type))
  some (record {
    m_type = absolute;
    m_absolute_path = working_dir;
    m_relative_path = relative_path;
    m_absolute_path_count = absolute_count;
    m_relative_path_count = relative_count;
  })

unfoldable pub set_absolute_path : PathView → PathView → Option PathView
set_absolute_path p path = do
  assert (not (is_absolute p.m_type))
  assert (is_absolute path.m_type)
  assert (not (path.m_absolute_path_count == 0))
  assert (path.m_relative_path_count == 0)
  some (record p {
    m_absolute_path = path.m_absolute_path;
    m_absolute_path_count = path.m_absolute_path_count;
  })

abbrev pub count : PathView → ℕ
count p = p.m_relative_path_count + p.m_absolute_path_count

-- An `int` index from the front, or from the end, where it is negative.
unfoldable pub resolve : PathView → ℤ → Option ℕ
resolve p (pos n) = assert (ltb n (count p)) >> some n
resolve p (negsuc n) = assert (ltb n (count p)) >> some (count p - suc n)

-- `operator[]`.
unfoldable pub element : PathView → ℤ → Option StringView
unfolding resolve get_element_from_full_path
element p index = do
  i ← resolve p index
  if ltb i p.m_absolute_path_count
      then get_element_from_full_path p.m_absolute_path i
      else get_element_from_full_path p.m_relative_path (i - p.m_absolute_path_count)
