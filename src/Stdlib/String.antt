-- ===== src/Stdlib/String.antt =====
-- `libraries/stdlib/string.cpp` and `string.h`: a string owns `m_size + 1` bytes, the last of them 0.
-- `m_data` is empty for the null pointer, which a move leaves behind. A `const char*` is the list of
-- the bytes from its address on. `none` is a failed ASSERT, an access outside of an object, or fuel
-- that runs out. `size_t` has 32 bits, and a new array is taken to be there.
pub mod Insert
pub mod Erase
mod Tests
use cyan_oskernel.Prelude.{
  ℕ, zero, suc, ◌+◌, ◌-◌, ◌%◌, ◌^◌, Bool, true, false, not, Option, none, some, List, [], ◌∷◌, ltb,
  leb, ◌==◌, if◌then◌else◌, length, get_elem?, replicate, min, ◌>>=◌, ◌>>◌, assert,
}
use cyan_oskernel.Stdlib.Clib.{write, memcpy, memmove, strlen, strcmp}
use cyan_oskernel.Stdlib.StringView.{StringView, end_of_view, not_found, from, memcmp}

pub record String : Type 0 where
  pub m_size : ℕ
  pub m_data : List ℕ

-- `String::END`.
abbrev pub end_of_string : ℕ
end_of_string = 2 ^ 32 - 1

abbrev pub position : ℕ → ℕ → ℕ
position size pos = if pos == end_of_string then size else pos

-- `new char[n]`: what it holds is not read before it is written.
abbrev pub new_array : ℕ → List ℕ
new_array n = replicate n 0

-- The first three constructors: from a view, from a C string, and from a pointer and a length.
unfoldable pub from_pointer : List ℕ → ℕ → Option String
from_pointer str len = do
  bytes ← memcpy 0 str len (new_array (len + 1))
  bytes ← write len 0 bytes
  some (record { m_size = len; m_data = bytes })

unfoldable pub from_view : StringView → Option String
unfolding from_pointer
from_view str = from_pointer str.m_data str.m_size

unfoldable pub from_cstr : List ℕ → Option String
from_cstr str = do
  size ← strlen str
  bytes ← memcpy 0 str (size + 1) (new_array (size + 1))
  some (record { m_size = size; m_data = bytes })

-- The copy constructor, and the assignment of another string.
unfoldable pub copy : String → Option String
copy other = do
  bytes ← memcpy 0 other.m_data (other.m_size + 1) (new_array (other.m_size + 1))
  some (record { m_size = other.m_size; m_data = bytes })

-- A move: the new string, and what is left of the other, whose size stays.
unfoldable pub move : String → String × String
move other = (other, record other { m_data = [] })

-- What the four `insert` do with their `len` bytes of `str`.
unfoldable pub insert_bytes : ℕ → List ℕ → ℕ → String → Option String
insert_bytes pos str len s = do
  let new_len = len + s.m_size
  new_data ← memcpy 0 s.m_data pos (new_array (new_len + 1))
  new_data ← memcpy pos str len new_data
  new_data ← memcpy (pos + len) (from pos s.m_data) (s.m_size - pos) new_data
  new_data ← write new_len 0 new_data
  some (record { m_size = new_len; m_data = new_data })

unfoldable pub insert : ℕ → String → String → Option String
unfolding insert_bytes
insert pos str s =
    let p = position s.m_size pos in
    assert (leb p s.m_size) >> insert_bytes p str.m_data str.m_size s

unfoldable pub insert_cstr : ℕ → List ℕ → String → Option String
unfolding insert_bytes
insert_cstr pos str s =
    let p = position s.m_size pos in
    assert (leb p s.m_size) >> strlen str >>= λ str_len. insert_bytes p str str_len s

unfoldable pub insert_part : ℕ → String → ℕ → ℕ → String → Option String
unfolding insert_bytes
insert_part pos str subpos sublen s =
    let sub = position str.m_size subpos in
    let p = position s.m_size pos in
    assert (leb ((sub + sublen) % 2 ^ 32) str.m_size)
    >> assert (leb p s.m_size)
    >> insert_bytes p (from sub str.m_data) (if ltb sublen str.m_size then sublen else str.m_size) s

unfoldable pub insert_cstr_part : ℕ → List ℕ → ℕ → ℕ → String → Option String
unfolding insert_bytes
insert_cstr_part pos str subpos sublen s = strlen str >>= λ size.
    let sub = position size subpos in
    let p = position s.m_size pos in
    assert (leb ((sub + sublen) % 2 ^ 32) size)
    >> assert (leb p s.m_size)
    >> insert_bytes p (from sub str) sublen s

-- `operator+=` of a string and of a C string.
unfoldable pub append : String → String → Option String
unfolding insert
append other s = insert end_of_string other s

unfoldable pub append_cstr : List ℕ → String → Option String
unfolding insert_cstr
append_cstr other s = insert_cstr end_of_string other s

-- `operator+=` of a character: its address is taken for a C string, `rest` being what follows it.
unfoldable pub append_char : ℕ → List ℕ → String → Option String
unfolding insert_cstr
append_char other rest s = insert_cstr end_of_string (other ∷ rest) s

-- `operator+`.
unfoldable pub plus : String → String → Option String
unfolding copy append
plus s other = copy s >>= λ new_string. append other new_string

unfoldable pub push_back : ℕ → String → Option String
unfolding insert_cstr
push_back c s = insert_cstr end_of_string (c ∷ 0 ∷ []) s

unfoldable pub pop_back : String → Option String
pop_back s = do
  assert (not (s.m_size == 0))
  bytes ← write (s.m_size - 1) 0 s.m_data
  some (record { m_size = s.m_size - 1; m_data = bytes })

unfoldable pub erase : ℕ → ℕ → String → Option String
erase pos len s = do
  assert (leb ((pos + len) % 2 ^ 32) s.m_size)
  bytes ← memmove pos (pos + len) (s.m_size - pos - len + 1) s.m_data
  some (record { m_size = s.m_size - len; m_data = bytes })

-- The loop of `erase_if`, on fuel: each round erases a byte or passes one.
unfoldable pub erase_loop : (ℕ → Bool) → ℕ → ℕ → String → Option String
unfolding erase
erase_loop predictor zero i s = none
erase_loop predictor (suc n) i s = elim (ltb i s.m_size) [
  | false ↦ some s
  | true ↦ get_elem? s.m_data i >>= λ c. elim (predictor c) [
    | true ↦ erase i 1 s >>= erase_loop predictor n i
    | false ↦ erase_loop predictor n (suc i) s
  ]
]

unfoldable pub erase_if : (ℕ → Bool) → String → Option String
unfolding erase_loop
erase_if predictor s = erase_loop predictor (suc s.m_size) 0 s

-- The two `operator[]`: only that of a string that may change has a test.
abbrev pub at : String → ℕ → Option ℕ
at s off = get_elem? s.m_data off

unfoldable pub at_tested : String → ℕ → Option ℕ
at_tested s off = assert (ltb off s.m_size) >> get_elem? s.m_data off

-- The comparisons with a view, with a string and with a C string.
unfoldable pub equals_view : String → StringView → Option Bool
equals_view s other =
    if s.m_size == other.m_size
    then (memcmp s.m_data other.m_data s.m_size >>= λ differ. some (not differ))
    else some false

unfoldable pub equals : String → String → Option Bool
equals s other =
    if s.m_size == other.m_size
    then (strcmp s.m_data other.m_data >>= λ differ. some (not differ))
    else some false

unfoldable pub equals_cstr : String → List ℕ → Option Bool
equals_cstr s other = strcmp s.m_data other >>= λ differ. some (not differ)

unfoldable pub differs_view : String → StringView → Option Bool
differs_view s other =
    if s.m_size == other.m_size then some false else memcmp s.m_data other.m_data s.m_size

unfoldable pub differs : String → String → Option Bool
differs s other = if s.m_size == other.m_size then some false else strcmp s.m_data other.m_data

unfoldable pub differs_cstr : String → List ℕ → Option Bool
differs_cstr s other = strcmp s.m_data other

unfoldable pub substr : ℕ → ℕ → String → Option String
unfolding from_pointer
substr pos len s =
    let p = position s.m_size pos in
    assert (leb ((p + len) % 2 ^ 32) s.m_size) >> from_pointer (from p s.m_data) len

-- The loop of `find`, on fuel; `limit` is `(m_size - len) + 1` in `size_t`, `str` has `len` bytes.
unfoldable pub find_loop : ℕ → ℕ → ℕ → List ℕ → ℕ → String → Option ℕ
find_loop zero i limit str len s = none
find_loop (suc n) i limit str len s = elim (ltb i limit) [
  | false ↦ some not_found
  | true ↦ memcmp (from i s.m_data) str len >>= λ differ. elim differ [
    | false ↦ some i
    | true ↦ find_loop n (suc i) limit str len s
  ]
]

unfoldable pub find_bytes : List ℕ → ℕ → ℕ → String → Option ℕ
unfolding find_loop
find_bytes str len pos s =
    let p = position s.m_size pos in
    assert (leb p s.m_size)
    >> find_loop (suc (suc s.m_size)) p (((s.m_size + 2 ^ 32 - len) % 2 ^ 32 + 1) % 2 ^ 32) str len
        s

unfoldable pub find : String → ℕ → String → Option ℕ
unfolding find_bytes
find str pos s = find_bytes str.m_data str.m_size pos s

unfoldable pub find_cstr : List ℕ → ℕ → String → Option ℕ
unfolding find_bytes
find_cstr str pos s = strlen str >>= λ len. find_bytes str len pos s

unfoldable pub find_char : ℕ → ℕ → String → Option ℕ
unfolding find_cstr
find_char c pos s = find_cstr (c ∷ 0 ∷ []) pos s

-- The loop of `rfind`, with the indices left: the next is one less than their number.
unfoldable pub rfind_loop : ℕ → List ℕ → ℕ → String → Option ℕ
rfind_loop zero str len s = some not_found
rfind_loop (suc i) str len s = memcmp (from i s.m_data) str len >>= λ differ. elim differ [
  | false ↦ some i
  | true ↦ rfind_loop i str len s
]

-- For sizes below 2 ^ 31 the index, an `int`, is negative where `str` is longer than what is searched.
unfoldable pub rfind_bytes : List ℕ → ℕ → ℕ → String → Option ℕ
unfolding rfind_loop
rfind_bytes str len pos s =
    let p = position s.m_size pos in
    assert (leb p s.m_size) >> rfind_loop (if leb len p then suc (p - len) else 0) str len s

unfoldable pub rfind : String → ℕ → String → Option ℕ
unfolding rfind_bytes
rfind str pos s = rfind_bytes str.m_data str.m_size pos s

unfoldable pub rfind_cstr : List ℕ → ℕ → String → Option ℕ
unfolding rfind_bytes
rfind_cstr str pos s = strlen str >>= λ len. rfind_bytes str len pos s

unfoldable pub rfind_char : ℕ → ℕ → String → Option ℕ
unfolding rfind_cstr
rfind_char c pos s = rfind_cstr (c ∷ 0 ∷ []) pos s
