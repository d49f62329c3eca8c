-- ===== src/Stdlib/Clib.antt =====
-- `libraries/stdlib/clib.cpp`: the memory functions. Memory is a list of bytes, a pointer an offset
-- into it; `none` is an access outside of it.
pub mod Moves
pub mod Numbers
mod Tests
use cyan_oskernel.Prelude.{
  ℕ, zero, suc, ◌+◌, ◌-◌, ◌/◌, ◌%◌, Bool, true, false, Option, none, some, List, [], ◌∷◌, ◌++◌, ltb,
  ◌==◌, if◌then◌else◌, length, get_elem?, set, replicate, ◌>>=◌, ◌>>◌, assert,
}

-- `memory[target] = value`.
abbrev pub write : ℕ → ℕ → List ℕ → Option (List ℕ)
write target value memory =
    if ltb target (length memory) then some (set memory target value) else none

-- The loop of `memcpy`, with the bytes left and the index: the source is another object.
unfoldable pub memcpy_loop : ℕ → ℕ → ℕ → List ℕ → List ℕ → Option (List ℕ)
memcpy_loop zero i at source dest = some dest
memcpy_loop (suc n) i at source dest =
    get_elem? source i >>= λ x. write (at + i) x dest >>= λ d. memcpy_loop n (suc i) at source d

-- `memcpy(dest + at, source, len)`.
unfoldable pub memcpy : ℕ → List ℕ → ℕ → List ℕ → Option (List ℕ)
unfolding memcpy_loop
memcpy at source len dest = memcpy_loop len 0 at source dest

-- The two loops of `memmove`, with the bytes left: from the last byte down, and from the first up.
unfoldable pub move_down : ℕ → ℕ → ℕ → List ℕ → Option (List ℕ)
move_down zero dest source memory = some memory
move_down (suc n) dest source memory = get_elem? memory (source + n) >>= λ x.
    write (dest + n) x memory >>= λ m. move_down n dest source m

unfoldable pub move_up : ℕ → ℕ → ℕ → List ℕ → Option (List ℕ)
move_up zero dest source memory = some memory
move_up (suc n) dest source memory = get_elem? memory source >>= λ x.
    write dest x memory >>= λ m. move_up n (suc dest) (suc source) m

-- `memmove(memory + dest, memory + source, len)`.
unfoldable pub memmove : ℕ → ℕ → ℕ → List ℕ → Option (List ℕ)
unfolding move_down move_up
memmove dest source len memory =
    if ltb source dest then move_down len dest source memory else move_up len dest source memory

-- `none` where no byte is 0.
unfoldable pub strlen : List ℕ → Option ℕ
strlen [] = none
strlen (x ∷ str) = if x == 0 then some 0 else strlen str >>= λ len. some (suc len)

-- The loop of `strcmp`, with the bytes left: whether the strings differ.
unfoldable pub strcmp_loop : ℕ → List ℕ → List ℕ → Option Bool
strcmp_loop zero source dest = some false
strcmp_loop (suc n) (x ∷ source) (y ∷ dest) =
    if x == y then strcmp_loop n source dest else some true
strcmp_loop (suc n) _ _ = none

unfoldable pub strcmp : List ℕ → List ℕ → Option Bool
unfolding strlen strcmp_loop
strcmp source dest = strlen source >>= λ src_len. strlen dest >>= λ dest_len.
    if src_len == dest_len then strcmp_loop src_len source dest else some true

-- A digit's character.
abbrev pub digit_char : ℕ → ℕ
digit_char tmp = if ltb tmp 10 then tmp + 48 else tmp + 97 - 10

-- The first loop of `itoa`: the characters written to the buffer, the last digit of `n` first. On
-- fuel; `none` is also a division by 0.
unfoldable pub digits : ℕ → ℕ → ℕ → Option (List ℕ)
digits zero base n = none
digits (suc fuel) base n = assert (ltb 0 base) >> elim (n / base == 0) [
  | true ↦ some (digit_char (n % base) ∷ [])
  | false ↦ digits fuel base (n / base) >>= λ rest. some (digit_char (n % base) ∷ rest)
]

-- The second loop, on fuel: the bytes at `j` and `i` change places.
unfoldable pub swap_loop : ℕ → ℕ → ℕ → List ℕ → Option (List ℕ)
swap_loop zero j i buf = none
swap_loop (suc fuel) j i buf = elim (ltb j i) [
  | false ↦ some buf
  | true ↦ get_elem? buf j >>= λ tmp.
      get_elem? buf i >>= λ x. swap_loop fuel (suc j) (i - 1) (set (set buf j x) i tmp)
]

-- The bytes that `itoa` writes to its buffer.
unfoldable pub itoa : ℕ → ℕ → Option (List ℕ)
unfolding digits swap_loop
itoa n base = digits (suc n) base n >>= λ written.
    swap_loop (suc (length written)) 0 (length written - 1) (written ++ 0 ∷ [])
