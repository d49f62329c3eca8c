-- ===== src/Stdlib/Bitmap.antt =====
-- `libraries/stdlib/bitmap.cpp`, whose bodies `static_bitmap.h` repeats for a size known to the
-- compiler. `size_t` and `u32` are 32 bits wide; `none` is an access outside of the storage.
pub mod Range
pub mod Find
use cyan_oskernel.Prelude.{
  ℕ, zero, suc, ◌+◌, ◌-◌, ◌/◌, ◌%◌, ◌^◌, Bool, true, false, not, Option, none, some, List, ltb,
  ◌==◌, if◌then◌else◌, length, get_elem?, get_or, set, replicate, check_bit, set_bit, clear_bit,
  bool_eq, ◌>>=◌,
}

pub record Bitmap : Type 0 where
  pub bitmap_size : ℕ
  pub bitmap_data : List ℕ

-- `BITMAP_NO_BITS_LEFT`.
abbrev pub no_bits_left : ℕ
no_bits_left = 0xFFFFFFFF

unfoldable pub construct : ℕ → Bitmap
construct bitmap_size = record {
  bitmap_size = bitmap_size;
  bitmap_data = replicate (bitmap_size / 8 + 1) 0;
}

-- The loop of `set_range` and of `clear_range`, with the rounds left: `change` is the compound
-- assignment to the byte. `PhysicalMemory` runs the same loops over its own array.
unfoldable pub range_loop : (ℕ → ℕ → ℕ) → ℕ → ℕ → List ℕ → Option (List ℕ)
range_loop change zero position bytes = some bytes
range_loop change (suc n) position bytes = elim (get_elem? bytes (position / 8)) [
  | none ↦ none
  | some x ↦
      range_loop change n ((position + 1) % 2 ^ 32)
        (set bytes (position / 8) (change x (position % 8)))
]

unfoldable pub set_range : Bitmap → ℕ → ℕ → Option Bitmap
set_range b position count = if ltb b.bitmap_size position then some b else do
  bytes ← range_loop set_bit count position b.bitmap_data
  some (record b { bitmap_data = bytes })

unfoldable pub clear_range : Bitmap → ℕ → ℕ → Option Bitmap
clear_range b position count = if ltb b.bitmap_size position then some b else do
  bytes ← range_loop clear_bit count position b.bitmap_data
  some (record b { bitmap_data = bytes })

abbrev pub set_one : Bitmap → ℕ → Option Bitmap
set_one b position = set_range b position 1

abbrev pub clear_one : Bitmap → ℕ → Option Bitmap
clear_one b position = clear_range b position 1

-- The byte in which no bit is `wanted`: 0xFF where a clear bit is looked for, 0 where a set one is.
abbrev pub skipped : Bool → ℕ
skipped true = 0
skipped false = 255

-- The loop of `find_first_clear_range` and of `find_first_set_range`. A byte without a wanted bit
-- is passed in one round. `none` is also fuel that runs out.
unfoldable pub find_loop : Bool → ℕ → Bitmap → ℕ → ℕ → ℕ → Option ℕ
find_loop wanted zero b count remaining index = none
find_loop wanted (suc fuel) b count remaining index = elim (ltb index b.bitmap_size) [
  | false ↦ some no_bits_left
  | true ↦ elim (get_elem? b.bitmap_data (index / 8)) [
    | none ↦ none
    | some x ↦ elim (x == skipped wanted) [
      | true ↦ find_loop wanted fuel b count remaining ((index + 8) % 2 ^ 32)
      | false ↦
          elim ((if bool_eq (check_bit x (index % 8)) wanted
              then (remaining + 2 ^ 32 - 1) % 2 ^ 32
              else count)
            == 0) [
              | true ↦ some ((index + 2 ^ 32 - count + 1) % 2 ^ 32)
              | false ↦
                  find_loop wanted fuel b count
                    (if bool_eq (check_bit x (index % 8)) wanted
                      then (remaining + 2 ^ 32 - 1) % 2 ^ 32
                      else count)
                    ((index + 1) % 2 ^ 32)
            ]
    ]
  ]
]

-- Every round raises the index, so that one round more than there are bits is enough.
unfoldable pub find_first_clear_range : Bitmap → ℕ → ℕ → Option ℕ
unfolding find_loop
find_first_clear_range b count start_search =
    find_loop false (suc b.bitmap_size) b count count start_search

unfoldable pub find_first_set_range : Bitmap → ℕ → ℕ → Option ℕ
unfolding find_loop
find_first_set_range b count start_search =
    find_loop true (suc b.bitmap_size) b count count start_search

unfoldable pub find_first_clear : Bitmap → ℕ → Option ℕ
find_first_clear b start_search = find_first_clear_range b 1 start_search

unfoldable pub find_first_set : Bitmap → ℕ → Option ℕ
find_first_set b start_search = find_first_set_range b 1 start_search

pub check_set : Bitmap → ℕ → Option Bool
check_set b position = do
  x ← get_elem? b.bitmap_data (position / 8)
  some (check_bit x (position % 8))

pub check_clear : Bitmap → ℕ → Option Bool
check_clear b position = do
  x ← get_elem? b.bitmap_data (position / 8)
  some (not (check_bit x (position % 8)))
