-- ===== src/Stdlib/Bitmap/Range.antt =====
-- Setting and clearing ranges of a bitmap changes the bits of the range, and no other.
use native.Mathlib.Decide.{dec_lt}
use cyan_oskernel.Prelude.{
  ℕ, zero, suc, ◌+◌, ◌*◌, ◌/◌, ◌%◌, ◌^◌, ◌≤◌, ◌<◌, ◌≡◌, refl, ap, ◌∙◌, Bool, true, false, ◌&&◌,
  none, some, List, arith, ltb, leb, ◌==◌, if◌then◌else◌, length, get_or, set, length-set,
  length-replicate, get_or-set, get_or-replicate, get_elem?-eq-get_or, get_elem?-beyond, check_bit,
  set_bit, clear_bit, check_bit-set_bit, check_bit-clear_bit, set_bit-lt, clear_bit-lt,
  check_bit_empty,
}
use cyan_oskernel.Stdlib.Bitmap.{Bitmap, construct, range_loop, set_range, clear_range, check_set}

-- The bit at a position of an array of bytes.
abbrev pub bit : List ℕ → ℕ → Bool
bit bytes p = check_bit (get_or bytes (p / 8) 0) (p % 8)

abbrev pub AreBytes : List ℕ → Type 0
AreBytes bytes = (i : ℕ) → get_or bytes i 0 < 256

-- `q` lies in the `n` positions from `p` on.
abbrev pub in_range : ℕ → ℕ → ℕ → Bool
in_range p n q = leb p q && ltb q (p + n)

-- A range of one position, as the test of that position.
pub one_bit : (i q : ℕ) (v w : Bool) → (if in_range i 1 q then v else w) ≡ (if i == q then v else w)
one_bit i q v w = ground arith

-- The array `after` is `before` with the bits of a range made equal to `value`.
pub record Written (value : Bool) (p n : ℕ) (before after : List ℕ) : Type 0 where
  pub length_kept : length after ≡ length before
  pub bytes : AreBytes after
  pub bits : (q : ℕ) → bit after q ≡ (if in_range p n q then value else bit before q)

range_loop-step :
    (change : ℕ → ℕ → ℕ) (n p : ℕ) (bytes : List ℕ)
    → p / 8 < length bytes
    → p + 1 < 2 ^ 32
    → range_loop change (suc n) p bytes
      ≡ range_loop change n (p + 1) (set bytes (p / 8) (change (get_or bytes (p / 8) 0) (p % 8)))
unfolding range_loop
range_loop-step change n p bytes lt small =
    rw (get_elem?-eq-get_or bytes (p / 8) 0 lt, range_loop)
      (ap (λ k. range_loop change n k (set bytes (p / 8) (change (get_or bytes (p / 8) 0) (p % 8))))
        (omega arith))

module _ (change : ℕ → ℕ → ℕ) (value : Bool)
    (changes : (x b c : ℕ)
      → x < 256
      → b < 8
      → c < 8
      → check_bit (change x b) c ≡ (if b == c then value else check_bit x c))
    (stays : (x b : ℕ) → x < 256 → b < 8 → change x b < 256) where
  change_one :
      (p : ℕ) (bytes : List ℕ)
      → AreBytes bytes
      → p / 8 < length bytes
      → (q : ℕ)
      → bit (set bytes (p / 8) (change (get_or bytes (p / 8) 0) (p % 8))) q
        ≡ (if p == q then value else bit bytes q)
  change_one p bytes ok lt q = ground (
    arith,
    get_or-set bytes (p / 8) (q / 8) (change (get_or bytes (p / 8) 0) (p % 8)) 0 lt,
    changes (get_or bytes (p / 8) 0) (p % 8) (q % 8) (ok (p / 8)),
  )

  change_one_bytes :
      (p : ℕ) (bytes : List ℕ)
      → AreBytes bytes
      → p / 8 < length bytes
      → AreBytes (set bytes (p / 8) (change (get_or bytes (p / 8) 0) (p % 8)))
  change_one_bytes p bytes ok lt i = ground (
    arith,
    get_or-set bytes (p / 8) i (change (get_or bytes (p / 8) 0) (p % 8)) 0 lt,
    stays (get_or bytes (p / 8) 0) (p % 8) (ok (p / 8)),
    ok i,
  )

  -- The loop stays inside the array and writes exactly its range.
  pub range_loop-Written :
      (n p : ℕ) (bytes : List ℕ)
      → AreBytes bytes
      → p + n ≤ 8 * length bytes
      → p + n < 2 ^ 32
      → (bytes' : List ℕ) × (range_loop change n p bytes ≡ some bytes')
        × Written value p n bytes bytes'
  unfolding range_loop
  range_loop-Written zero p bytes ok fits small =
      (bytes, refl, record { length_kept = refl; bytes = ok; bits = λ q. ground arith })
  range_loop-Written (suc n) p bytes ok fits small =
      let lt : p / 8 < length bytes = omega arith in
      let now = set bytes (p / 8) (change (get_or bytes (p / 8) 0) (p % 8)) in
      let same : length now ≡ length bytes = length-set bytes (p / 8) _ in
      let (bytes', ran, w) =
        range_loop-Written n (p + 1) now (change_one_bytes p bytes ok lt) (omega arith)
          (omega arith) in
      (
        bytes',
        range_loop-step change n p bytes lt (omega arith) ∙ ran,
        record {
          length_kept = w.length_kept ∙ same;
          bytes = w.bytes;
          bits = λ q. ground (arith, w.bits q, change_one p bytes ok lt q);
        },
      )

-- The loop leaves the array where its range does.
range_loop_outside :
    (change : ℕ → ℕ → ℕ) (n p : ℕ) (bytes : List ℕ)
    → 8 * length bytes < p + n
    → p ≤ 8 * length bytes
    → p + n < 2 ^ 32
    → range_loop change n p bytes ≡ none
range_loop_outside change zero p bytes past start small = absurd (omega arith)
range_loop_outside change (suc n) p bytes past start small = elim (dec_lt (p / 8) (length bytes)) [
  | yes lt ↦
      range_loop-step change n p bytes lt (omega arith)
      ∙ range_loop_outside change n (p + 1) _
          (rw (length-set bytes (p / 8) (change (get_or bytes (p / 8) 0) (p % 8))) (omega arith))
          (rw (length-set bytes (p / 8) (change (get_or bytes (p / 8) 0) (p % 8))) (omega arith))
          (omega arith)
  | no ge ↦ unfold range_loop in rw (get_elem?-beyond bytes (p / 8) (omega arith), range_loop)
]

-- The storage has a bit for each position, and no position comes near the wrap of a `u32`.
pub record IsValid (b : Bitmap) : Type 0 where
  pub storage : length b.bitmap_data ≡ b.bitmap_size / 8 + 1
  pub small : b.bitmap_size + 16 < 2 ^ 32
  pub bytes : AreBytes b.bitmap_data

-- A new bitmap is valid, and all its bits are clear.
pub construct-IsValid :
    (n : ℕ)
    → n + 16 < 2 ^ 32
    → IsValid (construct n) × ((q : ℕ) → bit (construct n).bitmap_data q ≡ false)
unfolding construct
construct-IsValid n small = (
  record {
    storage = length-replicate {A = ℕ} (n / 8 + 1) 0;
    small = small;
    bytes = λ i. rw (get_or-replicate {A = ℕ} (n / 8 + 1) 0 i) (omega arith);
  },
  λ q. rw (get_or-replicate {A = ℕ} (n / 8 + 1) 0 (q / 8)) (check_bit_empty (q % 8) (omega arith)),
)

-- What a bitmap operation that writes `value` to a range leaves behind.
pub record Changed (value : Bool) (p n : ℕ) (b after : Bitmap) : Type 0 where
  pub valid : IsValid after
  pub size_kept : after.bitmap_size ≡ b.bitmap_size
  pub bits :
      (q : ℕ) → bit after.bitmap_data q ≡ (if in_range p n q then value else bit b.bitmap_data q)

module _ (b : Bitmap) (v : IsValid b) (p n : ℕ) where
  range-Changed :
      (value : Bool) (bytes : List ℕ)
      → Written value p n b.bitmap_data bytes
      → Changed value p n b (record b { bitmap_data = bytes })
  range-Changed value bytes w = record {
    valid = record { storage = w.length_kept ∙ v.storage; small = v.small; bytes = w.bytes };
    size_kept = refl;
    bits = w.bits;
  }

  not_beyond : p + n ≤ b.bitmap_size → ltb b.bitmap_size p ≡ false
  not_beyond h = ground arith

  -- `set_range` inside the bitmap sets the bits of its range, and no other.
  pub set_range-Changed :
      p + n ≤ b.bitmap_size
      → (after : Bitmap) × (set_range b p n ≡ some after) × Changed true p n b after
  unfolding set_range
  set_range-Changed h =
      let (bytes, ran, w) =
        range_loop-Written set_bit true check_bit-set_bit set_bit-lt n p b.bitmap_data v.bytes
          (omega (arith, v.storage)) (omega (arith, v.small)) in
      (record b { bitmap_data = bytes }, rw (not_beyond h, ran), range-Changed true bytes w)

  -- `clear_range` inside the bitmap clears the bits of its range, and no other.
  pub clear_range-Changed :
      p + n ≤ b.bitmap_size
      → (after : Bitmap) × (clear_range b p n ≡ some after) × Changed false p n b after
  unfolding clear_range
  clear_range-Changed h =
      let (bytes, ran, w) =
        range_loop-Written clear_bit false check_bit-clear_bit clear_bit-lt n p b.bitmap_data
          v.bytes (omega (arith, v.storage)) (omega (arith, v.small)) in
      (record b { bitmap_data = bytes }, rw (not_beyond h, ran), range-Changed false bytes w)

  -- A range that begins beyond the bitmap is left alone.
  pub set_range_beyond :
      b.bitmap_size < p → (set_range b p n ≡ some b) × (clear_range b p n ≡ some b)
  unfolding set_range clear_range
  set_range_beyond h = ground arith

  -- Below 2 ^ 32, a range that begins inside the bitmap and ends past its last byte is written to the end, and
  -- beyond.
  pub set_range_overflow :
      p ≤ b.bitmap_size
      → 8 * (b.bitmap_size / 8 + 1) < p + n
      → p + n < 2 ^ 32
      → (set_range b p n ≡ none) × (clear_range b p n ≡ none)
  unfolding set_range clear_range
  set_range_overflow start past small =
      let inside : ltb b.bitmap_size p ≡ false = ground arith in
      let runs = λ (change : ℕ → ℕ → ℕ).
        range_loop_outside change n p b.bitmap_data (omega (arith, v.storage))
          (omega (arith, v.storage)) small in
      (rw (inside, runs set_bit), rw (inside, runs clear_bit))

-- `check_set` reads the bit at a position of the bitmap.
pub check_set-bit :
    (b : Bitmap) (p : ℕ)
    → IsValid b
    → p ≤ b.bitmap_size
    → check_set b p ≡ some (bit b.bitmap_data p)
unfolding check_set
check_set-bit b p v h = rw (get_elem?-eq-get_or b.bitmap_data (p / 8) 0 (omega (arith, v.storage)))
