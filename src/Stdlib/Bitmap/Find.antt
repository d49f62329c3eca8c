-- ===== src/Stdlib/Bitmap/Find.antt =====
-- The search for the first clear or set bit.
use native.Mathlib.Decide.{dec_lt, ℕ_discrete}
use cyan_oskernel.Prelude.{
  ℕ, zero, suc, ◌+◌, ◌-◌, ◌/◌, ◌%◌, ◌^◌, ◌≤◌, ◌<◌, ◌≡◌, ◌≢◌, ◌⊎◌, inl, inr, refl, ap, ◌∙◌, Bool,
  true, false, not, some, arith, ltb, ◌==◌, get_or, get_elem?-eq-get_or, check_bit, check_bit_full,
  check_bit_empty, bool_eq,
}
use cyan_oskernel.Stdlib.Bitmap.{
  Bitmap, no_bits_left, skipped, find_loop, find_first_clear, find_first_clear_range,
  find_first_set, find_first_set_range,
}
use cyan_oskernel.Stdlib.Bitmap.Range.{bit, IsValid}

-- No bit in the positions from `s` up to `i` is `wanted`.
abbrev NoneIn : Bool → Bitmap → ℕ → ℕ → Type 0
NoneIn wanted b s i = (j : ℕ) → s ≤ j → j < i → bit b.bitmap_data j ≡ not wanted

-- The answer of a search for one `wanted` bit from `s` on.
pub data First (wanted : Bool) (b : Bitmap) (s r : ℕ) : Type 0 where
  found :
      s ≤ r
      → r < b.bitmap_size
      → bit b.bitmap_data r ≡ wanted
      → ((j : ℕ) → s ≤ j → j < r → bit b.bitmap_data j ≡ not wanted)
      → First wanted b s r
  missing :
      r ≡ no_bits_left
      → ((j : ℕ) → s ≤ j → j < b.bitmap_size → bit b.bitmap_data j ≡ not wanted)
      → First wanted b s r

-- A search's answer that is a `wanted` bit, or that there is none.
abbrev pub Hit : Bool → Bitmap → ℕ → Type 0
Hit wanted b r = (r ≡ no_bits_left) ⊎ ((r < b.bitmap_size) × (bit b.bitmap_data r ≡ wanted))

bool_eq_refl : (w : Bool) → bool_eq w w ≡ true
unfolding bool_eq
bool_eq_refl w = ground arith

bool_ne : (w : Bool) → bool_eq (not w) w ≡ false
unfolding bool_eq
bool_ne w = ground arith

module _ (wanted : Bool) (b : Bitmap) (v : IsValid b) where
  abbrev byte : ℕ → ℕ
  byte i = get_or b.bitmap_data (i / 8) 0

  skipped_bits : (j : ℕ) → byte j ≡ skipped wanted → bit b.bitmap_data j ≡ not wanted
  skipped_bits j e = rw e (go wanted)
    where
      go : (w : Bool) → check_bit (skipped w) (j % 8) ≡ not w
      go true = check_bit_empty (j % 8) (omega arith)
      go false = check_bit_full (j % 8) (omega arith)

  find_end : (f i : ℕ) → b.bitmap_size ≤ i → find_loop wanted (suc f) b 1 1 i ≡ some no_bits_left
  unfolding find_loop
  find_end f i h = let test : ltb i b.bitmap_size ≡ false = ground arith in rw (test, find_loop)

  find_skip :
      (f i : ℕ)
      → i < b.bitmap_size
      → byte i ≡ skipped wanted
      → find_loop wanted (suc f) b 1 1 i ≡ find_loop wanted f b 1 1 (i + 8)
  unfolding find_loop
  find_skip f i h e =
      let test : ltb i b.bitmap_size ≡ true = ground arith in
      let full : (byte i == skipped wanted) ≡ true = ground arith in
      let next : (i + 8) % 2 ^ 32 ≡ i + 8 = omega (arith, v.small) in
      rw (test, find_loop)
        (rw (get_elem?-eq-get_or b.bitmap_data (i / 8) 0 (omega (arith, v.storage)))
          (rw full (rw next refl)))

  -- A round at a byte with a wanted bit, which this may be or not.
  find_hit :
      (f i : ℕ)
      → i < b.bitmap_size
      → byte i ≢ skipped wanted
      → bit b.bitmap_data i ≡ wanted
      → find_loop wanted (suc f) b 1 1 i ≡ some i
  unfolding find_loop
  find_hit f i h ne e =
      let test : ltb i b.bitmap_size ≡ true = ground arith in
      let other : (byte i == skipped wanted) ≡ false = ground arith in
      let same : bool_eq (check_bit (byte i) (i % 8)) wanted ≡ true = rw e (bool_eq_refl wanted) in
      let at : (i + 2 ^ 32 - 1 + 1) % 2 ^ 32 ≡ i = omega (arith, v.small) in
      rw (test, find_loop)
        (rw (get_elem?-eq-get_or b.bitmap_data (i / 8) 0 (omega (arith, v.storage)))
          (rw other (rw same (rw at refl))))

  find_miss :
      (f i : ℕ)
      → i < b.bitmap_size
      → byte i ≢ skipped wanted
      → bit b.bitmap_data i ≡ not wanted
      → find_loop wanted (suc f) b 1 1 i ≡ find_loop wanted f b 1 1 (i + 1)
  unfolding find_loop
  find_miss f i h ne e =
      let test : ltb i b.bitmap_size ≡ true = ground arith in
      let other : (byte i == skipped wanted) ≡ false = ground arith in
      let differ : bool_eq (check_bit (byte i) (i % 8)) wanted ≡ false = rw e (bool_ne wanted) in
      let next : (i + 1) % 2 ^ 32 ≡ i + 1 = omega (arith, v.small) in
      rw (test, find_loop)
        (rw (get_elem?-eq-get_or b.bitmap_data (i / 8) 0 (omega (arith, v.storage)))
          (rw other (rw differ (rw next (rw differ refl)))))

  -- The search passes a whole byte only where it stands at the byte's first bit: it came there
  -- from the last bit of the byte before, or the byte has a wanted bit.
  abbrev AtByte : ℕ → Type 0
  AtByte i = (i % 8 ≡ 0) ⊎ (byte i ≢ skipped wanted)

  at_next : (i : ℕ) → byte i ≢ skipped wanted → AtByte (i + 1)
  at_next i ne = elim (dec_lt (i % 8) 7) [
    | yes lt ↦ inr (λ e. ne (ap (λ k. get_or b.bitmap_data k 0) (omega arith) ∙ e))
    | no ge ↦ inl (omega arith)
  ]

  none_next :
      (s i : ℕ) → bit b.bitmap_data i ≡ not wanted → NoneIn wanted b s i → NoneIn wanted b s (i + 1)
  none_next s i e before j lo hi = elim (dec_lt j i) [
    | yes lt ↦ before j lo lt
    | no ge ↦ let same : j ≡ i = omega arith in ap (λ (k : ℕ). bit b.bitmap_data k) same ∙ e
  ]

  none_skip :
      (s i : ℕ)
      → i % 8 ≡ 0
      → byte i ≡ skipped wanted
      → NoneIn wanted b s i
      → NoneIn wanted b s (i + 8)
  none_skip s i start e before j lo hi = elim (dec_lt j i) [
    | yes lt ↦ before j lo lt
    | no ge ↦
        let same : j / 8 ≡ i / 8 = omega arith in
        skipped_bits j (ap (λ (k : ℕ). get_or b.bitmap_data k 0) same ∙ e)
  ]

  start_of_byte : (i : ℕ) → AtByte i → byte i ≡ skipped wanted → i % 8 ≡ 0
  start_of_byte i (inl start) e = start
  start_of_byte i (inr ne) e = absurd (ne e)

  bit-cases : (i : ℕ) → (bit b.bitmap_data i ≡ wanted) ⊎ (bit b.bitmap_data i ≡ not wanted)
  bit-cases i = ground arith

  -- Every round raises the index, and no wanted bit is passed.
  find_loop-First :
      (f s i : ℕ)
      → 0 < f
      → b.bitmap_size < i + f
      → s ≤ i
      → AtByte i
      → NoneIn wanted b s i
      → (r : ℕ) × (find_loop wanted f b 1 1 i ≡ some r) × First wanted b s r
  find_loop-First zero s i pos enough le start before = absurd (omega arith)
  find_loop-First (suc f) s i pos enough le start before = elim (dec_lt i b.bitmap_size) [
    | no end ↦ (
      no_bits_left,
      find_end f i (omega arith),
      missing refl (λ j lo hi. before j lo (omega arith)),
    )
    | yes lt ↦ elim (ℕ_discrete (byte i) (skipped wanted)) [
      | yes full ↦
          let aligned = start_of_byte i start full in
          let (r, ran, first) =
            find_loop-First f s (i + 8) (omega arith) (omega arith) (omega arith)
              (inl (omega arith)) (none_skip s i aligned full before) in
          (r, find_skip f i lt full ∙ ran, first)
      | no ne ↦ elim (bit-cases i) [
        | inl hit ↦ (i, find_hit f i lt ne hit, found le lt hit before)
        | inr miss ↦
            let (r, ran, first) =
              find_loop-First f s (i + 1) (omega arith) (omega arith) (omega arith) (at_next i ne)
                (none_next s i miss before) in
            (r, find_miss f i lt ne miss ∙ ran, first)
      ]
    ]
  ]

  -- From any index, what a search returns is a wanted bit, or BITMAP_NO_BITS_LEFT. A search that
  -- starts inside of a byte can pass a wanted bit.
  find_loop-Hit :
      (f i : ℕ)
      → 0 < f
      → b.bitmap_size < i + f
      → (r : ℕ) × (find_loop wanted f b 1 1 i ≡ some r) × Hit wanted b r
  find_loop-Hit zero i pos enough = absurd (omega arith)
  find_loop-Hit (suc f) i pos enough = elim (dec_lt i b.bitmap_size) [
    | no end ↦ (no_bits_left, find_end f i (omega arith), inl refl)
    | yes lt ↦ elim (ℕ_discrete (byte i) (skipped wanted)) [
      | yes full ↦
          let (r, ran, hit) = find_loop-Hit f (i + 8) (omega arith) (omega arith) in
          (r, find_skip f i lt full ∙ ran, hit)
      | no ne ↦ elim (bit-cases i) [
        | inl e ↦ (i, find_hit f i lt ne e, inr (lt, e))
        | inr miss ↦
            let (r, ran, hit) = find_loop-Hit f (i + 1) (omega arith) (omega arith) in
            (r, find_miss f i lt ne miss ∙ ran, hit)
      ]
    ]
  ]

module _ (b : Bitmap) (v : IsValid b) (s : ℕ) (aligned : s % 8 ≡ 0) where
  -- A search for a clear bit that starts at a byte ends, with the first clear bit from there on,
  -- or with BITMAP_NO_BITS_LEFT where every bit is set.
  pub find_first_clear-First : (r : ℕ) × (find_first_clear b s ≡ some r) × First false b s r
  unfolding find_first_clear find_first_clear_range
  find_first_clear-First =
      find_loop-First false b v (suc b.bitmap_size) s s (omega arith) (omega arith) (omega arith)
        (inl aligned) (λ j lo hi. absurd (omega arith))

  -- The same of a set bit.
  pub find_first_set-First : (r : ℕ) × (find_first_set b s ≡ some r) × First true b s r
  unfolding find_first_set find_first_set_range
  find_first_set-First =
      find_loop-First true b v (suc b.bitmap_size) s s (omega arith) (omega arith) (omega arith)
        (inl aligned) (λ j lo hi. absurd (omega arith))

-- From any index, the search for a clear bit ends, and what it returns is a clear bit.
pub find_first_clear-Hit :
    (b : Bitmap) → IsValid b → (s : ℕ) → (r : ℕ) × (find_first_clear b s ≡ some r) × Hit false b r
unfolding find_first_clear find_first_clear_range
find_first_clear-Hit b v s =
    find_loop-Hit false b v (suc b.bitmap_size) s (omega arith) (omega arith)
