-- ===== src/VirtualMemory/Physical/Search.antt =====
-- The search for free physical pages finds the first run that is long enough.
use native.Mathlib.Decide.{dec_lt, ℕ_discrete}
use Prim.Native.Nat.{max}
use cyan_oskernel.Prelude.{
  ℕ, zero, suc, ◌+◌, ◌-◌, ◌*◌, ◌/◌, ◌%◌, ◌^◌, ◌≤◌, ◌<◌, ◌≡◌, ◌≢◌, ◌⊎◌, inl, inr, refl, sym, ap,
  subst, ◌∙◌, true, false, not, ◌&&◌, Option, none, some, List, arith, ◌==◌, if◌then◌else◌,
  Bool-cases, length, get_or, get_elem?-eq-get_or, check_bit, check_bit_full,
}
use cyan_oskernel.Stdlib.Bitmap.Range.{bit}
use cyan_oskernel.VirtualMemory.Physical.{
  PhysicalMemory, Progress, done, going, find_bits, find_bytes, find_pages,
}

-- The `n` pages from `p` on are free.
abbrev pub AreFree : List ℕ → ℕ → ℕ → Type 0
AreFree bytes p n = (j : ℕ) → p ≤ j → j < p + n → bit bytes j ≡ false

-- `p` is the first page from `s` on where `n` pages are free.
pub record FirstFit (bytes : List ℕ) (n s p : ℕ) : Type 0 where
  pub from : s ≤ p
  pub inside : p + n ≤ 8 * length bytes
  pub free : AreFree bytes p n
  pub least : (p' : ℕ) → s ≤ p' → AreFree bytes p' n → p ≤ p'

-- The search ends with the first fit, or with none where there is no fit.
pub data Searched (bytes : List ℕ) (count s : ℕ) : Option ℕ → Type 0 where
  fit : (p : ℕ) → FirstFit bytes count s p → Searched bytes count s (some p)
  no_fit :
      ((p : ℕ) → s ≤ p → p + count ≤ 8 * length bytes → ¬ AreFree bytes p count)
      → Searched bytes count s none

Progress-cases :
    (r : Progress) → ((page : ℕ) × (r ≡ done page)) ⊎ ((n : ℕ) × (first : ℕ) × (r ≡ going n first))
Progress-cases (done page) = inl (page, refl)
Progress-cases (going n first) = inr (n, first, refl)

module _ (bytes : List ℕ) (count s : ℕ) (some_pages : 0 < count) (small : count < 2 ^ 32) where
  -- Where the search stands before page `pos`: the last `count - remaining` pages are free, and no
  -- long enough run begins before them.
  record Run (pos remaining first : ℕ) : Type 0 where
    left : 0 < remaining
    le : remaining ≤ count
    room : s + (count - remaining) ≤ pos
    first_at : remaining ≢ count → first + (count - remaining) ≡ pos
    free : (j : ℕ) → pos ≤ j + (count - remaining) → j < pos → bit bytes j ≡ false
    least : (p : ℕ) → s ≤ p → AreFree bytes p count → pos ≤ p + (count - remaining)

  -- A used page ends the run.
  used_page :
      (pos remaining first first' : ℕ)
      → Run pos remaining first
      → bit bytes pos ≡ true
      → Run (pos + 1) count first'
  used_page pos remaining first first' r used = record {
    left = some_pages;
    le = omega arith;
    room = omega (arith, r.room);
    first_at = λ ne. absurd (ne refl);
    free = λ j lo hi. absurd (omega arith);
    least = λ p lo free. elim (dec_lt pos p) [
      | yes lt ↦ omega arith
      | no ge ↦ absurd (
          false_true
            (sym (free pos (omega arith) (omega (arith, r.least p lo free, r.left, r.le))) ∙ used))
    ];
  }
    where
      false_true : false ≡ true → ⊥
      false_true e = cc

  -- A free page makes the run longer.
  free_page :
      (pos remaining first : ℕ)
      → Run pos remaining first
      → bit bytes pos ≡ false
      → 1 < remaining
      → Run (pos + 1) (remaining - 1) (if remaining == count then pos else first)
  free_page pos remaining first r now more = record {
    left = omega arith;
    le = omega (arith, r.le);
    room = omega (arith, r.room, r.le);
    first_at = λ ne. ground (arith, r);
    free = λ j lo hi. elim (dec_lt j pos) [
      | yes lt ↦ r.free j (omega (arith, r.le)) lt
      | no ge ↦ let same : j ≡ pos = omega arith in ap (λ (k : ℕ). bit bytes k) same ∙ now
    ];
    least = λ p lo free. omega (arith, r.least p lo free, r.le);
  }

  -- The last page that is wanted completes it.
  last_page :
      (pos first : ℕ)
      → Run pos 1 first
      → bit bytes pos ≡ false
      → pos < 8 * length bytes
      → FirstFit bytes count s (if 1 == count then pos else first)
  last_page pos first r now inside = rw at_start (record {
    from = omega (arith, r.room);
    inside = omega (arith, r.room);
    free = λ j lo hi. elim (dec_lt j pos) [
      | yes lt ↦ r.free j (omega arith) lt
      | no ge ↦ let same : j ≡ pos = omega arith in ap (λ (k : ℕ). bit bytes k) same ∙ now
    ];
    least = λ p lo free. omega (arith, r.least p lo free);
  })
    where
      at_start : (if 1 == count then pos else first) ≡ pos - (count - 1)
      at_start = ground (arith, r)

  -- What the bits of a byte leave of the search: the first fit, or where it stands after them.
  abbrev After : ℕ → Progress → Type 0
  After pos (done page) = FirstFit bytes count s page
  After pos (going remaining first) = Run pos remaining first

  step_used :
      (n k i x remaining first : ℕ)
      → check_bit x k ≡ true
      → find_bits count (suc n) k i x remaining first ≡ find_bits count n (k + 1) i x count first
  unfolding find_bits
  step_used n k i x remaining first used =
      rw (used, find_bits) (ap (λ r. find_bits count n (k + 1) i x r first) (ground arith))

  step_free :
      (n k i x remaining first : ℕ)
      → check_bit x k ≡ false
      → 1 < remaining
      → remaining ≤ count
      → find_bits count (suc n) k i x remaining first
        ≡ find_bits count n
            (k + 1)
            i
            x
            (remaining - 1)
            (if remaining == count then 8 * i + k else first)
  unfolding find_bits
  step_free n k i x remaining first now more le =
      let less : (remaining + 2 ^ 32 - 1) % 2 ^ 32 ≡ remaining - 1 = omega arith in
      let test : (remaining - 1 == 0) ≡ false = ground arith in
      let page : k + i * 8 ≡ 8 * i + k = omega arith in
      rw (now, find_bits) (rw less (rw test (rw page (rw less refl))))

  step_last :
      (n k i x first : ℕ)
      → check_bit x k ≡ false
      → find_bits count (suc n) k i x 1 first ≡ done (if 1 == count then 8 * i + k else first)
  unfolding find_bits
  step_last n k i x first now =
      let page : k + i * 8 ≡ 8 * i + k = omega arith in rw (now, find_bits) (rw page refl)

  bit_of_byte : (k i : ℕ) → k < 8 → bit bytes (8 * i + k) ≡ check_bit (get_or bytes i 0) k
  bit_of_byte k i h =
      let byte : (8 * i + k) / 8 ≡ i = omega arith in
      let at : (8 * i + k) % 8 ≡ k = omega arith in rw (byte, at)

  find_bits-After :
      (n k i remaining first : ℕ)
      → k + n ≡ 8
      → i < length bytes
      → Run (8 * i + k) remaining first
      → After (8 * i + 8) (find_bits count n k i (get_or bytes i 0) remaining first)
  find_bits-After zero k i remaining first e inside r =
      let at : k ≡ 8 = omega arith in
      unfold find_bits in subst (λ (j : ℕ). Run (8 * i + j) remaining first) at r
  find_bits-After (suc n) k i remaining first e inside r =
      let at : 8 * i + k + 1 ≡ 8 * i + (k + 1) = omega arith in
      elim (Bool-cases (check_bit (get_or bytes i 0) k)) [
        | inl used ↦ rw (step_used n k i (get_or bytes i 0) remaining first used) (
            find_bits-After n (k + 1) i count first (omega arith) inside (
              rw at at (
                used_page (8 * i + k) remaining first first r
                  (bit_of_byte k i (omega arith) ∙ used))))
        | inr now ↦
            let free = bit_of_byte k i (omega arith) ∙ now in
            elim (ℕ_discrete remaining 1) [
              | yes one ↦
                  rw (one, step_last n k i (get_or bytes i 0) first now)
                    (last_page (8 * i + k) first (subst (λ (m : ℕ). Run (8 * i + k) m first) one r)
                      free (omega arith))
              | no ne ↦
                  rw
                    (step_free n k i (get_or bytes i 0) remaining first now (omega (arith, r.left))
                      r.le)
                    (find_bits-After n (k + 1) i (remaining - 1)
                      (if remaining == count then 8 * i + k else first) (omega arith) inside
                      (rw at at
                        (free_page (8 * i + k) remaining first r free (omega (arith, r.left)))))
            ]
      ]

  full_byte :
      (i remaining first : ℕ)
      → get_or bytes i 0 ≡ 0xFF
      → Run (8 * i) remaining first
      → Run (8 * i + 8) count first
  full_byte i remaining first full r = record {
    left = some_pages;
    le = omega arith;
    room = omega (arith, r.room);
    first_at = λ ne. absurd (ne refl);
    free = λ j lo hi. absurd (omega arith);
    least = λ p lo free. elim (dec_lt p (8 * i + 8)) [
      | yes lt ↦
          let inside : max p (8 * i) < p + count = omega (arith, r.least p lo free, r.left, r.le) in
          absurd (
            false_true (
              sym (free (max p (8 * i)) (omega arith) inside) ∙ used (max p (8 * i)) (omega arith)))
      | no ge ↦ omega arith
    ];
  }
    where
      false_true : false ≡ true → ⊥
      false_true e = cc

      used : (j : ℕ) → j / 8 ≡ i → bit bytes j ≡ true
      used j e = rw (e, full) (check_bit_full (j % 8) (omega arith))

  module _ (n i remaining first : ℕ) (inside : i < length bytes) where
    step_full :
        ((get_or bytes i 0 == 0xFF) && not (remaining == count)) ≡ true
        → find_bytes bytes count (suc n) i remaining first
          ≡ find_bytes bytes count n (i + 1) count first
    unfolding find_bytes
    step_full full = rw (get_elem?-eq-get_or bytes i 0 inside, find_bytes) (rw full refl)

    step_done :
        (page : ℕ)
        → ((get_or bytes i 0 == 0xFF) && not (remaining == count)) ≡ false
        → find_bits count 8 0 i (get_or bytes i 0) remaining first ≡ done page
        → find_bytes bytes count (suc n) i remaining first ≡ some page
    unfolding find_bytes
    step_done page other e =
        rw (get_elem?-eq-get_or bytes i 0 inside, find_bytes) (rw other (rw e refl))

    step_going :
        (remaining' first' : ℕ)
        → ((get_or bytes i 0 == 0xFF) && not (remaining == count)) ≡ false
        → find_bits count 8 0 i (get_or bytes i 0) remaining first ≡ going remaining' first'
        → find_bytes bytes count (suc n) i remaining first
          ≡ find_bytes bytes count n (i + 1) remaining' first'
    unfolding find_bytes
    step_going remaining' first' other e =
        rw (get_elem?-eq-get_or bytes i 0 inside, find_bytes) (rw other (rw e refl))

  find_bytes-Searched :
      (n i remaining first : ℕ)
      → i + n ≡ length bytes
      → Run (8 * i) remaining first
      → Searched bytes count s (find_bytes bytes count n i remaining first)
  unfolding find_bytes
  find_bytes-Searched zero i remaining first e r =
      no_fit (λ p lo inside free. omega (arith, r.least p lo free, r.left, r.le))
  find_bytes-Searched (suc n) i remaining first e r =
      let at : 8 * i + 8 ≡ 8 * (i + 1) = omega arith in
      elim (Bool-cases ((get_or bytes i 0 == 0xFF) && not (remaining == count))) [
        | inl full ↦ rw (step_full n i remaining first (omega arith) full) (
            find_bytes-Searched n (i + 1) count first (omega arith)
              (rw at at (full_byte i remaining first (ground arith) r)))
        | inr other ↦
            let after =
              find_bits-After 8 0 i remaining first (omega arith) (omega arith)
                (subst (λ (j : ℕ). Run j remaining first) (omega arith) r) in
            elim (Progress-cases (find_bits count 8 0 i (get_or bytes i 0) remaining first)) [
              | inl (page, e') ↦
                  rw (step_done n i remaining first (omega arith) page other e')
                    (fit page (rw e' at after))
              | inr (remaining', first', e') ↦
                  rw (step_going n i remaining first (omega arith) remaining' first' other e') (
                    find_bytes-Searched n (i + 1) remaining' first' (omega arith)
                      (rw at at (rw e' at after)))
            ]
      ]

-- Asked for at least one page and fewer than 2 ^ 32, from a page of the array on, `find_pages`
-- returns the first run of free pages that is long enough, from the byte of
-- `start_page` on, and panics only where there is none.
pub find_pages-Searched :
    (m : PhysicalMemory) (start count : ℕ)
    → 0 < count
    → count < 2 ^ 32
    → start < 8 * length m.tracer
    → Searched m.tracer count (8 * (start / 8)) (find_pages m start count)
unfolding find_pages
find_pages-Searched m start count pos small inside =
    find_bytes-Searched m.tracer count (8 * (start / 8)) pos small (length m.tracer - start / 8)
      (start / 8) count 0 (omega arith)
      (record {
        left = pos;
        le = omega arith;
        room = omega arith;
        first_at = λ ne. absurd (ne refl);
        free = λ j lo hi. absurd (omega arith);
        least = λ p lo free. omega arith;
      })
