-- ===== src/VirtualMemory/Virtual/Search.antt =====
-- What the search for virtual pages finds.
use native.Mathlib.Decide.{dec_lt, dec_le}
use cyan_oskernel.Prelude.{
  ℕ, zero, suc, ◌+◌, ◌-◌, ◌*◌, ◌/◌, ◌%◌, ◌^◌, ◌≤◌, ◌<◌, ◌≡◌, ◌⊎◌, inl, inr, refl, sym, ap, subst,
  ◌∙◌, Bool, true, false, Option, none, some, arith, ltb, ◌==◌, if◌then◌else◌, Bool-cases,
}
use cyan_oskernel.VirtualMemory.Paging.{Tables, check_page_present}
use cyan_oskernel.VirtualMemory.Paging.Mapped.{IsValid, translate, check_page_present-translate}
use cyan_oskernel.VirtualMemory.Virtual.{find_loop, find_pages}

abbrev pub is_found : Option ℕ → Bool
is_found none = false
is_found (some f) = true

-- Whether a page of the range is in use.
abbrev pub used : Tables → ℕ → ℕ → Bool
used t start m = is_found (translate (start + 2 ^ 12 * m) t)

-- The result of a search for `n` pages among the first `size` pages from `start`: the first run of
-- free pages, or none where there is no such run.
pub data Scanned (t : Tables) (start size n : ℕ) : Option ℕ → Type 0 where
  run :
      (s : ℕ)
      → s + n ≤ size
      → ((k : ℕ) → k < n → used t start (s + k) ≡ false)
      → ((r : ℕ) → r < s → (k : ℕ) × (k < n) × (used t start (r + k) ≡ true))
      → Scanned t start size n (some (start + 2 ^ 12 * s))
  nothing :
      ((r : ℕ) → r + n ≤ size → (k : ℕ) × (k < n) × (used t start (r + k) ≡ true))
      → Scanned t start size n none

as_found : (r : Option ℕ) → some (elim r [ none ↦ false | some _ ↦ true ]) ≡ some (is_found r)
as_found none = refl
as_found (some f) = refl

module _ (t : Tables) (v : IsValid t) (start size n : ℕ) (some_pages : 1 ≤ n) (fits : n < 2 ^ 32)
    (inside : start + 2 ^ 12 * size < 2 ^ 32) where
  -- The state of the search at page `m`: the last `c` pages are free, and the page before them is
  -- in use, or the first is one of them.
  record At (m c first : ℕ) : Type 0 where
    short : c < n
    back : c ≤ m
    free : (k : ℕ) → k < c → used t start ((m - c) + k) ≡ false
    before : (m ≡ c) ⊎ ((1 ≤ m - c) × (used t start (m - c - 1) ≡ true))
    first_is : 1 ≤ c → first ≡ start + 2 ^ 12 * (m - c)
    none_before : (r : ℕ) → r + n ≤ m → (k : ℕ) × (k < n) × (used t start (r + k) ≡ true)

  page : ℕ → ℕ
  page m = start + 2 ^ 12 * m

  present-at : (m : ℕ) → m < size → check_page_present (page m) t ≡ some (used t start m)
  unfolding page
  present-at m lt =
      check_page_present-translate t v (start + 2 ^ 12 * m) (omega arith)
      ∙ as_found (translate (start + 2 ^ 12 * m) t)

  step_end :
      (fuel m remaining first : ℕ)
      → m ≡ size
      → find_loop (suc fuel) (page m) (page size) n remaining first t ≡ none
  unfolding find_loop page
  step_end fuel m remaining first last = rw (over, find_loop) refl
    where
      over : ltb (page m) (page size) ≡ false
      over = ground arith

  below : (m : ℕ) → m < size → ltb (page m) (page size) ≡ true
  unfolding page
  below m lt = ground arith

  next_page : (m : ℕ) → m < size → (page m + 2 ^ 12) % 2 ^ 32 ≡ page (suc m)
  unfolding page
  next_page m lt = omega arith

  step_used :
      (fuel m remaining first : ℕ)
      → m < size
      → used t start m ≡ true
      → find_loop (suc fuel) (page m) (page size) n remaining first t
        ≡ find_loop fuel (page (suc m)) (page size) n n first t
  unfolding find_loop
  step_used fuel m remaining first lt u =
      rw (below m lt, find_loop)
        (rw (present-at m lt ∙ ap (λ b. some b) u) (rw (next_page m lt) refl))

  abbrev first_from : ℕ → ℕ → ℕ → ℕ
  first_from remaining m first = if remaining == n then page m else first

  step_last :
      (fuel m remaining first : ℕ)
      → m < size
      → used t start m ≡ false
      → remaining ≡ 1
      → find_loop (suc fuel) (page m) (page size) n remaining first t
        ≡ some (first_from remaining m first)
  unfolding find_loop
  step_last fuel m remaining first lt u last =
      rw (below m lt, find_loop) (rw (present-at m lt ∙ ap (λ b. some b) u) (rw spent refl))
    where
      spent : ((remaining + (2 ^ 32 - 1)) % 2 ^ 32 == 0) ≡ true
      spent = ground arith

  step_free :
      (fuel m remaining first : ℕ)
      → m < size
      → used t start m ≡ false
      → suc remaining ≤ n
      → 1 ≤ remaining
      → find_loop (suc fuel) (page m) (page size) n (suc remaining) first t
        ≡ find_loop fuel
            (page (suc m))
            (page size)
            n
            remaining
            (first_from (suc remaining) m first)
            t
  unfolding find_loop
  step_free fuel m remaining first lt u few more =
      rw (below m lt, find_loop)
        (rw (present-at m lt ∙ ap (λ b. some b) u) (
          rw more_left (
            rw (next_page m lt) (
              ap
                (λ (i : ℕ).
                  find_loop fuel (page (suc m)) (page size) n i (first_from (suc remaining) m first)
                    t)
                left))))
    where
      left : (suc remaining + (2 ^ 32 - 1)) % 2 ^ 32 ≡ remaining
      left = omega arith

      more_left : ((suc remaining + (2 ^ 32 - 1)) % 2 ^ 32 == 0) ≡ false
      more_left = ground arith

  -- The start, a page in use, and a free page.
  At-start : At 0 0 0
  At-start = record {
    short = omega arith;
    back = omega arith;
    free = λ k lt. absurd (omega arith);
    before = inl refl;
    first_is = λ lt. absurd (omega arith);
    none_before = λ r lt. absurd (omega arith);
  }

  At-used : (m c first : ℕ) → At m c first → used t start m ≡ true → At (suc m) 0 first
  At-used m c first a u = record {
    short = omega arith;
    back = omega arith;
    free = λ k lt. absurd (omega arith);
    before = inr (omega arith, ap (λ (i : ℕ). used t start i) (omega arith) ∙ u);
    first_is = λ lt. absurd (omega arith);
    none_before = λ r le. elim (dec_le (r + n) m) [
      | yes early ↦ a.none_before r early
      | no late ↦ (n - 1, omega arith, ap (λ (i : ℕ). used t start i) (omega arith) ∙ u)
    ];
  }

  -- The page before the free pages is in every run that starts before them and ends after them.
  blocked_run :
      (m c first r : ℕ)
      → At m c first
      → r < m - c
      → m ≤ r + n
      → (k : ℕ) × (k < n) × (used t start (r + k) ≡ true)
  blocked_run m c first r a early late = elim a.before [
    | inl all ↦ absurd (omega (arith, all))
    | inr (some_before, u) ↦ (
      m - c - 1 - r,
      omega (arith, a.short),
      ap (λ (i : ℕ). used t start i) (omega (arith, a.short)) ∙ u,
    )
  ]

  free_on :
      (m c first : ℕ)
      → At m c first
      → used t start m ≡ false
      → (k : ℕ) → k < suc c
      → used t start ((m - c) + k) ≡ false
  free_on m c first a u k lt = elim (dec_lt k c) [
    | yes inner ↦ a.free k inner
    | no outer ↦ ap (λ (i : ℕ). used t start i) (omega (arith, a.back)) ∙ u
  ]

  first-is : (m c first : ℕ) → At m c first → first_from (n - c) m first ≡ page (m - c)
  unfolding page
  first-is m c first a = ground (arith, a.first_is, a.short, a.back)

  At-free :
      (m c first : ℕ)
      → At m c first
      → used t start m ≡ false
      → suc c < n
      → At (suc m) (suc c) (first_from (n - c) m first)
  unfolding page
  At-free m c first a u more = record {
    short = more;
    back = omega (arith, a.back);
    free =
        λ k lt. ap (λ (i : ℕ). used t start i) (omega (arith, a.back)) ∙ free_on m c first a u k lt;
    before = elim a.before [
      | inl all ↦ inl (omega (arith, all))
      | inr (some_before, w) ↦ inr (omega arith, ap (λ (i : ℕ). used t start i) (omega arith) ∙ w)
    ];
    first_is = λ lt. first-is m c first a ∙ ap page (omega arith);
    none_before = λ r le. elim (dec_le (r + n) m) [
      | yes early ↦ a.none_before r early
      | no late ↦ blocked_run m c first r a (omega (arith, a.back)) (omega arith)
    ];
  }

  found :
      (m c first : ℕ)
      → At m c first
      → m < size
      → used t start m ≡ false
      → suc c ≡ n
      → Scanned t start size n (some (page (m - c)))
  unfolding page
  found m c first a lt u last =
      run (m - c) (omega (arith, a.back))
        (λ k within. free_on m c first a u k (omega (arith, last)))
        (λ r early. blocked_or_before r early (dec_le (r + n) m))
    where
      blocked_or_before :
          (r : ℕ) → r < m - c → Dec (r + n ≤ m) → (k : ℕ) × (k < n) × (used t start (r + k) ≡ true)
      blocked_or_before r early (yes inside) = a.none_before r inside
      blocked_or_before r early (no late) = blocked_run m c first r a early (omega arith)

  search :
      (fuel m c first : ℕ)
      → At m c first
      → suc size ≤ m + fuel
      → m ≤ size
      → Scanned t start size n (find_loop fuel (page m) (page size) n (n - c) first t)
  search zero m c first a enough le = absurd (omega arith)
  search (suc fuel) m c first a enough le = elim (dec_lt m size) [
    | no over ↦
        subst (Scanned t start size n) (sym (step_end fuel m (n - c) first (omega arith)))
          (nothing (λ r within. a.none_before r (omega arith)))
    | yes lt ↦ elim (Bool-cases (used t start m)) [
      | inl u ↦
          subst (Scanned t start size n)
            (sym (
              step_used fuel m (n - c) first lt u
              ∙ ap (λ (i : ℕ). find_loop fuel (page (suc m)) (page size) n i first t)
                  (omega arith)))
            (search fuel (suc m) 0 first (At-used m c first a u) (omega arith) lt)
      | inr u ↦ elim (dec_lt (suc c) n) [
        | yes more ↦
            subst (Scanned t start size n)
              (sym (
                ap (λ (i : ℕ). find_loop (suc fuel) (page m) (page size) n i first t) (omega arith)
                ∙ step_free fuel m (n - suc c) first lt u (omega arith) (omega arith)
                ∙ ap
                    (λ (i : ℕ).
                      find_loop fuel (page (suc m)) (page size) n (n - suc c) (first_from i m first)
                        t)
                    (omega arith)))
              (search fuel (suc m) (suc c) (first_from (n - c) m first) (At-free m c first a u more)
                (omega arith) lt)
        | no last ↦
            subst (Scanned t start size n)
              (sym (
                step_last fuel m (n - c) first lt u (omega (arith, a.short))
                ∙ ap (λ (i : ℕ). some i) (first-is m c first a)))
              (found m c first a lt u (omega (arith, a.short)))
      ]
    ]
  ]

  -- In valid tables, for a range of whole pages and at least one page to find, `find_pages` returns
  -- the first run of that many free pages of the range; where there is none, it panics.
  pub find_pages-Scanned : Scanned t start size n (find_pages start (start + 2 ^ 12 * size) n t)
  unfolding find_pages page
  find_pages-Scanned =
      subst (Scanned t start size n)
        (ap (λ (i : ℕ). find_loop rounds i (page size) n (n - 0) 0 t) (omega arith)
          ∙ ap (λ (i : ℕ). find_loop rounds start (page size) n i 0 t) (omega arith))
        (search rounds 0 0 0 At-start (omega arith) (omega arith))
    where
      rounds : ℕ
      rounds = suc ((start + 2 ^ 12 * size - start) / 2 ^ 12 + 1)
