-- ===== src/Stdlib/Clib/Moves.antt =====
-- What copying and moving memory do.
use native.Mathlib.Decide.{dec_lt, ℕ_discrete}
use cyan_oskernel.Prelude.{
  ℕ, zero, suc, ◌+◌, ◌-◌, ◌≤◌, ◌<◌, ◌≡◌, ◌≢◌, refl, ap, subst, ◌∙◌, true, false, some, List, arith,
  ltb, length, get_or, set, length-set, get_or-set, get_elem?-eq-get_or,
}
use cyan_oskernel.Stdlib.Clib.{write, memcpy_loop, memcpy, move_down, move_up, memmove}

-- The byte at an offset.
abbrev pub byte : List ℕ → ℕ → ℕ
byte memory j = get_or memory j 0

-- `after` is `dest`, with `len` bytes from `at` on as `source` has them from `start` on.
pub record Copied (at start len : ℕ) (source dest after : List ℕ) : Type 0 where
  pub length_kept : length after ≡ length dest
  pub inside : (k : ℕ) → k < len → byte after (at + k) ≡ byte source (start + k)
  pub before : (j : ℕ) → j < at → byte after j ≡ byte dest j
  pub beyond : (j : ℕ) → at + len ≤ j → byte after j ≡ byte dest j

write-set :
    (target value : ℕ) (memory : List ℕ)
    → target < length memory
    → write target value memory ≡ some (set memory target value)
write-set target value memory lt =
    let test : ltb target (length memory) ≡ true = ground arith in rw test refl

module _ (memory : List ℕ) (target value : ℕ) (lt : target < length memory) where
  pub set_here : byte (set memory target value) target ≡ value
  set_here = ground (arith, get_or-set memory target target value 0 lt)

  pub set_other : (j : ℕ) → j ≢ target → byte (set memory target value) j ≡ byte memory j
  set_other j ne = ground (arith, get_or-set memory target j value 0 lt)

memcpy_loop-Copied :
    (n i at : ℕ) (source dest : List ℕ)
    → i + n ≤ length source
    → at + i + n ≤ length dest
    → (after : List ℕ) × (memcpy_loop n i at source dest ≡ some after)
      × Copied (at + i) i n source dest after
unfolding memcpy_loop
memcpy_loop-Copied zero i at source dest from to = (
  dest,
  refl,
  record {
    length_kept = refl;
    inside = λ k lt. absurd (omega arith);
    before = λ j lt. refl;
    beyond = λ j le. refl;
  },
)
memcpy_loop-Copied (suc n) i at source dest from to =
    let x = byte source i in
    let now = set dest (at + i) x in
    let same : length now ≡ length dest = length-set dest (at + i) x in
    let (after, ran, c) = memcpy_loop-Copied n (suc i) at source now (omega arith) (omega arith) in
    (
      after,
      rw (get_elem?-eq-get_or source i 0 (omega arith), memcpy_loop)
          (rw (write-set (at + i) x dest (omega arith)) ran),
      record {
        length_kept = c.length_kept ∙ same;
        inside = λ k lt. elim (ℕ_discrete k 0) [
          | yes is ↦
              ap (λ (j : ℕ). byte after j) (omega arith)
              ∙ c.before (at + i) (omega arith)
              ∙ set_here dest (at + i) x (omega arith)
              ∙ ap (λ (j : ℕ). byte source j) (omega arith)
          | no ne ↦
              ap (λ (j : ℕ). byte after j) (omega arith)
              ∙ c.inside (k - 1) (omega arith)
              ∙ ap (λ (j : ℕ). byte source j) (omega arith)
        ];
        before = λ j lt.
            c.before j (omega arith) ∙ set_other dest (at + i) x (omega arith) j (λ e. omega arith);
        beyond = λ j le.
            c.beyond j (omega arith) ∙ set_other dest (at + i) x (omega arith) j (λ e. omega arith);
      },
    )

-- `memcpy` inside of both objects copies its bytes, and no other byte changes.
pub memcpy-Copied :
    (at len : ℕ) (source dest : List ℕ)
    → len ≤ length source
    → at + len ≤ length dest
    → (after : List ℕ) × (memcpy at source len dest ≡ some after)
      × Copied at 0 len source dest after
unfolding memcpy
memcpy-Copied at len source dest from to =
    let (after, ran, c) = memcpy_loop-Copied len 0 at source dest (omega arith) (omega arith) in
    (after, ran, ap_at after c)
  where
    ap_at :
        (after : List ℕ)
        → Copied (at + 0) 0 len source dest after
        → Copied at 0 len source dest after
    ap_at after c =
        let same : at + 0 ≡ at = omega arith in
        subst (λ (x : ℕ). Copied x 0 len source dest after) same c

move_down-Copied :
    (n dest source : ℕ) (memory : List ℕ)
    → source < dest
    → dest + n ≤ length memory
    → (after : List ℕ) × (move_down n dest source memory ≡ some after)
      × Copied dest source n memory memory after
unfolding move_down
move_down-Copied zero dest source memory lower to = (
  memory,
  refl,
  record {
    length_kept = refl;
    inside = λ k lt. absurd (omega arith);
    before = λ j lt. refl;
    beyond = λ j le. refl;
  },
)
move_down-Copied (suc n) dest source memory lower to =
    let x = byte memory (source + n) in
    let now = set memory (dest + n) x in
    let same : length now ≡ length memory = length-set memory (dest + n) x in
    let inside : dest + n < length memory = omega arith in
    let (after, ran, c) = move_down-Copied n dest source now lower (omega arith) in
    (
      after,
      rw (get_elem?-eq-get_or memory (source + n) 0 (omega arith), move_down)
          (rw (write-set (dest + n) x memory inside) ran),
      record {
        length_kept = c.length_kept ∙ same;
        inside = λ k lt. elim (ℕ_discrete k n) [
          | yes is ↦
              c.beyond (dest + k) (omega arith)
              ∙ ap (λ (j : ℕ). byte now j) (omega arith)
              ∙ set_here memory (dest + n) x inside
              ∙ ap (λ (j : ℕ). byte memory j) (omega arith)
          | no ne ↦
              c.inside k (omega arith)
              ∙ set_other memory (dest + n) x inside (source + k) (λ e. omega arith)
        ];
        before = λ j lt. c.before j lt ∙ set_other memory (dest + n) x inside j (λ e. omega arith);
        beyond = λ j le.
            c.beyond j (omega arith) ∙ set_other memory (dest + n) x inside j (λ e. omega arith);
      },
    )

move_up-Copied :
    (n dest source : ℕ) (memory : List ℕ)
    → dest ≤ source
    → source + n ≤ length memory
    → (after : List ℕ) × (move_up n dest source memory ≡ some after)
      × Copied dest source n memory memory after
unfolding move_up
move_up-Copied zero dest source memory lower to = (
  memory,
  refl,
  record {
    length_kept = refl;
    inside = λ k lt. absurd (omega arith);
    before = λ j lt. refl;
    beyond = λ j le. refl;
  },
)
move_up-Copied (suc n) dest source memory lower to =
    let x = byte memory source in
    let now = set memory dest x in
    let same : length now ≡ length memory = length-set memory dest x in
    let inside : dest < length memory = omega arith in
    let (after, ran, c) =
      move_up-Copied n (suc dest) (suc source) now (omega arith) (omega arith) in
    (
      after,
      rw (get_elem?-eq-get_or memory source 0 (omega arith), move_up)
          (rw (write-set dest x memory inside) ran),
      record {
        length_kept = c.length_kept ∙ same;
        inside = λ k lt. elim (ℕ_discrete k 0) [
          | yes is ↦
              ap (λ (j : ℕ). byte after j) (omega arith)
              ∙ c.before dest (omega arith)
              ∙ set_here memory dest x inside
              ∙ ap (λ (j : ℕ). byte memory j) (omega arith)
          | no ne ↦
              ap (λ (j : ℕ). byte after j) (omega arith)
              ∙ c.inside (k - 1) (omega arith)
              ∙ set_other memory dest x inside (suc source + (k - 1)) (λ e. omega arith)
              ∙ ap (λ (j : ℕ). byte memory j) (omega arith)
        ];
        before =
            λ j lt. c.before j (omega arith) ∙ set_other memory dest x inside j (λ e. omega arith);
        beyond =
            λ j le. c.beyond j (omega arith) ∙ set_other memory dest x inside j (λ e. omega arith);
      },
    )

-- `memmove` inside of the memory copies its bytes as they were before the call, also where the two
-- areas overlap, in either order, and no other byte changes.
pub memmove-Copied :
    (len dest source : ℕ) (memory : List ℕ)
    → dest + len ≤ length memory
    → source + len ≤ length memory
    → (after : List ℕ) × (memmove dest source len memory ≡ some after)
      × Copied dest source len memory memory after
unfolding memmove
memmove-Copied len dest source memory to from = elim (dec_lt source dest) [
  | yes lower ↦
      let test : ltb source dest ≡ true = ground arith in
      let (after, ran, c) = move_down-Copied len dest source memory lower to in
      (after, rw (test, memmove) ran, c)
  | no higher ↦
      let test : ltb source dest ≡ false = ground arith in
      let (after, ran, c) = move_up-Copied len dest source memory (omega arith) from in
      (after, rw (test, memmove) ran, c)
]
