-- ===== src/VirtualMemory/Slab/Counts.antt =====
-- The number of set bits in a bitmap, and what writing one bit makes of it.
use native.Mathlib.Decide.{ℕ_discrete}
use cyan_oskernel.Prelude.{
  ℕ, zero, suc, ◌+◌, ◌≤◌, ◌<◌, ◌≡◌, refl, ap, Bool, false, List, arith, ◌==◌, if◌then◌else◌,
}
use cyan_oskernel.Stdlib.Bitmap.Range.{bit}

-- The set bits below a position.
unfoldable pub used : ℕ → List ℕ → ℕ
used zero bytes = 0
used (suc n) bytes = used n bytes + (if bit bytes n then 1 else 0)

module _ (i : ℕ) (before after : List ℕ) (value : Bool)
    (bits : (q : ℕ) → bit after q ≡ (if i == q then value else bit before q)) where
  used_below : (n : ℕ) → n ≤ i → used n after ≡ used n before
  unfolding used
  used_below zero h = refl
  used_below (suc n) h = ground (arith, used_below n (omega arith), bits n)

  pub used_write :
      (n : ℕ)
      → i < n
      → used n after + (if bit before i then 1 else 0) ≡ used n before + (if value then 1 else 0)
  unfolding used
  used_write zero h = absurd (omega arith)
  used_write (suc n) h = elim (ℕ_discrete i n) [
    | yes same ↦ ground (arith, used_below n (omega arith), bits n, ap (λ k. bit before k) same)
    | no other ↦ ground (arith, used_write n (omega arith), bits n)
  ]

pub used_le : (n : ℕ) (bytes : List ℕ) → used n bytes ≤ n
unfolding used
used_le zero bytes = omega arith
used_le (suc n) bytes = ground (arith, used_le n bytes)

-- Where no bit is set, none is counted.
pub used_empty : (n : ℕ) (bytes : List ℕ) → ((q : ℕ) → bit bytes q ≡ false) → used n bytes ≡ 0
unfolding used
used_empty zero bytes h = refl
used_empty (suc n) bytes h = ground (arith, used_empty n bytes h, h n)
