-- ===== src/Stdlib/Clib/Numbers.antt =====
-- What `itoa` writes.
use cyan_oskernel.Prelude.{
  ℕ, ◌+◌, ◌-◌, ◌*◌, ◌≤◌, ◌<◌, ◌≡◌, ◌≢◌, List, [], ◌∷◌, ltb, if◌then◌else◌, length, set,
}
use cyan_oskernel.Stdlib.Clib.{digit_char}
use cyan_oskernel.Stdlib.Clib.Moves.{byte}

-- The number that a digit's character stands for, and that of characters, the lowest digit first.
pub digit_value : ℕ → ℕ
digit_value c = if ltb c 97 then c - 48 else c + 10 - 97

pub value : ℕ → List ℕ → ℕ
unfolding digit_value
value base [] = 0
value base (c ∷ cs) = digit_value c + base * value base cs

-- `text` has the characters of `written` in the other order, and a 0 behind them.
pub record Ordered (written text : List ℕ) : Type 0 where
  pub ends : length text ≡ length written + 1
  pub terminated : byte text (length written) ≡ 0
  pub order : (k : ℕ) → k < length written → byte text k ≡ byte written (length written - 1 - k)

-- The characters of a number in a base, the lowest digit first: of digits below the base, and with
-- no 0 in front.
pub record IsNumeral (base n : ℕ) (written : List ℕ) : Type 0 where
  pub some_digit : 1 ≤ length written
  pub stands_for : value base written ≡ n
  pub each : (k : ℕ) → k < length written → (d : ℕ) × (d < base) × (byte written k ≡ digit_char d)
  pub no_extra : 0 < n → byte written (length written - 1) ≢ 48
  pub nought : n ≡ 0 → written ≡ 48 ∷ []

-- The buffer between two rounds of the second loop: outside of the positions from `j` to `i` the
-- characters already stand in their order.
record Turned (written : List ℕ) (j i : ℕ) (buf : List ℕ) : Type 0 where
  apart : i + j ≡ length written - 1
  ends : length buf ≡ length written + 1
  terminated : byte buf (length written) ≡ 0
  left : (k : ℕ) → k < j → byte buf k ≡ byte written (length written - 1 - k)
  right : (k : ℕ) → i < k → k < length written → byte buf k ≡ byte written (length written - 1 - k)
  middle : (k : ℕ) → j ≤ k → k ≤ i → byte buf k ≡ byte written k

module _ (written : List ℕ) (some_digit : 1 ≤ length written) where
  swapped : (j i : ℕ) (buf : List ℕ) → List ℕ
  swapped j i buf = set (set buf j (byte buf i)) i (byte buf j)
