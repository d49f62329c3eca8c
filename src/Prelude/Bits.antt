-- ===== src/Prelude/Bits.antt =====
-- The bits of a byte, as `bitmap.cpp`, `static_bitmap.h` and `physical.cpp` set, clear and test them.
use Prim.Native.Nat.{ℕ, zero, suc, ◌-◌, ◌/◌, ◌%◌, ◌^◌, ◌<◌, bit_and, bit_or}
use mathlib.Core.Path.{◌≡◌, refl}
use mathlib.Core.Bool.{Bool, true, false, ◌&&◌}
use native.Mathlib.Omega.{arith}
use cyan_oskernel.Prelude.Tests.{if◌then◌else◌, ◌==◌, ltb, ltb→lt}

-- `CHECK_BIT(value, bit)` and `TEST_BIT(value, bit)`: `(value >> bit) & 1`.
unfoldable pub check_bit : ℕ → ℕ → Bool
check_bit x b = (x / 2 ^ b) % 2 == 1

-- `x |= 1 << b`.
unfoldable pub set_bit : ℕ → ℕ → ℕ
set_bit x b = bit_or x (2 ^ b)

-- `x &= ~(1 << b)`, the complement on 32 bits.
unfoldable pub clear_bit : ℕ → ℕ → ℕ
clear_bit x b = bit_and x (2 ^ 32 - 1 - 2 ^ b)

-- Equality of two Booleans.
unfoldable pub bool_eq : Bool → Bool → Bool
bool_eq true b = b
bool_eq false true = false
bool_eq false false = true

pub bool_eq_sound : (a b : Bool) → bool_eq a b ≡ true → a ≡ b
unfolding bool_eq
bool_eq_sound a b h = ground arith

all_below : ℕ → (ℕ → Bool) → Bool
all_below zero p = true
all_below (suc n) p = p n && all_below n p

all_below_sound : (n : ℕ) (p : ℕ → Bool) → all_below n p ≡ true → (x : ℕ) → x < n → p x ≡ true
unfolding all_below
all_below_sound zero p h x lt = elim lt [ ]
all_below_sound (suc n) p h x lt = ground (arith, all_below_sound n p (ground arith) x)

-- What the tables below check of a byte `x` and two bit numbers.
set_bit_ok : ℕ → ℕ → ℕ → Bool
set_bit_ok x b c =
    bool_eq (check_bit (set_bit x b) c) (if b == c then true else check_bit x c)
    && ltb (set_bit x b) 256

clear_bit_ok : ℕ → ℕ → ℕ → Bool
clear_bit_ok x b c =
    bool_eq (check_bit (clear_bit x b) c) (if b == c then false else check_bit x c)
    && ltb (clear_bit x b) 256

for_bits : (ℕ → ℕ → ℕ → Bool) → Bool
for_bits p = all_below 256 (λ x. all_below 8 (λ b. all_below 8 (p x b)))

for_bits_sound :
    (p : ℕ → ℕ → ℕ → Bool)
    → for_bits p ≡ true
    → (x b c : ℕ) → x < 256
    → b < 8
    → c < 8
    → p x b c ≡ true
unfolding for_bits
for_bits_sound p h x b c hx hb hc =
    all_below_sound 8 (p x b) (all_below_sound 8 _ (all_below_sound 256 _ h x hx) b hb) c hc

set_bit_table : for_bits set_bit_ok ≡ true
unfolding for_bits all_below set_bit_ok bool_eq check_bit set_bit
set_bit_table = refl

clear_bit_table : for_bits clear_bit_ok ≡ true
unfolding for_bits all_below clear_bit_ok bool_eq check_bit clear_bit
clear_bit_table = refl

and-left : (a b : Bool) → (a && b) ≡ true → a ≡ true
and-left a b h = ground arith

and-right : (a b : Bool) → (a && b) ≡ true → b ≡ true
and-right a b h = ground arith

module _ (x b c : ℕ) (hx : x < 256) (hb : b < 8) (hc : c < 8) where
  -- Setting a bit of a byte changes that bit alone.
  pub check_bit-set_bit : check_bit (set_bit x b) c ≡ (if b == c then true else check_bit x c)
  unfolding set_bit_ok
  check_bit-set_bit =
      bool_eq_sound _ _ (and-left _ _ (for_bits_sound set_bit_ok set_bit_table x b c hx hb hc))

  -- Clearing a bit of a byte changes that bit alone.
  pub check_bit-clear_bit : check_bit (clear_bit x b) c ≡ (if b == c then false else check_bit x c)
  unfolding clear_bit_ok
  check_bit-clear_bit =
      bool_eq_sound _ _ (and-left _ _ (for_bits_sound clear_bit_ok clear_bit_table x b c hx hb hc))

module _ (x b : ℕ) (hx : x < 256) (hb : b < 8) where
  pub set_bit-lt : set_bit x b < 256
  unfolding set_bit_ok
  set_bit-lt =
      let t = for_bits_sound set_bit_ok set_bit_table x b 0 hx hb (omega arith) in
      ltb→lt _ _ (and-right _ _ t)

  pub clear_bit-lt : clear_bit x b < 256
  unfolding clear_bit_ok
  clear_bit-lt =
      let t = for_bits_sound clear_bit_ok clear_bit_table x b 0 hx hb (omega arith) in
      ltb→lt _ _ (and-right _ _ t)

full_ok : ℕ → ℕ → ℕ → Bool
full_ok x b c = if x == 255 then check_bit x b else true

-- Every bit of 0xFF is set.
pub check_bit_full : (b : ℕ) → b < 8 → check_bit 255 b ≡ true
unfolding full_ok
check_bit_full b h =
    for_bits_sound full_ok (unfold for_bits all_below full_ok check_bit in refl) 255 b 0
      (omega arith) h (omega arith)

empty_ok : ℕ → ℕ → ℕ → Bool
empty_ok x b c = bool_eq (check_bit 0 b) false

-- No bit of 0 is set.
pub check_bit_empty : (b : ℕ) → b < 8 → check_bit 0 b ≡ false
unfolding empty_ok
check_bit_empty b h = bool_eq_sound _ _ (
    for_bits_sound empty_ok (unfold for_bits all_below empty_ok bool_eq check_bit in refl) 0 b 0
      (omega arith) h (omega arith))
