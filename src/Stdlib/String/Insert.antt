-- ===== src/Stdlib/String/Insert.antt =====
-- What inserting into a string makes of its bytes.
use cyan_oskernel.Prelude.{
  ℕ, zero, suc, ◌+◌, ◌-◌, ◌^◌, ◌≤◌, ◌<◌, ◌≡◌, refl, sym, ap, ◌∙◌, true, some, List, [], ◌∷◌, arith,
  leb, ltb, length, set, length-set, length-replicate, get_or-set, ◌>>◌, assert,
}
use cyan_oskernel.Stdlib.Clib.{write, memcpy}
use cyan_oskernel.Stdlib.Clib.Moves.{byte, Copied, memcpy-Copied}
use cyan_oskernel.Stdlib.StringView.{from}
use cyan_oskernel.Stdlib.String.{String, position, new_array, insert_bytes, insert}

-- A string that has not been moved from: its bytes, then a 0.
pub record IsString (s : String) : Type 0 where
  pub storage : length s.m_data ≡ s.m_size + 1
  pub terminated : byte s.m_data s.m_size ≡ 0
  pub small : s.m_size < 2 ^ 31

-- `after` is `s` with the `len` bytes of `str` put in at `pos`.
pub record Inserted (pos : ℕ) (str : List ℕ) (len : ℕ) (s after : String) : Type 0 where
  pub storage : length after.m_data ≡ after.m_size + 1
  pub terminated : byte after.m_data after.m_size ≡ 0
  pub size : after.m_size ≡ len + s.m_size
  pub before : (j : ℕ) → j < pos → byte after.m_data j ≡ byte s.m_data j
  pub inside : (k : ℕ) → k < len → byte after.m_data (pos + k) ≡ byte str k
  pub behind :
      (k : ℕ) → pos + k < s.m_size → byte after.m_data (pos + len + k) ≡ byte s.m_data (pos + k)

from_zero : (k : ℕ) → 0 + k ≡ k
from_zero k = omega arith

next : (i k : ℕ) → suc (i + k) ≡ suc i + k
next i k = omega arith

byte-from : (i : ℕ) (bytes : List ℕ) (k : ℕ) → byte (from i bytes) k ≡ byte bytes (i + k)
unfolding from
byte-from zero bytes k = ap (λ (j : ℕ). byte bytes j) (omega arith)
byte-from (suc i) [] k = refl
byte-from (suc i) (x ∷ bytes) k =
    byte-from i bytes k ∙ ap (λ (j : ℕ). byte (x ∷ bytes) j) (next i k)

length-from : (i : ℕ) (bytes : List ℕ) → length (from i bytes) ≡ length bytes - i
unfolding from
length-from zero bytes = omega arith
length-from (suc i) [] = omega arith
length-from (suc i) (x ∷ bytes) = omega (arith, length-from i bytes)

write-last :
    (n : ℕ) (bytes : List ℕ)
    → length bytes ≡ n + 1
    → (after : List ℕ) × (write n 0 bytes ≡ some after)
      × (length after ≡ n + 1)
      × (byte after n ≡ 0)
      × ((j : ℕ) → j < n → byte after j ≡ byte bytes j)
write-last n bytes size =
    let test : ltb n (length bytes) ≡ true = ground arith in
    (
      set bytes n 0,
      rw test refl,
      length-set bytes n 0 ∙ size,
      ground (arith, get_or-set bytes n n 0 0 (omega arith)),
      λ j lt. ground (arith, get_or-set bytes n j 0 0 (omega arith)),
    )

module _ (pos : ℕ) (str : List ℕ) (len : ℕ) (s : String) (v : IsString s) (at : pos ≤ s.m_size)
    (there : len ≤ length str) where
  -- What the three copies and the last byte put together.
  copies-Inserted :
      (a b c d : List ℕ)
      → Copied 0 0 pos s.m_data (new_array (len + s.m_size + 1)) a
      → Copied pos 0 len str a b
      → Copied (pos + len) 0 (s.m_size - pos) (from pos s.m_data) b c
      → length d ≡ len + s.m_size + 1
      → byte d (len + s.m_size) ≡ 0
      → ((j : ℕ) → j < len + s.m_size → byte d j ≡ byte c j)
      → Inserted pos str len s (record { m_size = len + s.m_size; m_data = d })
  copies-Inserted a b c d ca cb cc_ size_d last kept = record {
    storage = size_d;
    terminated = last;
    size = refl;
    before = λ j lt.
        kept j (omega arith)
        ∙ cc_.before j (omega arith)
        ∙ cb.before j lt
        ∙ ap (λ (i : ℕ). byte a i) (sym (from_zero j))
        ∙ ca.inside j lt
        ∙ ap (λ (i : ℕ). byte s.m_data i) (from_zero j);
    inside = λ k lt.
        kept (pos + k) (omega arith)
        ∙ cc_.before (pos + k) (omega arith)
        ∙ cb.inside k lt
        ∙ ap (λ (i : ℕ). byte str i) (from_zero k);
    behind = λ k lt.
        kept (pos + len + k) (omega arith)
        ∙ cc_.inside k (omega arith)
        ∙ byte-from pos s.m_data (0 + k)
        ∙ ap (λ (i : ℕ). byte s.m_data (pos + i)) (from_zero k);
  }

  insert_bytes-runs :
      (a b c d : List ℕ)
      → memcpy 0 s.m_data pos (new_array (len + s.m_size + 1)) ≡ some a
      → memcpy pos str len a ≡ some b
      → memcpy (pos + len) (from pos s.m_data) (s.m_size - pos) b ≡ some c
      → write (len + s.m_size) 0 c ≡ some d
      → insert_bytes pos str len s ≡ some (record { m_size = len + s.m_size; m_data = d })
  unfolding insert_bytes
  insert_bytes-runs a b c d ra rb rc rd = rw (ra, insert_bytes) (rw rb (rw rc (rw rd refl)))

  insert_bytes-Inserted :
      (after : String) × (insert_bytes pos str len s ≡ some after) × Inserted pos str len s after
  insert_bytes-Inserted =
      let n = len + s.m_size in
      let blank : length (new_array (n + 1)) ≡ n + 1 = length-replicate {A = ℕ} (n + 1) 0 in
      let rest = length-from pos s.m_data in
      let (a, ra, ca) =
        memcpy-Copied 0 pos s.m_data (new_array (n + 1)) (omega (arith, v.storage))
          (omega (arith, blank)) in
      let (b, rb, cb) = memcpy-Copied pos len str a there (omega (arith, blank, ca.length_kept)) in
      let (c, rc, cc_) =
        memcpy-Copied (pos + len) (s.m_size - pos) (from pos s.m_data) b
          (omega (arith, rest, v.storage)) (omega (arith, blank, ca.length_kept, cb.length_kept)) in
      let (d, rd, size_d, last, kept) =
        write-last n c (cc_.length_kept ∙ cb.length_kept ∙ ca.length_kept ∙ blank) in
      (
        record { m_size = n; m_data = d },
        insert_bytes-runs a b c d ra rb rc rd,
        copies-Inserted a b c d ca cb cc_ size_d last kept,
      )

  pub Inserted-IsString :
      (after : String) → Inserted pos str len s after → len + s.m_size < 2 ^ 31 → IsString after
  Inserted-IsString after i fits = record {
    storage = i.storage;
    terminated = i.terminated;
    small = omega (arith, i.size);
  }

-- A string is inserted at a position of another: the bytes before the position stay, those of the
-- string follow, then the others.
pub insert-Inserted :
    (pos : ℕ) (str s : String)
    → IsString str
    → IsString s
    → pos ≤ s.m_size
    → (after : String) × (insert pos str s ≡ some after)
      × Inserted pos str.m_data str.m_size s after
unfolding insert
insert-Inserted pos str s w v at =
    let here : position s.m_size pos ≡ pos = ground (arith, v.small) in
    let test : leb pos s.m_size ≡ true = ground arith in
    let (after, ran, i) =
      insert_bytes-Inserted pos str.m_data str.m_size s v at (omega (arith, w.storage)) in
    (
      after,
      ap (λ (p : ℕ). assert (leb p s.m_size) >> insert_bytes p str.m_data str.m_size s) here
          ∙ ap (λ b. assert b >> insert_bytes pos str.m_data str.m_size s) test
          ∙ ran,
      i,
    )
