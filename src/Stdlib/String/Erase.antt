-- ===== src/Stdlib/String/Erase.antt =====
-- What erasing from a string makes of its bytes.
use native.Mathlib.Decide.{dec_lt}
use cyan_oskernel.Prelude.{
  ℕ, ◌+◌, ◌-◌, ◌%◌, ◌^◌, ◌≤◌, ◌<◌, ◌≡◌, refl, sym, ap, ◌∙◌, true, some, arith, leb, length,
}
use cyan_oskernel.Stdlib.Clib.Moves.{byte, memmove-Copied}
use cyan_oskernel.Stdlib.String.{String, insert, erase}
use cyan_oskernel.Stdlib.String.Insert.{IsString, insert-Inserted}

-- `after` is `s` without the `len` bytes from `pos` on. Its array is as long as before.
pub record Erased (pos len : ℕ) (s after : String) : Type 0 where
  pub size : after.m_size + len ≡ s.m_size
  pub storage_kept : length after.m_data ≡ length s.m_data
  pub terminated : byte after.m_data after.m_size ≡ 0
  pub before : (j : ℕ) → j < pos → byte after.m_data j ≡ byte s.m_data j
  pub behind :
      (k : ℕ)
      → pos + len + k < s.m_size
      → byte after.m_data (pos + k) ≡ byte s.m_data (pos + len + k)

-- Bytes of a string are erased: those before them stay, and the others follow.
pub erase-Erased :
    (pos len : ℕ) (s : String)
    → length s.m_data ≡ s.m_size + 1
    → byte s.m_data s.m_size ≡ 0
    → s.m_size < 2 ^ 32
    → pos + len ≤ s.m_size
    → (after : String) × (erase pos len s ≡ some after) × Erased pos len s after
unfolding erase
erase-Erased pos len s storage terminated small fits =
    let test : leb ((pos + len) % 2 ^ 32) s.m_size ≡ true = ground arith in
    let n = s.m_size - pos - len + 1 in
    let (bytes, ran, c) = memmove-Copied n pos (pos + len) s.m_data (omega arith) (omega arith) in
    (
      record { m_size = s.m_size - len; m_data = bytes },
      rw (test, erase) (rw ran refl),
      record {
        size = omega arith;
        storage_kept = c.length_kept;
        terminated =
            ap (λ (i : ℕ). byte bytes i) (omega arith)
            ∙ c.inside (s.m_size - pos - len) (omega arith)
            ∙ ap (λ (i : ℕ). byte s.m_data i) (omega arith)
            ∙ terminated;
        before = c.before;
        behind = λ k lt. c.inside k (omega arith);
      },
    )

-- Erasing what was inserted gives a string of the same size and the same bytes.
pub erase-insert :
    (pos : ℕ) (str s : String)
    → IsString str
    → IsString s
    → pos ≤ s.m_size
    → (after back : String) × (insert pos str s ≡ some after)
      × (erase pos str.m_size after ≡ some back)
      × (back.m_size ≡ s.m_size)
      × ((j : ℕ) → j ≤ s.m_size → byte back.m_data j ≡ byte s.m_data j)
erase-insert pos str s w v at =
    let (after, ran, i) = insert-Inserted pos str s w v at in
    let (back, went, e) =
      erase-Erased pos str.m_size after i.storage i.terminated
        (omega (arith, i.size, w.small, v.small)) (omega (arith, i.size)) in
    let same : back.m_size ≡ s.m_size = omega (arith, e.size, i.size) in
    (
      after,
      back,
      ran,
      went,
      same,
      λ j le. elim (dec_lt j pos) [
        | yes lt ↦ e.before j lt ∙ i.before j lt
        | no ge ↦ elim (dec_lt j s.m_size) [
          | yes lower ↦
              ap (λ (x : ℕ). byte back.m_data x) (omega arith)
              ∙ e.behind (j - pos) (omega (arith, i.size))
              ∙ i.behind (j - pos) (omega arith)
              ∙ ap (λ (x : ℕ). byte s.m_data x) (omega arith)
          | no last ↦
              ap (λ (x : ℕ). byte back.m_data x) (omega (arith, same))
              ∙ e.terminated
              ∙ sym v.terminated
              ∙ ap (λ (x : ℕ). byte s.m_data x) (omega arith)
        ]
      ],
    )
