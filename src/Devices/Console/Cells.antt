-- ===== src/Devices/Console/Cells.antt =====
-- The moves of the console's cells: rows that scroll, and the screen that is cleared.
use cyan_oskernel.Prelude.{
  ℕ, zero, suc, ◌+◌, ◌*◌, ◌≤◌, ◌<◌, ◌≡◌, ◌⊎◌, refl, ◌∙◌, true, some, arith, ltb, ◌==◌,
  if◌then◌else◌, inl, inr, length, get_elem?, get_elem?_inside, set, length-set, get_elem?-set,
}
use native.Mathlib.Decide.{dec_lt}
use cyan_oskernel.Devices.Console.{Console, write_cell, copy_row, copy_rows, clear_cells, page_up}

-- The call ends, with the memory as large and the position in the same place.
pub record Kept (c c' : Console) : Type 0 where
  pub mapped : length c'.video_ram ≡ length c.video_ram
  pub h_kept : c'.h_position ≡ c.h_position
  pub v_kept : c'.v_position ≡ c.v_position

Kept-refl : (c : Console) → Kept c c
Kept-refl c = record { mapped = refl; h_kept = refl; v_kept = refl }

Kept-trans : (a b c : Console) → Kept a b → Kept b c → Kept a c
Kept-trans a b c k l = record {
  mapped = l.mapped ∙ k.mapped;
  h_kept = l.h_kept ∙ k.h_kept;
  v_kept = l.v_kept ∙ k.v_kept;
}

-- One cell is written.
record Wrote (index cell : ℕ) (c c' : Console) : Type 0 where
  kept : Kept c c'
  cells :
      (j : ℕ)
      → get_elem? c'.video_ram j ≡ (if index == j then some cell else get_elem? c.video_ram j)

write_cell-Wrote :
    (index cell : ℕ) (c : Console)
    → index < length c.video_ram
    → (c' : Console) × (write_cell index cell c ≡ some c') × Wrote index cell c c'
unfolding write_cell
write_cell-Wrote index cell c lt =
    let test : ltb index (length c.video_ram) ≡ true = ground arith in
    (
      record c { video_ram = set c.video_ram index cell },
      rw (test, write_cell) refl,
      record {
        kept = record { mapped = length-set c.video_ram index cell; h_kept = refl; v_kept = refl };
        cells = λ j. get_elem?-set c.video_ram index j cell lt;
      },
    )

pub write_cell-Kept :
    (index cell : ℕ) (c : Console)
    → index < length c.video_ram
    → (c' : Console) × (write_cell index cell c ≡ some c') × Kept c c'
write_cell-Kept index cell c lt =
    let (b, wrote, w) = write_cell-Wrote index cell c lt in (b, wrote, w.kept)

-- The cells of a range are those of the row after it, and all others stay.
record Shifted (index n : ℕ) (c c' : Console) : Type 0 where
  kept : Kept c c'
  moved :
      (j : ℕ)
      → index ≤ j
      → j < index + n
      → get_elem? c'.video_ram j ≡ get_elem? c.video_ram (j + 80)
  other :
      (j : ℕ) → (j < index) ⊎ (index + n ≤ j) → get_elem? c'.video_ram j ≡ get_elem? c.video_ram j

Shifted-refl : (index : ℕ) (c : Console) → Shifted index 0 c c
Shifted-refl index c = record {
  kept = Kept-refl c;
  moved = λ j from below. absurd (omega arith);
  other = λ j outside. refl;
}

Shifted-trans :
    (index n next m total : ℕ) (a b c : Console)
    → next ≡ index + n
    → total ≡ n + m
    → Shifted index n a b
    → Shifted next m b c
    → Shifted index total a c
Shifted-trans index n next m total a b c after all s t = record {
  kept = Kept-trans a b c s.kept t.kept;
  moved = λ j from below. elim (dec_lt j (index + n)) [
    | yes first ↦ t.other j (inl (omega arith)) ∙ s.moved j from first
    | no later ↦ t.moved j (omega arith) (omega arith) ∙ s.other (j + 80) (inr (omega arith))
  ];
  other = λ j outside. elim outside [
    | inl below ↦ t.other j (inl (omega arith)) ∙ s.other j (inl below)
    | inr above ↦ t.other j (inr (omega arith)) ∙ s.other j (inr (omega arith))
  ];
}

-- A cell that is copied from the next row is a range of one.
Shifted-one :
    (index cell : ℕ) (c c' : Console)
    → get_elem? c.video_ram (index + 80) ≡ some cell
    → Wrote index cell c c'
    → Shifted index 1 c c'
Shifted-one index cell c c' at w = record {
  kept = w.kept;
  moved =
      λ j from below. let same : index ≡ j = omega arith in w.cells j ∙ ground (arith, same, at);
  other = λ j outside. elim outside [
    | inl below ↦ w.cells j ∙ ground arith
    | inr above ↦ w.cells j ∙ ground arith
  ];
}

copy_row-Shifted :
    (n index : ℕ) (c : Console)
    → index + n + 80 ≤ length c.video_ram
    → (c' : Console) × (copy_row n index c ≡ some c') × Shifted index n c c'
unfolding copy_row
copy_row-Shifted zero index c inside = (c, refl, Shifted-refl index c)
copy_row-Shifted (suc n) index c inside =
    let (cell, at) = get_elem?_inside c.video_ram (index + 80) (omega arith) in
    let (b, wrote, w) = write_cell-Wrote index cell c (omega arith) in
    let (d, ran, t) = copy_row-Shifted n (suc index) b (omega (arith, w.kept.mapped)) in
    (
      d,
      rw (at, copy_row) (rw wrote ran),
      Shifted-trans index 1 (suc index) n (suc n) c b d (omega arith) (omega arith)
          (Shifted-one index cell c b at w) t,
    )

copy_rows-Shifted :
    (n i : ℕ) (c : Console)
    → 80 * (i + n) + 80 ≤ length c.video_ram
    → (c' : Console) × (copy_rows n i c ≡ some c') × Shifted (80 * i) (80 * n) c c'
unfolding copy_rows
copy_rows-Shifted zero i c inside = (c, refl, Shifted-refl (80 * i) c)
copy_rows-Shifted (suc n) i c inside =
    let (b, copied, s) = copy_row-Shifted 80 (80 * i) c (omega arith) in
    let (d, ran, t) = copy_rows-Shifted n (suc i) b (omega (arith, s.kept.mapped)) in
    (
      d,
      rw (copied, copy_rows) ran,
      Shifted-trans (80 * i) 80 (80 * suc i) (80 * n) (80 * suc n) c b d (omega arith) (omega arith)
          s t,
    )

-- The cells of a range are 0, and all others stay.
record Cleared (index n : ℕ) (c c' : Console) : Type 0 where
  kept : Kept c c'
  zeroed : (j : ℕ) → index ≤ j → j < index + n → get_elem? c'.video_ram j ≡ some 0
  other :
      (j : ℕ) → (j < index) ⊎ (index + n ≤ j) → get_elem? c'.video_ram j ≡ get_elem? c.video_ram j

clear_cells-Cleared :
    (n index : ℕ) (c : Console)
    → index + n ≤ length c.video_ram
    → (c' : Console) × (clear_cells n index c ≡ some c') × Cleared index n c c'
unfolding clear_cells
clear_cells-Cleared zero index c inside = (
  c,
  refl,
  record {
    kept = Kept-refl c;
    zeroed = λ j from below. absurd (omega arith);
    other = λ j outside. refl;
  },
)
clear_cells-Cleared (suc n) index c inside =
    let (b, wrote, w) = write_cell-Wrote index 0 c (omega arith) in
    let (d, ran, t) = clear_cells-Cleared n (suc index) b (omega (arith, w.kept.mapped)) in
    (
      d,
      rw (wrote, clear_cells) ran,
      record {
        kept = Kept-trans c b d w.kept t.kept;
        zeroed = λ j from below. elim (dec_lt index j) [
          | yes later ↦ t.zeroed j (omega arith) (omega arith)
          | no here ↦
              let same : index ≡ j = omega arith in
              t.other j (inl (omega arith)) ∙ w.cells j ∙ ground (arith, same)
        ];
        other = λ j outside. elim outside [
          | inl below ↦ t.other j (inl (omega arith)) ∙ w.cells j ∙ ground arith
          | inr above ↦ t.other j (inr (omega arith)) ∙ w.cells j ∙ ground arith
        ];
      },
    )

-- The screen scrolls: every row of the 25 but the last is the row that was after it, and the last
-- is clear; the cells below it and the position stay.
pub record Scrolled (c c' : Console) : Type 0 where
  pub kept : Kept c c'
  pub rows : (j : ℕ) → j < 1920 → get_elem? c'.video_ram j ≡ get_elem? c.video_ram (j + 80)
  pub last_row : (j : ℕ) → 1920 ≤ j → j < 2000 → get_elem? c'.video_ram j ≡ some 0
  pub below_screen : (j : ℕ) → 2000 ≤ j → get_elem? c'.video_ram j ≡ get_elem? c.video_ram j

-- `page_up` ends from any position, where the 0x1000 bytes are mapped, and scrolls the 25 rows.
pub page_up-Scrolled :
    (c : Console)
    → length c.video_ram ≡ 2048
    → (c' : Console) × (page_up c ≡ some c') × Scrolled c c'
unfolding page_up
page_up-Scrolled c mapped =
    let (b, copied, s) = copy_rows-Shifted 24 0 c (omega arith) in
    let (d, ran, t) = clear_cells-Cleared 80 1920 b (omega (arith, s.kept.mapped)) in
    (
      d,
      rw (copied, page_up) ran,
      record {
        kept = Kept-trans c b d s.kept t.kept;
        rows = λ j below. t.other j (inl below) ∙ s.moved j (omega arith) below;
        last_row = t.zeroed;
        below_screen = λ j from. t.other j (inr from) ∙ s.other j (inr (omega arith));
      },
    )
