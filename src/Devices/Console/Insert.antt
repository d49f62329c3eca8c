-- ===== src/Devices/Console/Insert.antt =====
-- What each character does to the state of the console.
use cyan_oskernel.Prelude.{
  ℕ, zero, suc, ◌+◌, ◌-◌, ◌*◌, ◌%◌, ◌≤◌, ◌<◌, ◌≡◌, ◌⊎◌, refl, ◌∙◌, true, false, none, some, arith,
  ltb, ◌==◌, if◌then◌else◌, Bool-cases, inl, inr, length, get_elem?, get_elem?_inside,
}
use cyan_oskernel.Devices.Console.{
  Console, vga_entry, here, leave_cursor, insert_new_line, insert_character, step_back, back_loop,
  insert_back_space, insert_spaces, scroll,
}
use cyan_oskernel.Devices.Console.Cells.{Kept, write_cell-Kept, page_up-Scrolled}

-- The 0x1000 bytes that are mapped are 2048 cells. Below the 25 rows of the screen there can be the
-- first four cells of one row more, until the next character scrolls.
pub record IsScreen (c : Console) : Type 0 where
  pub mapped : length c.video_ram ≡ 2048
  pub in_row : c.h_position < 80
  pub on_screen : c.h_position + c.v_position * 80 < 2004

-- After scrolling, the position is in the 25 rows.
pub record IsInside (c : Console) : Type 0 where
  pub mapped : length c.video_ram ≡ 2048
  pub in_row : c.h_position < 80
  pub in_rows : c.v_position < 25

pub scroll-IsInside :
    (c : Console) → IsScreen c → (c' : Console) × (scroll c ≡ some c') × IsInside c'
unfolding scroll
scroll-IsInside c s = elim (Bool-cases (c.v_position == 25)) [
  | inl below ↦
      let (b, ran, t) = page_up-Scrolled c s.mapped in
      let k = t.kept in
      (
        record b { v_position = b.v_position - 1 },
        rw (below, scroll) (rw ran refl),
        record {
          mapped = k.mapped ∙ s.mapped;
          in_row = omega (arith, k.h_kept, s.in_row);
          in_rows = ground (arith, k.v_kept, below);
        },
      )
  | inr inside ↦ (
    c,
    rw (inside, scroll) refl,
    record { mapped = s.mapped; in_row = s.in_row; in_rows = ground (arith, inside, s.on_screen) },
  )
]

-- A character goes to the position, which moves on by one cell.
pub insert_character-moves :
    (str : ℕ) (c : Console)
    → length c.video_ram ≡ 2048
    → c.h_position < 80
    → here c < 2048
    → (c' : Console) × (insert_character str c ≡ some c')
      × (length c'.video_ram ≡ 2048)
      × (c'.h_position < 80)
      × (here c' ≡ suc (here c))
unfolding insert_character
insert_character-moves str c mapped in_row inside =
    let (b, wrote, k) =
      write_cell-Kept (here c) (vga_entry str c.char_color) c (omega (arith, mapped)) in
    (
      record b {
        h_position = (b.h_position + 1) % 80;
        v_position = b.v_position + (if (b.h_position + 1) % 80 == 0 then 1 else 0);
      },
      rw (wrote, insert_character) refl,
      k.mapped ∙ mapped,
      omega arith,
      ground (arith, k.h_kept, k.v_kept),
    )

pub insert_spaces-moves :
    (n : ℕ) (c : Console)
    → length c.video_ram ≡ 2048
    → c.h_position < 80
    → here c + n ≤ 2048
    → (c' : Console) × (insert_spaces n c ≡ some c')
      × (length c'.video_ram ≡ 2048)
      × (c'.h_position < 80)
      × (here c' ≡ here c + n)
unfolding insert_spaces
insert_spaces-moves zero c mapped in_row inside = (c, refl, mapped, in_row, omega arith)
insert_spaces-moves (suc n) c mapped in_row inside =
    let (b, put, m, r, moved) = insert_character-moves 32 c mapped in_row (omega arith) in
    let (d, ran, m', r', moved') = insert_spaces-moves n b m r (omega (arith, moved)) in
    (d, rw (put, insert_spaces) ran, m', r', omega (arith, moved, moved'))

leave_cursor-Kept :
    (c : Console) → IsInside c → (c' : Console) × (leave_cursor c ≡ some c') × Kept c c'
unfolding leave_cursor
leave_cursor-Kept c s =
    let test : (c.h_position == 80) ≡ false = ground (arith, s.in_row) in
    let (b, wrote, k) =
      write_cell-Kept (here c) 0 c (omega (arith, s.in_row, s.in_rows, s.mapped)) in
    (b, rw (test, leave_cursor) wrote, k)

pub insert_new_line-IsScreen :
    (c : Console) → IsInside c → (c' : Console) × (insert_new_line c ≡ some c') × IsScreen c'
unfolding insert_new_line
insert_new_line-IsScreen c s =
    let (b, ran, k) = leave_cursor-Kept c s in
    (
      record b { h_position = 0; v_position = b.v_position + 1 },
      rw (ran, insert_new_line) refl,
      record {
        mapped = k.mapped ∙ s.mapped;
        in_row = omega arith;
        on_screen = omega (arith, k.v_kept, s.in_rows);
      },
    )

-- A step back is to the cell before, and the first cell has none.
step_back-cases :
    (c : Console)
    → IsInside c
    → (step_back c ≡ none)
      ⊎ ((b : Console) × (step_back c ≡ some b) × (suc (here b) ≡ here c) × IsInside b)
unfolding step_back
step_back-cases c s = elim (Bool-cases (ltb 0 c.h_position)) [
  | inl in_line ↦ inr (
    record c { h_position = c.h_position - 1 },
    rw (in_line, step_back) refl,
    ground (arith, in_line),
    record { mapped = s.mapped; in_row = omega (arith, s.in_row); in_rows = s.in_rows },
  )
  | inr at_start ↦ elim (Bool-cases (ltb 0 c.v_position)) [
    | inl below ↦ inr (
      record c { h_position = 79; v_position = c.v_position - 1 },
      rw (at_start, step_back) (rw below refl),
      ground (arith, at_start, below),
      record { mapped = s.mapped; in_row = omega arith; in_rows = omega (arith, s.in_rows) },
    )
    | inr first ↦ inl (rw (at_start, step_back) (rw first refl))
  ]
]

module _ (n cell : ℕ) (c b : Console) (went : step_back c ≡ some b)
    (at : get_elem? b.video_ram (here b) ≡ some cell) where
  back_empty : (cell == 0) ≡ true → back_loop (suc n) c ≡ back_loop n b
  unfolding back_loop
  back_empty empty = rw (went, back_loop) (rw at (rw empty refl))

  back_full : (cell == 0) ≡ false → back_loop (suc n) c ≡ some b
  unfolding back_loop
  back_full full = rw (went, back_loop) (rw at (rw full refl))

-- The loop goes back to a cell of the screen.
back_loop-IsInside :
    (n : ℕ) (c : Console)
    → IsInside c
    → here c < n
    → (c' : Console) × (back_loop n c ≡ some c') × IsInside c'
unfolding back_loop
back_loop-IsInside zero c s enough = absurd (omega arith)
back_loop-IsInside (suc n) c s enough = elim (step_back-cases c s) [
  | inl stays ↦ (c, rw (stays, back_loop) refl, s)
  | inr (b, went, back, t) ↦
      let (cell, at) =
        get_elem?_inside b.video_ram (here b) (omega (arith, t.in_row, t.in_rows, t.mapped)) in
      elim (Bool-cases (cell == 0)) [
        | inl empty ↦
            let (d, ran, u) = back_loop-IsInside n b t (omega arith) in
            (d, back_empty n cell c b went at empty ∙ ran, u)
        | inr full ↦ (b, back_full n cell c b went at full, t)
      ]
]

IsInside-Kept : (c c' : Console) → IsInside c → Kept c c' → IsInside c'
IsInside-Kept c c' s k = record {
  mapped = k.mapped ∙ s.mapped;
  in_row = omega (arith, k.h_kept, s.in_row);
  in_rows = omega (arith, k.v_kept, s.in_rows);
}

IsInside-IsScreen : (c : Console) → IsInside c → IsScreen c
IsInside-IsScreen c s = record {
  mapped = s.mapped;
  in_row = s.in_row;
  on_screen = omega (arith, s.in_row, s.in_rows);
}

pub insert_back_space-IsScreen :
    (c : Console) → IsInside c → (c' : Console) × (insert_back_space c ≡ some c') × IsScreen c'
unfolding insert_back_space
insert_back_space-IsScreen c s =
    let (a, left, k) = leave_cursor-Kept c s in
    let (b, ran, t) = back_loop-IsInside (suc (here a)) a (IsInside-Kept c a s k) (omega arith) in
    let (d, wrote, l) =
      write_cell-Kept (here b) 0 b (omega (arith, t.in_row, t.in_rows, t.mapped)) in
    (d, rw (left, insert_back_space) (rw ran wrote), IsInside-IsScreen d (IsInside-Kept b d t l))
