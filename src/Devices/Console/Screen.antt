-- ===== src/Devices/Console/Screen.antt =====
-- Text of any kind is written inside of the mapped memory.
use cyan_oskernel.Prelude.{
  ℕ, zero, suc, ◌+◌, ◌*◌, ◌≤◌, ◌<◌, ◌≡◌, refl, ◌∙◌, some, length, List, [], ◌∷◌, arith, ◌==◌,
  if◌then◌else◌, Bool-cases, inl, inr,
}
use cyan_oskernel.Devices.Console.{
  Console, vga_entry, vga_entry_color, here, update_cursor, insert_new_line, insert_character,
  insert_back_space, insert_spaces, put_char, write, clear_column, clear_columns, clear_screen,
}
use cyan_oskernel.Devices.Console.Cells.{write_cell-Kept}
use cyan_oskernel.Devices.Console.Insert.{
  IsScreen, IsInside, scroll-IsInside, insert_character-moves, insert_spaces-moves,
  insert_new_line-IsScreen, insert_back_space-IsScreen,
}

clear_column-Kept :
    (n i i2 : ℕ) (c : Console)
    → length c.video_ram ≡ 2048
    → i < 80
    → i2 + n ≤ 25
    → (c' : Console) × (clear_column n i i2 c ≡ some c') × (length c'.video_ram ≡ 2048)
unfolding clear_column
clear_column-Kept zero i i2 c mapped in_row in_rows = (c, refl, mapped)
clear_column-Kept (suc n) i i2 c mapped in_row in_rows =
    let (b, wrote, k) = write_cell-Kept (i + i2 * 80) 0 c (omega arith) in
    let (d, ran, m) = clear_column-Kept n i (suc i2) b (k.mapped ∙ mapped) in_row (omega arith) in
    (d, rw (wrote, clear_column) ran, m)

clear_columns-Kept :
    (n i : ℕ) (c : Console)
    → length c.video_ram ≡ 2048
    → i + n ≤ 80
    → (c' : Console) × (clear_columns n i c ≡ some c') × (length c'.video_ram ≡ 2048)
unfolding clear_columns
clear_columns-Kept zero i c mapped in_row = (c, refl, mapped)
clear_columns-Kept (suc n) i c mapped in_row =
    let (b, cleared, m) = clear_column-Kept 25 i 0 c mapped (omega arith) (omega arith) in
    let (d, ran, m') = clear_columns-Kept n (suc i) b m (omega arith) in
    (d, rw (cleared, clear_columns) ran, m')

-- A console whose memory is mapped can be written to when its screen was cleared.
clear_screen-IsScreen :
    (c : Console)
    → length c.video_ram ≡ 2048
    → (c' : Console) × (clear_screen c ≡ some c') × IsScreen c'
unfolding clear_screen
clear_screen-IsScreen c mapped =
    let (b, cleared, m) = clear_columns-Kept 80 0 c mapped (omega arith) in
    (
      record b { h_position = 0; v_position = 0 },
      rw (cleared, clear_screen) refl,
      record { mapped = m; in_row = omega arith; on_screen = omega arith },
    )

-- What `put_char` inserts, whichever it is, leaves the console in order.
inserted-IsScreen :
    (str : ℕ) (c : Console)
    → IsInside c
    → (c' : Console) × ((if str == 10
          then insert_new_line c
          else if str == 8
          then insert_back_space c
          else if str == 9
          then insert_spaces 4 c
          else insert_character str c)
        ≡ some c')
      × IsScreen c'
inserted-IsScreen str c s = elim (Bool-cases (str == 10)) [
  | inl line ↦ let (b, ran, t) = insert_new_line-IsScreen c s in (b, rw line ran, t)
  | inr other ↦ elim (Bool-cases (str == 8)) [
    | inl back ↦ let (b, ran, t) = insert_back_space-IsScreen c s in (b, rw other (rw back ran), t)
    | inr other' ↦ elim (Bool-cases (str == 9)) [
      | inl tab ↦
          let (b, ran, m, r, moved) =
            insert_spaces-moves 4 c s.mapped s.in_row (omega (arith, s.in_row, s.in_rows)) in
          (
            b,
            rw other (rw other' (rw tab ran)),
            record {
              mapped = m;
              in_row = r;
              on_screen = omega (arith, moved, s.in_row, s.in_rows);
            },
          )
      | inr plain ↦
          let (b, ran, m, r, moved) =
            insert_character-moves str c s.mapped s.in_row (omega (arith, s.in_row, s.in_rows)) in
          (
            b,
            rw other (rw other' (rw plain ran)),
            record {
              mapped = m;
              in_row = r;
              on_screen = omega (arith, moved, s.in_row, s.in_rows);
            },
          )
    ]
  ]
]

put_char-IsScreen :
    (str : ℕ) (c : Console) → IsScreen c → (c' : Console) × (put_char str c ≡ some c') × IsScreen c'
unfolding put_char update_cursor
put_char-IsScreen str c s =
    let (a, scrolled, t) = scroll-IsInside c s in
    let (b, ran, u) = inserted-IsScreen str a t in
    let (d, drawn, k) =
      write_cell-Kept (here b) (vga_entry 0 (vga_entry_color 0 15)) b
        (omega (arith, u.on_screen, u.mapped)) in
    (
      d,
      rw (scrolled, put_char) (rw ran drawn),
      record {
        mapped = k.mapped ∙ u.mapped;
        in_row = omega (arith, k.h_kept, u.in_row);
        on_screen = omega (arith, k.h_kept, k.v_kept, u.on_screen);
      },
    )

-- Any text is written from any such state: the call ends, with every access inside of the mapped
-- memory, and such a state again.
pub write-IsScreen :
    (buff : List ℕ) (c : Console)
    → IsScreen c
    → (c' : Console) × (write buff c ≡ some c') × IsScreen c'
unfolding write
write-IsScreen [] c s = (c, refl, s)
write-IsScreen (str ∷ buff) c s =
    let (b, put, t) = put_char-IsScreen str c s in
    let (d, ran, u) = write-IsScreen buff b t in (d, rw (put, write) ran, u)
