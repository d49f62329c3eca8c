-- ===== src/Devices/Console.antt =====
-- `kernel/devices/console/console.cpp` and `console.h`: the text console, with its video memory as
-- the list of the cells that are mapped. A character is its code, and a cell 16 bits. `none` is an
-- access outside of the mapped memory.
mod Cells
mod Insert
mod Screen
mod Tests
use cyan_oskernel.Prelude.{
  ℕ, zero, suc, ◌+◌, ◌-◌, ◌*◌, ◌%◌, ◌^◌, Bool, true, false, not, ◌&&◌, ◌||◌, Option, none, some,
  List, [], ◌∷◌, ltb, ◌==◌, if◌then◌else◌, length, get_elem?, set, bit_or, ◌>>=◌, ◌>>◌,
}

abbrev pub vga_width : ℕ
vga_width = 80

abbrev pub vga_height : ℕ
vga_height = 25

-- The two positions are never negative: each is tested before it is lowered.
pub record Console : Type 0 where
  pub video_ram : List ℕ
  pub v_position : ℕ
  pub h_position : ℕ
  pub char_color : ℕ

unfoldable pub vga_entry_color : ℕ → ℕ → ℕ
vga_entry_color fg bg = bit_or fg (bg * 2 ^ 4) % 2 ^ 8

unfoldable pub vga_entry : ℕ → ℕ → ℕ
vga_entry uc color = bit_or uc (color * 2 ^ 8)

-- `m_video_ram[index] = cell`.
unfoldable pub write_cell : ℕ → ℕ → Console → Option Console
write_cell index cell c =
    if ltb index (length c.video_ram)
    then some (record c { video_ram = set c.video_ram index cell })
    else none

-- The cell at the position.
abbrev pub here : Console → ℕ
here c = c.h_position + c.v_position * vga_width

-- `memcpy` of a row over the one before it, with the cells left.
unfoldable pub copy_row : ℕ → ℕ → Console → Option Console
unfolding write_cell
copy_row zero index c = some c
copy_row (suc n) index c = get_elem? c.video_ram (index + vga_width) >>= λ cell.
    write_cell index cell c >>= copy_row n (suc index)

-- The loop of `page_up` over the rows, with the rows left.
unfoldable pub copy_rows : ℕ → ℕ → Console → Option Console
unfolding copy_row
copy_rows zero i c = some c
copy_rows (suc n) i c = copy_row vga_width (vga_width * i) c >>= copy_rows n (suc i)

-- `memset` of cells to 0, with the cells left.
unfoldable pub clear_cells : ℕ → ℕ → Console → Option Console
unfolding write_cell
clear_cells zero index c = some c
clear_cells (suc n) index c = write_cell index 0 c >>= clear_cells n (suc index)

unfoldable pub page_up : Console → Option Console
unfolding copy_rows clear_cells
page_up c = copy_rows (vga_height - 1) 0 c >>= clear_cells vga_width (vga_width * (vga_height - 1))

-- `clearScreen`: column by column.
unfoldable pub clear_column : ℕ → ℕ → ℕ → Console → Option Console
unfolding write_cell
clear_column zero i i2 c = some c
clear_column (suc n) i i2 c = write_cell (i + i2 * vga_width) 0 c >>= clear_column n i (suc i2)

unfoldable pub clear_columns : ℕ → ℕ → Console → Option Console
unfolding clear_column
clear_columns zero i c = some c
clear_columns (suc n) i c = clear_column vga_height i 0 c >>= clear_columns n (suc i)

unfoldable pub clear_screen : Console → Option Console
unfolding clear_columns
clear_screen c = do
  c' ← clear_columns vga_width 0 c
  some (record c' { h_position = 0; v_position = 0 })

unfoldable pub update_cursor : Console → Option Console
unfolding write_cell
update_cursor c = write_cell (here c) (vga_entry 0 (vga_entry_color 0 15)) c

-- The cursor's cell is cleared before the position leaves it.
unfoldable pub leave_cursor : Console → Option Console
unfolding write_cell
leave_cursor c = if c.h_position == vga_width then some c else write_cell (here c) 0 c

unfoldable pub insert_new_line : Console → Option Console
unfolding leave_cursor
insert_new_line c = do
  c' ← leave_cursor c
  some (record c' { h_position = 0; v_position = c'.v_position + 1 })

unfoldable pub insert_character : ℕ → Console → Option Console
unfolding write_cell
insert_character str c = do
  c' ← write_cell (here c) (vga_entry str c.char_color) c
  some (record c' {
    h_position = (c'.h_position + 1) % vga_width;
    v_position = c'.v_position + (if (c'.h_position + 1) % vga_width == 0 then 1 else 0);
  })

-- One cell back; `none` at the first cell, where the loops break.
unfoldable pub step_back : Console → Option Console
step_back c =
    if ltb 0 c.h_position
    then some (record c { h_position = c.h_position - 1 })
    else if ltb 0 c.v_position
    then some (record c { h_position = vga_width - 1; v_position = c.v_position - 1 })
    else none

-- The loop of `insert_back_space`, on fuel: back to the next cell that is not 0.
unfoldable pub back_loop : ℕ → Console → Option Console
unfolding step_back
back_loop zero c = none
back_loop (suc n) c = elim (step_back c) [
  | none ↦ some c
  | some c' ↦ elim (get_elem? c'.video_ram (here c')) [
    | none ↦ none
    | some cell ↦ elim (cell == 0) [ true ↦ back_loop n c' | false ↦ some c' ]
  ]
]

-- Each round goes back by a cell.
unfoldable pub insert_back_space : Console → Option Console
unfolding leave_cursor back_loop write_cell
insert_back_space c =
    leave_cursor c >>= λ c. back_loop (suc (here c)) c >>= λ c. write_cell (here c) 0 c

-- The characters that a tab inserts, with those left.
unfoldable pub insert_spaces : ℕ → Console → Option Console
unfolding insert_character
insert_spaces zero c = some c
insert_spaces (suc n) c = insert_character 32 c >>= insert_spaces n

unfoldable pub scroll : Console → Option Console
unfolding page_up
scroll c =
    if c.v_position == vga_height
    then (page_up c >>= λ c'. some (record c' { v_position = c'.v_position - 1 }))
    else some c

unfoldable pub put_char : ℕ → Console → Option Console
unfolding scroll insert_new_line insert_back_space insert_spaces insert_character update_cursor
put_char str c = scroll c >>= λ c.
    (if str == 10
      then insert_new_line c
      else if str == 8
      then insert_back_space c
      else if str == 9
      then insert_spaces 4 c
      else insert_character str c)
    >>= update_cursor

unfoldable pub write : List ℕ → Console → Option Console
unfolding put_char
write [] c = some c
write (str ∷ buff) c = put_char str c >>= write buff
