-- ===== src/Devices/Console/Tests.antt =====
-- Writing to a console.
use cyan_oskernel.Prelude.{ℕ, ◌≡◌, some, [], ◌∷◌, arith, replicate, length-replicate}
use cyan_oskernel.Devices.Console.{Console, page_up, write}
use cyan_oskernel.Devices.Console.Cells.{Scrolled, page_up-Scrolled}
use cyan_oskernel.Devices.Console.Insert.{IsScreen}
use cyan_oskernel.Devices.Console.Screen.{write-IsScreen}

-- The last cell of the last row comes next.
abbrev full_screen : Console
full_screen = record {
  video_ram = replicate 2048 0;
  v_position = 24;
  h_position = 79;
  char_color = 15;
}

full_screen-IsScreen : IsScreen full_screen
full_screen-IsScreen = record {
  mapped = length-replicate {A = ℕ} 2048 0;
  in_row = omega arith;
  on_screen = omega arith;
}

-- "a", a tab, a backspace and a new line.
write-IsScreen_example :
    (c' : Console) × (write (97 ∷ 9 ∷ 8 ∷ 10 ∷ []) full_screen ≡ some c') × IsScreen c'
write-IsScreen_example = write-IsScreen (97 ∷ 9 ∷ 8 ∷ 10 ∷ []) full_screen full_screen-IsScreen

page_up-Scrolled_example :
    (c' : Console) × (page_up full_screen ≡ some c') × Scrolled full_screen c'
page_up-Scrolled_example = page_up-Scrolled full_screen full_screen-IsScreen.mapped
