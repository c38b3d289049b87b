-- ===== src/Console/Tests.antt =====
-- Writing to a screen of 80 columns and 25 lines (kernel/chr_drv/console.c).
use liha_linux.Base.{[], arith, false, refl, true, ◌∷◌}
use liha_linux.Console.{Console}
use liha_linux.Console.Cursor.{OnScreen}
use liha_linux.Console.Write.{con_write}
use liha_linux.Console.Write.Invariant.{con_write-OnScreen}

abbrev screen : Console
screen = record {
  ega = true;
  num_columns = 80;
  size_row = 160;
  num_lines = 25;
  mem_start = 753664;
  mem_end = 786432;
  erase_char = 1824;
  origin = 753664;
  scr_end = 757664;
  position = 753664;
  x = 0;
  y = 0;
  top = 0;
  bottom = 25;
  state = 0;
  npar = 0;
  par = λ _. 0;
  ques = false;
  attr = 7;
  saved_x = 0;
  saved_y = 0;
  mem = λ _. 0;
  responses = 0;
}

screen-OnScreen : OnScreen screen
screen-OnScreen = record {
  rows = refl;
  wide = omega arith;
  column = omega arith;
  line = omega arith;
  region = (omega arith, omega arith);
  start = omega arith;
  address = refl;
}

-- ESC [ 9 9 ; 9 B, then A.
con_write-OnScreen_example :
    OnScreen (con_write 127 (27 ∷ 91 ∷ 57 ∷ 57 ∷ 59 ∷ 57 ∷ 66 ∷ 65 ∷ []) screen)
con_write-OnScreen_example =
    con_write-OnScreen 127 (27 ∷ 91 ∷ 57 ∷ 57 ∷ 59 ∷ 57 ∷ 66 ∷ 65 ∷ []) screen screen-OnScreen
