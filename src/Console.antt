-- ===== src/Console.antt =====
-- kernel/chr_drv/console.c: the screen and the escape sequences of `con_write`. The screen memory is
-- a function from byte addresses to cells of two bytes. The output to the ports of the video chip
-- and of the speaker is left out; a response to the terminal is counted.
pub mod Cursor
pub mod Edits
pub mod Write
mod Tests
use liha_linux.Base.{
  ◌%◌, ◌&&◌, ◌*◌, ◌+◌, ◌-◌, ◌/◌, ◌==◌, Bool, ◌^◌, if◌then◌else◌, leb, ltb, suc, update, zero, ◌||◌,
  ℕ,
}

abbrev pub npar_max : ℕ
npar_max = 16

-- The variables of the file; `video_` is dropped from their names. `ega` is true for the two EGA types.
pub record Console : Type 0 where
  pub ega : Bool
  pub num_columns : ℕ
  pub size_row : ℕ
  pub num_lines : ℕ
  pub mem_start : ℕ
  pub mem_end : ℕ
  pub erase_char : ℕ
  pub origin : ℕ
  pub scr_end : ℕ
  pub position : ℕ
  pub x : ℕ
  pub y : ℕ
  pub top : ℕ
  pub bottom : ℕ
  pub state : ℕ
  pub npar : ℕ
  pub par : ℕ → ℕ
  pub ques : Bool
  pub attr : ℕ
  pub saved_x : ℕ
  pub saved_y : ℕ
  pub mem : ℕ → ℕ
  pub responses : ℕ

-- `rep stosw` upwards.
pub fill : ℕ → (start c : ℕ) → (ℕ → ℕ) → ℕ → ℕ
fill zero start c mem = mem
fill (suc n) start c mem = fill n (start + 2) c (update mem start c)

-- `rep movsl` upwards, by cells.
pub copy_up : ℕ → (to from : ℕ) → (ℕ → ℕ) → ℕ → ℕ
copy_up zero to from mem = mem
copy_up (suc n) to from mem = copy_up n (to + 2) (from + 2) (update mem to (mem from))

-- `rep movsl` downwards, by cells.
pub copy_down : ℕ → (to from : ℕ) → (ℕ → ℕ) → ℕ → ℕ
copy_down zero to from mem = mem
copy_down (suc n) to from mem = copy_down n (to - 2) (from - 2) (update mem to (mem from))

-- `x+n` and `x-n` of unsigned 32-bit numbers.
abbrev pub plus32 : ℕ → ℕ → ℕ
plus32 a b = (a + b) % 2 ^ 32

abbrev pub minus32 : ℕ → ℕ → ℕ
minus32 a b = (a + (2 ^ 32 - b % 2 ^ 32)) % 2 ^ 32

pub gotoxy : ℕ → ℕ → Console → Console
gotoxy new_x new_y k =
    if ltb k.num_columns new_x || leb k.num_lines new_y
    then k
    else record k { x = new_x; y = new_y; position = k.origin + new_y * k.size_row + new_x * 2 }

-- The cells of `n` rows, as `movsl` moves them.
abbrev pub cells : ℕ → Console → ℕ
cells n k = n * k.num_columns / 2 * 2

-- The move by one line between `top` and `bottom`.
abbrev pub scroll_region : Console → Console
scroll_region k =
    let to = k.origin + k.size_row * k.top in
    let n = cells (k.bottom - k.top - 1) k in
    record k {
      mem =
          fill k.num_columns (to + n * 2) k.erase_char
            (copy_up n to (k.origin + k.size_row * (k.top + 1)) k.mem);
    }

-- The move of the origin by one line.
abbrev pub next_line : Console → Console
next_line k = record k {
  origin = k.origin + k.size_row;
  position = k.position + k.size_row;
  scr_end = k.scr_end + k.size_row;
}

-- Behind the end of the screen memory, the screen is moved to its start.
abbrev pub rewind : Console → Console
rewind k =
    let n = cells (k.num_lines - 1) k in
    let d = k.origin - k.mem_start in
    record k {
      mem =
          fill k.num_columns (k.mem_start + n * 2) k.erase_char
            (copy_up n k.mem_start k.origin k.mem);
      scr_end = k.scr_end - d;
      position = k.position - d;
      origin = k.mem_start;
    }

abbrev pub clear_last : Console → Console
clear_last k = record k { mem = fill k.num_columns (k.scr_end - k.size_row) k.erase_char k.mem }

abbrev pub scroll_screen : Console → Console
scroll_screen k =
    let moved = next_line k in
    if ltb moved.mem_end moved.scr_end then rewind moved else clear_last moved

pub scrup : Console → Console
unfolding fill copy_up
scrup k =
    if k.ega && (k.top == 0) && (k.bottom == k.num_lines) then scroll_screen k else scroll_region k

pub scrdown : Console → Console
unfolding fill copy_down
scrdown k =
    let n = cells (k.bottom - k.top - 1) k in
    record k {
      mem =
          fill k.num_columns (k.origin + k.size_row * k.bottom - n * 2 - k.size_row) k.erase_char (
            copy_down n (k.origin + k.size_row * k.bottom - 2)
              (k.origin + k.size_row * (k.bottom - 1) - 2) k.mem);
    }

pub lf : Console → Console
unfolding scrup
lf k =
    if ltb (k.y + 1) k.bottom
    then record k { y = k.y + 1; position = k.position + k.size_row }
    else scrup k

pub ri : Console → Console
unfolding scrdown
ri k =
    if ltb k.top k.y
    then record k { y = k.y - 1; position = k.position - k.size_row }
    else scrdown k

pub cr : Console → Console
cr k = record k { position = k.position - k.x * 2; x = 0 }

abbrev pub put : ℕ → Console → Console
put c k = record k { mem = update k.mem k.position c }

abbrev pub back : Console → Console
back k = record k { position = k.position - 2; x = k.x - 1 }

pub del : Console → Console
del k = if k.x == 0 then k else put k.erase_char (back k)

abbrev pub erase : (start count : ℕ) → Console → Console
erase start count k = record k { mem = fill count start k.erase_char k.mem }

pub csi_J : ℕ → Console → Console
csi_J n k =
    if n == 0
    then erase k.position ((k.scr_end - k.position) / 2) k
    else if n == 1
    then erase k.origin ((k.position - k.origin) / 2) k
    else if n == 2
    then erase k.origin (k.num_columns * k.num_lines) k
    else k

pub csi_K : ℕ → Console → Console
csi_K n k =
    if n == 0
    then if leb k.num_columns k.x then k else erase k.position (k.num_columns - k.x) k
    else if n == 1
    then erase (k.position - k.x * 2) (if ltb k.x k.num_columns then k.x else k.num_columns) k
    else if n == 2
    then erase (k.position - k.x * 2) k.num_columns k
    else k

abbrev pub attr_of : ℕ → ℕ → ℕ
attr_of n attr =
    if n == 0 || n == 27 then 7 else if n == 1 || n == 4 then 15 else if n == 7 then 112 else attr

-- `for (i=0;i<=npar;i++)`, from index `i`, `n` parameters left.
pub attrs : (n i : ℕ) → (ℕ → ℕ) → ℕ → ℕ
attrs zero i par attr = attr
attrs (suc n) i par attr = attrs n (i + 1) par (attr_of (par i) attr)

-- `while (i++<video_num_columns)`: the cells move right by one, and `old` comes in.
pub shift_right : ℕ → (p old : ℕ) → (ℕ → ℕ) → ℕ → ℕ
shift_right zero p old mem = mem
shift_right (suc n) p old mem = shift_right n (p + 2) (mem p) (update mem p old)

pub insert_char : Console → Console
unfolding shift_right
insert_char k = record k { mem = shift_right (k.num_columns - k.x) k.position k.erase_char k.mem }

pub delete_char : Console → Console
delete_char k =
    let n = k.num_columns - k.x - 1 in
    if leb k.num_columns k.x then k else record k {
      mem = update (copy_up n k.position (k.position + 2) k.mem) (k.position + n * 2) k.erase_char;
    }

-- A scroll with `top` and `bottom` set for it.
abbrev pub below_cursor : (Console → Console) → Console → Console
below_cursor f k = record (f (record k { top = k.y; bottom = k.num_lines })) {
  top = k.top;
  bottom = k.bottom;
}

pub insert_line : Console → Console
unfolding scrdown
insert_line k = below_cursor scrdown k

pub delete_line : Console → Console
unfolding scrup
delete_line k = below_cursor scrup k

-- `while (nr--)`.
pub times : ℕ → (Console → Console) → Console → Console
times zero f k = k
times (suc n) f k = times n f (f k)

-- `nr` between 1 and `limit`.
abbrev pub clamp : ℕ → ℕ → ℕ
clamp nr limit = if ltb limit nr then limit else if nr == 0 then 1 else nr
