-- ===== src/Console/Write.antt =====
-- `con_write` of kernel/chr_drv/console.c: the characters and the escape sequences. `erase_c` is the
-- terminal's ERASE_CHAR.
pub mod Plain
pub mod Invariant
use liha_linux.Base.{
  ◌%◌, ◌&&◌, ◌*◌, ◌+◌, ◌-◌, ◌==◌, List, Option, [], ◌^◌, if◌then◌else◌, leb, ltb, none, some,
  update, ◌||◌, ℕ, ◌∷◌,
}
use liha_linux.Console.{
  Console, npar_max, plus32, minus32, gotoxy, scrup, scrdown, lf, ri, cr, put, back, del, csi_J,
  csi_K, attrs, insert_char, delete_char, insert_line, delete_line, times, clamp,
}

abbrev pub save_cur : Console → Console
save_cur k = record k { saved_x = k.x; saved_y = k.y }

abbrev pub restore_cur : Console → Console
restore_cur k = gotoxy k.saved_x k.saved_y k

-- `x -= video_num_columns; pos -= video_size_row; lf();`.
abbrev pub wrap_line : Console → Console
wrap_line k = lf (record k { x = k.x - k.num_columns; position = k.position - k.size_row })

-- A character, with its attribute, at the cursor.
abbrev pub write_at : ℕ → Console → Console
write_at c k =
    let written = put (k.attr * 2 ^ 8 + c) k in
    record written { position = k.position + 2; x = k.x + 1 }

pub printable : ℕ → Console → Console
printable c k = write_at c (if leb k.num_columns k.x then wrap_line k else k)

abbrev pub step_tab : Console → Console
step_tab k = let n = 8 - k.x % 8 in record k { x = k.x + n; position = k.position + n * 2 }

pub tab : Console → Console
tab k = let moved = step_tab k in if ltb k.num_columns moved.x then wrap_line moved else moved

-- `case 0`.
pub plain : (erase_c c : ℕ) → Console → Console
unfolding printable tab
plain erase_c c k =
    if ltb 31 c && ltb c 127
    then printable c k
    else if c == 27
    then record k { state = 1 }
    else if c == 10 || c == 11 || c == 12
    then lf k
    else if c == 13
    then cr k
    else if c == erase_c
    then del k
    else if c == 8
    then if k.x == 0 then k else back k
    else if c == 9
    then tab k
    else k

-- `case 1`, with the tests of `x` for '7' and '8' that the source has.
pub escape : ℕ → Console → Console
escape c old =
    let k = record old { state = 0 } in
    if c == 91
    then record old { state = 2 }
    else if c == 69
    then gotoxy 0 (plus32 k.y 1) k
    else if c == 77
    then ri k
    else if c == 68
    then lf k
    else if c == 90
    then record k { responses = k.responses + 1 }
    else if k.x == 55
    then save_cur k
    else if k.x == 56
    then restore_cur k
    else k

abbrev pub par_or_one : Console → ℕ
par_or_one k = if k.par 0 == 0 then 1 else k.par 0

abbrev pub par_less : ℕ → Console → ℕ
par_less i k = k.par i - 1

-- `case 'r'`.
abbrev pub set_region : Console → Console
set_region k =
    let low = par_less 0 k in
    let high = if k.par 1 == 0 then k.num_lines else k.par 1 in
    if ltb low high && leb high k.num_lines then record k { top = low; bottom = high } else k

-- The sequences that move the cursor; `none` for another character. What becomes of `par` after
-- them is not read again.
pub moves : ℕ → Console → Option (ℕ × ℕ)
moves c k =
    if c == 71 || c == 96
    then some (par_less 0 k, k.y)
    else if c == 65
    then some (k.x, minus32 k.y (par_or_one k))
    else if c == 66 || c == 101
    then some (k.x, plus32 k.y (par_or_one k))
    else if c == 67 || c == 97
    then some (plus32 k.x (par_or_one k), k.y)
    else if c == 68
    then some (minus32 k.x (par_or_one k), k.y)
    else if c == 69
    then some (0, plus32 k.y (par_or_one k))
    else if c == 70
    then some (0, minus32 k.y (par_or_one k))
    else if c == 100
    then some (k.x, par_less 0 k)
    else if c == 72 || c == 102
    then some (par_less 1 k, par_less 0 k)
    else none

-- The other sequences.
pub edits : ℕ → Console → Console
edits c k =
    if c == 74
    then csi_J (k.par 0) k
    else if c == 75
    then csi_K (k.par 0) k
    else if c == 76
    then times (clamp (k.par 0) k.num_lines) insert_line k
    else if c == 77
    then times (clamp (k.par 0) k.num_lines) delete_line k
    else if c == 80
    then times (clamp (k.par 0) k.num_columns) delete_char k
    else if c == 64
    then times (clamp (k.par 0) k.num_columns) insert_char k
    else if c == 109
    then record k { attr = attrs (k.npar + 1) 0 k.par k.attr }
    else if c == 114
    then set_region k
    else if c == 115
    then save_cur k
    else if c == 117
    then restore_cur k
    else k

-- `case 4`.
pub finish : ℕ → Console → Console
unfolding moves edits
finish c old =
    let k = record old { state = 0 } in
    elim (moves c k) [ none ↦ edits c k | some (new_x, new_y) ↦ gotoxy new_x new_y k ]

-- `case 3`.
pub parameter : ℕ → Console → Console
unfolding finish
parameter c k =
    if (c == 59) && ltb k.npar (npar_max - 1)
    then record k { npar = k.npar + 1 }
    else if leb 48 c && leb c 57
    then record k { par = update k.par k.npar ((10 * k.par k.npar + c - 48) % 2 ^ 32) }
    else finish c k

-- `case 2`.
pub begin : ℕ → Console → Console
unfolding parameter
begin c k =
    let cleared = record k { par = λ _. 0; npar = 0; state = 3; ques = c == 63 } in
    if c == 63 then cleared else parameter c cleared

-- The `switch` on the state.
pub put_char : (erase_c c : ℕ) → Console → Console
unfolding plain escape begin
put_char erase_c c k =
    if k.state == 0
    then plain erase_c c k
    else if k.state == 1
    then escape c k
    else if k.state == 2
    then begin c k
    else if k.state == 3
    then parameter c k
    else if k.state == 4
    then finish c k
    else k

-- The characters of the queue.
pub con_write : ℕ → List ℕ → Console → Console
unfolding put_char
con_write erase_c [] k = k
con_write erase_c (c ∷ cs) k = con_write erase_c cs (put_char erase_c c k)
