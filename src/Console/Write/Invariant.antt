-- ===== src/Console/Write/Invariant.antt =====
-- `con_write` (kernel/chr_drv/console.c) keeps the cursor on the screen.
use liha_linux.Base.{
  ◌&&◌, ◌-◌, ◌<◌, ◌==◌, List, Option, [], arith, if◌then◌else◌, leb, ltb, none, some, true, ℕ, ◌∷◌,
  ◌≡◌, ◌≤◌,
}
use liha_linux.Console.{
  delete_line, insert_line, gotoxy, clamp, npar_max, delete_char, insert_char, Console,
}
use liha_linux.Console.Cursor.{gotoxy-OnScreen, if-OnScreen, OnScreen}
use liha_linux.Console.Edits.{
  insert_line-OnScreen, times-OnScreen, csi_K-OnScreen, delete_line-OnScreen, delete_char-OnScreen,
  insert_char-OnScreen, csi_J-OnScreen,
}
use liha_linux.Console.Write.Plain.{plain-OnScreen, escape-OnScreen, other-OnScreen}
use liha_linux.Console.Write.{
  finish, put_char, begin, set_region, con_write, edits, parameter, moves, par_less,
}

set_region-OnScreen : (k : Console) → OnScreen k → OnScreen (set_region k)
set_region-OnScreen k h =
    let low = par_less 0 k in
    let high = if k.par 1 == 0 then k.num_lines else k.par 1 in
    if-OnScreen (ltb low high && leb high k.num_lines) (record k { top = low; bottom = high }) k
      (λ fits. record {
        rows = h.rows;
        wide = h.wide;
        column = h.column;
        line = h.line;
        region = in_region low high k.num_lines fits;
        start = h.start;
        address = h.address;
      })
      (λ _. h)
  where
    in_region : (a b n : ℕ) → (ltb a b && leb b n) ≡ true → (a < b) × (b ≤ n)
    in_region a b n fits = ground arith

edits-OnScreen : (c : ℕ) (k : Console) → OnScreen k → OnScreen (edits c k)
unfolding edits
edits-OnScreen c k h =
    if-OnScreen (c == 74) _ _ (λ _. csi_J-OnScreen (k.par 0) k h)
      (λ _.
        if-OnScreen (c == 75) _ _ (λ _. csi_K-OnScreen (k.par 0) k h)
          (λ _.
            if-OnScreen (c == 76) _ _
              (λ _.
                times-OnScreen (clamp (k.par 0) k.num_lines) insert_line k insert_line-OnScreen h)
              (λ _.
                if-OnScreen (c == 77) _ _
                  (λ _.
                    times-OnScreen (clamp (k.par 0) k.num_lines) delete_line k delete_line-OnScreen
                      h)
                  (λ _.
                    if-OnScreen (c == 80) _ _
                      (λ _.
                        times-OnScreen (clamp (k.par 0) k.num_columns) delete_char k
                          delete_char-OnScreen h)
                      (λ _.
                        if-OnScreen (c == 64) _ _
                          (λ _.
                            times-OnScreen (clamp (k.par 0) k.num_columns) insert_char k
                              insert_char-OnScreen h)
                          (λ _.
                            if-OnScreen (c == 109) _ _ (λ _. other-OnScreen h)
                              (λ _.
                                if-OnScreen (c == 114) _ _ (λ _. set_region-OnScreen k h)
                                  (λ _.
                                    if-OnScreen (c == 115) _ _ (λ _. other-OnScreen h)
                                      (λ _.
                                        if-OnScreen (c == 117) _ _
                                          (λ _. gotoxy-OnScreen k.saved_x k.saved_y k h)
                                          (λ _. h))))))))))

finish-OnScreen : (c : ℕ) (k : Console) → OnScreen k → OnScreen (finish c k)
unfolding finish
finish-OnScreen c old h = go (moves c (record old { state = 0 }))
  where
    go :
        (o : Option (ℕ × ℕ))
        → OnScreen (elim o as (λ _. Console) [
          | none ↦ edits c (record old { state = 0 })
          | some to ↦ gotoxy to.0 to.1 (record old { state = 0 })
        ])
    go none = edits-OnScreen c (record old { state = 0 }) (other-OnScreen h)
    go (some to) = gotoxy-OnScreen to.0 to.1 (record old { state = 0 }) (other-OnScreen h)

parameter-OnScreen : (c : ℕ) (k : Console) → OnScreen k → OnScreen (parameter c k)
unfolding parameter
parameter-OnScreen c k h =
    if-OnScreen ((c == 59) && ltb k.npar (npar_max - 1)) _ _ (λ _. other-OnScreen h)
      (λ _.
        if-OnScreen (leb 48 c && leb c 57) _ _ (λ _. other-OnScreen h) (λ _. finish-OnScreen c k h))

begin-OnScreen : (c : ℕ) (k : Console) → OnScreen k → OnScreen (begin c k)
unfolding begin
begin-OnScreen c k h =
    let cleared = record k { par = λ _. 0; npar = 0; state = 3; ques = c == 63 } in
    if-OnScreen (c == 63) cleared (parameter c cleared) (λ _. other-OnScreen h)
      (λ _. parameter-OnScreen c cleared (other-OnScreen h))

put_char-OnScreen : (e c : ℕ) (k : Console) → OnScreen k → OnScreen (put_char e c k)
unfolding put_char
put_char-OnScreen e c k h =
    if-OnScreen (k.state == 0) _ _ (λ _. plain-OnScreen e c k h)
      (λ _.
        if-OnScreen (k.state == 1) _ _ (λ _. escape-OnScreen c k h)
          (λ _.
            if-OnScreen (k.state == 2) _ _ (λ _. begin-OnScreen c k h)
              (λ _.
                if-OnScreen (k.state == 3) _ _ (λ _. parameter-OnScreen c k h)
                  (λ _. if-OnScreen (k.state == 4) _ _ (λ _. finish-OnScreen c k h) (λ _. h)))))

-- With at least 8 columns and a cursor on the screen (or one column behind a line) at its address in
-- the screen memory, with the scrolled region inside the screen, every string that is written, with
-- any escape sequences, keeps all of this so.
pub con_write-OnScreen :
    (e : ℕ) (cs : List ℕ) (k : Console) → OnScreen k → OnScreen (con_write e cs k)
unfolding con_write
con_write-OnScreen e [] k h = h
con_write-OnScreen e (c ∷ cs) k h =
    con_write-OnScreen e cs (put_char e c k) (put_char-OnScreen e c k h)
