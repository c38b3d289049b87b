-- ===== src/Console/Edits.antt =====
-- The cursor stays on the screen when characters and lines are erased, inserted and deleted
-- (kernel/chr_drv/console.c).
use liha_linux.Base.{
  ◌&&◌, ◌*◌, ◌+◌, ◌-◌, ◌/◌, ◌<◌, ◌==◌, Bool, arith, false, if◌then◌else◌, leb, ltb, refl, subst,
  suc, sym, true, zero, ℕ, ◌≡◌, ◌≤◌,
}
use liha_linux.Console.Cursor.{
  same-OnScreen, scrdown-OnScreen, scrup-OnScreen, OnScreen, if-OnScreen,
}
use liha_linux.Console.{
  insert_line, lf, scroll_screen, scrdown, times, scroll_region, delete_char, rewind, below_cursor,
  next_line, delete_line, erase, insert_char, csi_K, clear_last, scrup, Console, csi_J,
}

pub csi_J-OnScreen : (n : ℕ) (k : Console) → OnScreen k → OnScreen (csi_J n k)
unfolding csi_J
csi_J-OnScreen n k h =
    if-OnScreen (n == 0) (erase k.position ((k.scr_end - k.position) / 2) k) _
      (λ _. same-OnScreen _ h)
      (λ _.
        if-OnScreen (n == 1) (erase k.origin ((k.position - k.origin) / 2) k) _
          (λ _. same-OnScreen _ h)
          (λ _.
            if-OnScreen (n == 2) (erase k.origin (k.num_columns * k.num_lines) k) k
              (λ _. same-OnScreen _ h) (λ _. h)))

pub csi_K-OnScreen : (n : ℕ) (k : Console) → OnScreen k → OnScreen (csi_K n k)
unfolding csi_K
csi_K-OnScreen n k h =
    if-OnScreen (n == 0) _ _
      (λ _.
        if-OnScreen (leb k.num_columns k.x) k (erase k.position (k.num_columns - k.x) k) (λ _. h)
          (λ _. same-OnScreen _ h))
      (λ _.
        if-OnScreen (n == 1)
          (erase (k.position - k.x * 2) (if ltb k.x k.num_columns then k.x else k.num_columns) k) _
          (λ _. same-OnScreen _ h)
          (λ _.
            if-OnScreen (n == 2) (erase (k.position - k.x * 2) k.num_columns k) k
              (λ _. same-OnScreen _ h) (λ _. h)))

pub insert_char-OnScreen : (k : Console) → OnScreen k → OnScreen (insert_char k)
unfolding insert_char
insert_char-OnScreen k h = same-OnScreen (insert_char k).mem h

pub delete_char-OnScreen : (k : Console) → OnScreen k → OnScreen (delete_char k)
unfolding delete_char
delete_char-OnScreen k h = if-OnScreen (leb k.num_columns k.x) k _ (λ _. h) (λ _. same-OnScreen _ h)

scrup-num_lines : (k : Console) → (scrup k).num_lines ≡ k.num_lines
unfolding scrup
scrup-num_lines k =
    if_lines (k.ega && (k.top == 0) && (k.bottom == k.num_lines)) (scroll_screen k)
      (scroll_region k)
      (if_lines (ltb k.mem_end (k.scr_end + k.size_row)) (rewind (next_line k))
        (clear_last (next_line k)) refl refl)
      refl
  where
    if_lines :
        (b : Bool) (c d : Console)
        → c.num_lines ≡ k.num_lines
        → d.num_lines ≡ k.num_lines
        → (if b then c else d).num_lines ≡ k.num_lines
    if_lines true c d e f = e
    if_lines false c d e f = f

-- A scroll below the cursor.
below_cursor-OnScreen :
    (f : Console → Console) (k : Console)
    → ((c : Console) → OnScreen c → OnScreen (f c))
    → ((c : Console) → (f c).num_lines ≡ c.num_lines)
    → OnScreen k
    → OnScreen (below_cursor f k)
below_cursor-OnScreen f k keeps lines h =
    let inner = record k { top = k.y; bottom = k.num_lines } in
    let h' = keeps inner (record {
      rows = h.rows;
      wide = h.wide;
      column = h.column;
      line = h.line;
      region = (h.line, (let e : k.num_lines ≤ k.num_lines = omega arith in e));
      start = h.start;
      address = h.address;
    }) in
    record {
      rows = h'.rows;
      wide = h'.wide;
      column = h'.column;
      line = h'.line;
      region = (h.region.0, subst (λ n. k.bottom ≤ n) (sym (lines inner)) h.region.1);
      start = h'.start;
      address = h'.address;
    }

pub insert_line-OnScreen : (k : Console) → OnScreen k → OnScreen (insert_line k)
unfolding insert_line scrdown
insert_line-OnScreen k = below_cursor-OnScreen scrdown k scrdown-OnScreen (λ c. refl)

pub delete_line-OnScreen : (k : Console) → OnScreen k → OnScreen (delete_line k)
unfolding delete_line
delete_line-OnScreen k = below_cursor-OnScreen scrup k scrup-OnScreen scrup-num_lines

pub times-OnScreen :
    (n : ℕ) (f : Console → Console) (k : Console)
    → ((c : Console) → OnScreen c → OnScreen (f c))
    → OnScreen k
    → OnScreen (times n f k)
unfolding times
times-OnScreen zero f k keeps h = h
times-OnScreen (suc n) f k keeps h = times-OnScreen n f (f k) keeps (keeps k h)

-- The cursor is on a column of the screen.
abbrev pub Inside : Console → Type 0
Inside k = k.x < k.num_columns

if-Inside : (b : Bool) (k l : Console) → Inside k → Inside l → Inside (if b then k else l)
if-Inside true k l h g = h
if-Inside false k l h g = g

scrup-Inside : (k : Console) → Inside k → Inside (scrup k)
unfolding scrup
scrup-Inside k h =
    if-Inside (k.ega && (k.top == 0) && (k.bottom == k.num_lines)) (scroll_screen k)
      (scroll_region k)
      (if-Inside (ltb k.mem_end (k.scr_end + k.size_row)) (rewind (next_line k))
        (clear_last (next_line k)) h h)
      h

pub lf-Inside : (k : Console) → Inside k → Inside (lf k)
unfolding lf
lf-Inside k h =
    if-Inside (ltb (k.y + 1) k.bottom)
      (record k { y = k.y + 1; position = k.position + k.size_row }) (scrup k) h (scrup-Inside k h)
