-- ===== src/Console/Cursor.antt =====
-- The cursor stays on the screen (kernel/chr_drv/console.c).
use liha_linux.Base.{
  ◌&&◌, ◌*◌, ◌+◌, ◌-◌, ◌<◌, ◌==◌, Bool, ap, arith, false, if◌then◌else◌, leb, ltb, refl, true, ◌||◌,
  ℕ, ◌∙◌, ◌≡◌, ◌≤◌,
}
use liha_linux.Console.{
  Console, gotoxy, scrup, scrdown, lf, ri, cr, del, scroll_screen, scroll_region, next_line, rewind,
  clear_last, back, put,
}

-- The cursor is on the screen or one column behind a line, and `pos` is its address.
pub record OnScreen (k : Console) : Type 0 where
  pub rows : k.size_row ≡ k.num_columns * 2
  pub wide : 8 ≤ k.num_columns
  pub column : k.x ≤ k.num_columns
  pub line : k.y < k.num_lines
  pub region : (k.top < k.bottom) × (k.bottom ≤ k.num_lines)
  pub start : k.mem_start ≤ k.origin
  pub address : k.position ≡ k.origin + k.y * k.size_row + k.x * 2

pub if-OnScreen :
    (b : Bool) (k l : Console)
    → (b ≡ true → OnScreen k)
    → (b ≡ false → OnScreen l)
    → OnScreen (if b then k else l)
if-OnScreen true k l h g = h refl
if-OnScreen false k l h g = g refl

pub gotoxy-OnScreen : (a b : ℕ) (k : Console) → OnScreen k → OnScreen (gotoxy a b k)
unfolding gotoxy
gotoxy-OnScreen a b k h =
    if-OnScreen (ltb k.num_columns a || leb k.num_lines b) k
      (record k { x = a; y = b; position = k.origin + b * k.size_row + a * 2 }) (λ _. h)
      (λ fits. record {
        rows = h.rows;
        wide = h.wide;
        column = ground arith;
        line = ground arith;
        region = h.region;
        start = h.start;
        address = refl;
      })

-- A change of the memory, or of what is not the screen.
pub same-OnScreen : {k : Console} (m : ℕ → ℕ) → OnScreen k → OnScreen (record k { mem = m })
same-OnScreen m h = record {
  rows = h.rows;
  wide = h.wide;
  column = h.column;
  line = h.line;
  region = h.region;
  start = h.start;
  address = h.address;
}

next_line-OnScreen : (k : Console) → OnScreen k → OnScreen (next_line k)
next_line-OnScreen k h = record {
  rows = h.rows;
  wide = h.wide;
  column = h.column;
  line = h.line;
  region = h.region;
  start = (let a = h.start in omega arith);
  address = (let a = h.address in omega arith);
}

rewind-OnScreen : (k : Console) → OnScreen k → OnScreen (rewind k)
rewind-OnScreen k h = record {
  rows = h.rows;
  wide = h.wide;
  column = h.column;
  line = h.line;
  region = h.region;
  start = omega arith;
  address = (let a = h.address in let b = h.start in omega arith);
}

scroll_screen-OnScreen : (k : Console) → OnScreen k → OnScreen (scroll_screen k)
scroll_screen-OnScreen k h =
    let moved = next_line-OnScreen k h in
    if-OnScreen (ltb k.mem_end (k.scr_end + k.size_row)) (rewind (next_line k))
      (clear_last (next_line k)) (λ _. rewind-OnScreen (next_line k) moved)
      (λ _. same-OnScreen (clear_last (next_line k)).mem moved)

pub scrup-OnScreen : (k : Console) → OnScreen k → OnScreen (scrup k)
unfolding scrup
scrup-OnScreen k h =
    if-OnScreen (k.ega && (k.top == 0) && (k.bottom == k.num_lines)) (scroll_screen k)
      (scroll_region k) (λ _. scroll_screen-OnScreen k h)
      (λ _. same-OnScreen (scroll_region k).mem h)

pub scrdown-OnScreen : (k : Console) → OnScreen k → OnScreen (scrdown k)
unfolding scrdown
scrdown-OnScreen k h = same-OnScreen (scrdown k).mem h

pub lf-OnScreen : (k : Console) → OnScreen k → OnScreen (lf k)
unfolding lf
lf-OnScreen k h =
    if-OnScreen (ltb (k.y + 1) k.bottom)
      (record k { y = k.y + 1; position = k.position + k.size_row }) (scrup k)
      (λ room. record {
        rows = h.rows;
        wide = h.wide;
        column = h.column;
        line = (let r = h.region in ground arith);
        region = h.region;
        start = h.start;
        address = (let a = h.address in omega arith);
      })
      (λ _. scrup-OnScreen k h)

-- One line up, in an address.
line_above : (p o y r x : ℕ) → 0 < y → p ≡ o + y * r + x → p - r ≡ o + (y - 1) * r + x
line_above p o y r x h e =
    let whole : y ≡ (y - 1) + 1 = omega arith in
    let at : p ≡ o + ((y - 1) + 1) * r + x = e ∙ ap (λ n. o + n * r + x) whole in omega arith

pub ri-OnScreen : (k : Console) → OnScreen k → OnScreen (ri k)
unfolding ri
ri-OnScreen k h =
    if-OnScreen (ltb k.top k.y) (record k { y = k.y - 1; position = k.position - k.size_row })
      (scrdown k)
      (λ room. record {
        rows = h.rows;
        wide = h.wide;
        column = h.column;
        line = (let a = h.line in omega arith);
        region = h.region;
        start = h.start;
        address = line_above k.position k.origin k.y k.size_row (k.x * 2) (ground arith) h.address;
      })
      (λ _. scrdown-OnScreen k h)

pub cr-OnScreen : (k : Console) → OnScreen k → OnScreen (cr k)
unfolding cr
cr-OnScreen k h = record {
  rows = h.rows;
  wide = h.wide;
  column = omega arith;
  line = h.line;
  region = h.region;
  start = h.start;
  address = (let a = h.address in omega arith);
}

pub back-OnScreen : (k : Console) → 0 < k.x → OnScreen k → OnScreen (back k)
back-OnScreen k some_left h = record {
  rows = h.rows;
  wide = h.wide;
  column = (let a = h.column in omega arith);
  line = h.line;
  region = h.region;
  start = h.start;
  address = (let a = h.address in omega arith);
}

pub del-OnScreen : (k : Console) → OnScreen k → OnScreen (del k)
unfolding del
del-OnScreen k h =
    if-OnScreen (k.x == 0) k (put k.erase_char (back k)) (λ _. h)
      (λ some_left.
        same-OnScreen (put k.erase_char (back k)).mem (back-OnScreen k (ground arith) h))
