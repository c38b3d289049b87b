-- ===== src/Console/Write/Plain.antt =====
-- Plain characters and single escapes keep the cursor on the screen (`con_write` in
-- kernel/chr_drv/console.c).
use liha_linux.Base.{
  ◌&&◌, ◌*◌, ◌+◌, ◌-◌, ◌<◌, ◌==◌, Bool, Bool-cases, arith, if◌then◌else◌, inl, inr, leb, ltb, refl,
  subst, sym, ◌||◌, ℕ, ◌≡◌, ◌≤◌,
}
use liha_linux.Console.{back, plus32, Console}
use liha_linux.Console.Cursor.{
  cr-OnScreen, gotoxy-OnScreen, ri-OnScreen, back-OnScreen, del-OnScreen, if-OnScreen, OnScreen,
  lf-OnScreen,
}
use liha_linux.Console.Edits.{Inside, lf-Inside}
use liha_linux.Console.Write.{escape, plain, printable, tab, step_tab, wrap_line, write_at}

-- A cursor that is `n` columns behind the end of the line goes on in the next one.
wrapped :
    (k : Console) (n : ℕ)
    → k.x ≡ k.num_columns + n
    → n ≤ k.num_columns
    → OnScreen (record k { x = 0; position = k.origin + k.y * k.size_row + 0 * 2 })
    → k.position ≡ k.origin + k.y * k.size_row + k.x * 2
    → OnScreen (wrap_line k)
wrapped k n e low h at =
    lf-OnScreen (record k { x = k.x - k.num_columns; position = k.position - k.size_row })
      (record {
        rows = h.rows;
        wide = h.wide;
        column = omega arith;
        line = h.line;
        region = h.region;
        start = h.start;
        address = (let r = h.rows in omega arith);
      })

-- The start of the cursor's line is on the screen.
line_start :
    (k : Console)
    → OnScreen k
    → OnScreen (record k { x = 0; position = k.origin + k.y * k.size_row + 0 * 2 })
line_start k h = record {
  rows = h.rows;
  wide = h.wide;
  column = omega arith;
  line = h.line;
  region = h.region;
  start = h.start;
  address = refl;
}

write_at-OnScreen :
    (c : ℕ) (k : Console) → k.x < k.num_columns → OnScreen k → OnScreen (write_at c k)
write_at-OnScreen c k room h = record {
  rows = h.rows;
  wide = h.wide;
  column = (let r = room in omega arith);
  line = h.line;
  region = h.region;
  start = h.start;
  address = (let a = h.address in omega arith);
}

printable-OnScreen : (c : ℕ) (k : Console) → OnScreen k → OnScreen (printable c k)
unfolding printable
printable-OnScreen c k h = elim (Bool-cases (leb k.num_columns k.x)) [
  | inl full ↦
      let at_end : k.x ≡ k.num_columns + 0 = (let a = h.column in ground arith) in
      let inside : Inside
          (record k { x = k.x - k.num_columns; position = k.position - k.size_row }) =
        (let w = h.wide in omega arith) in
      subst (λ b. OnScreen (write_at c (if b then wrap_line k else k))) (sym full)
        (write_at-OnScreen c (wrap_line k) (lf-Inside _ inside)
          (wrapped k 0 at_end (omega arith) (line_start k h) h.address))
  | inr room ↦
      subst (λ b. OnScreen (write_at c (if b then wrap_line k else k))) (sym room)
        (write_at-OnScreen c k (ground arith) h)
]

tab-OnScreen : (k : Console) → OnScreen k → OnScreen (tab k)
unfolding tab
tab-OnScreen k h =
    let moved = step_tab k in
    let at : moved.position ≡ moved.origin + moved.y * moved.size_row + moved.x * 2 =
      (let a = h.address in omega arith) in
    if-OnScreen (ltb moved.num_columns moved.x) (wrap_line moved) moved
      (λ far.
        wrapped moved (moved.x - moved.num_columns) (ground arith)
          (let a = h.column in let w = h.wide in omega arith) (line_start k h) at)
      (λ near. record {
        rows = h.rows;
        wide = h.wide;
        column = ground arith;
        line = h.line;
        region = h.region;
        start = h.start;
        address = at;
      })

-- Changes of what is not the cursor.
pub other-OnScreen :
    {k : Console} {s n a u v r : ℕ} {p m : ℕ → ℕ} {q : Bool}
    → OnScreen k
    → OnScreen (record k {
      state = s;
      npar = n;
      par = p;
      ques = q;
      attr = a;
      saved_x = u;
      saved_y = v;
      mem = m;
      responses = r;
    })
other-OnScreen h = record {
  rows = h.rows;
  wide = h.wide;
  column = h.column;
  line = h.line;
  region = h.region;
  start = h.start;
  address = h.address;
}

pub plain-OnScreen : (e c : ℕ) (k : Console) → OnScreen k → OnScreen (plain e c k)
unfolding plain
plain-OnScreen e c k h =
    if-OnScreen (ltb 31 c && ltb c 127) _ _ (λ _. printable-OnScreen c k h)
      (λ _.
        if-OnScreen (c == 27) _ _ (λ _. other-OnScreen h)
          (λ _.
            if-OnScreen (c == 10 || c == 11 || c == 12) _ _ (λ _. lf-OnScreen k h)
              (λ _.
                if-OnScreen (c == 13) _ _ (λ _. cr-OnScreen k h)
                  (λ _.
                    if-OnScreen (c == e) _ _ (λ _. del-OnScreen k h)
                      (λ _.
                        if-OnScreen (c == 8) _ _
                          (λ _.
                            if-OnScreen (k.x == 0) k (back k) (λ _. h)
                              (λ some_left. back-OnScreen k (ground arith) h))
                          (λ _. if-OnScreen (c == 9) _ _ (λ _. tab-OnScreen k h) (λ _. h)))))))

pub escape-OnScreen : (c : ℕ) (k : Console) → OnScreen k → OnScreen (escape c k)
unfolding escape
escape-OnScreen c old h =
    let k = record old { state = 0 } in
    let now : OnScreen k = other-OnScreen h in
    if-OnScreen (c == 91) _ _ (λ _. other-OnScreen h)
      (λ _.
        if-OnScreen (c == 69) _ _ (λ _. gotoxy-OnScreen 0 (plus32 k.y 1) k now)
          (λ _.
            if-OnScreen (c == 77) _ _ (λ _. ri-OnScreen k now)
              (λ _.
                if-OnScreen (c == 68) _ _ (λ _. lf-OnScreen k now)
                  (λ _.
                    if-OnScreen (c == 90) _ _ (λ _. other-OnScreen h)
                      (λ _.
                        if-OnScreen (k.x == 55) _ _ (λ _. other-OnScreen h)
                          (λ _.
                            if-OnScreen (k.x == 56) _ _
                              (λ _. gotoxy-OnScreen k.saved_x k.saved_y k now) (λ _. now)))))))
