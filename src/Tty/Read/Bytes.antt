-- ===== src/Tty/Read/Bytes.antt =====
-- The bytes that `tty_read` (kernel/chr_drv/tty_io.c) takes from the cooked queue.
use mathlib.Core.List.{append_assoc, append-nil}
use liha_linux.Base.{
  ◌%◌, ◌&&◌, ◌+◌, ◌++◌, ◌-◌, ◌<◌, ◌==◌, ==_iff, Bool, List, [], ◌^◌, ap, arith, false,
  if◌then◌else◌, length, length-append, or_false, refl, subst, suc, sym, true, true_is_not_false,
  zero, ◌||◌, ℕ, ◌∙◌, ◌∷◌, ◌≡◌, ◌≢◌, ◌≤◌,
}
use liha_linux.Tty.{Queue, Termios, chars, ends_line, getch, inc, is_control, is_empty, veof}
use liha_linux.Tty.Ring.{InBuf, contents, contents-getch, from}
use liha_linux.Tty.Lines.{below_buf, Counted, ends, getch-Counted, one_if}
use liha_linux.Tty.Read.{Reading, read_chars, take_char}

length-from : (buf : ℕ → ℕ) (i n : ℕ) → length (from buf i n) ≡ n
length-from buf i zero = refl
length-from buf i (suc n) = ap suc (length-from buf (inc i) n)

pub zero_plus : (a : ℕ) → 0 + a ≡ a
zero_plus a = omega arith

at_most_one : (b : Bool) → one_if b ≤ 1
at_most_one true = omega arith
at_most_one false = omega arith

ends_below : (t : Termios) (cs : List ℕ) → ends t cs ≤ length cs
ends_below t [] = omega arith
ends_below t (c ∷ cs) = omega (arith, at_most_one (ends_line t c), ends_below t cs)

below_1024 : (t : Termios) (q : Queue) → ends t (contents q) < 1024
below_1024 t q =
    let n = chars q in
    omega (
      arith,
      ends_below t (contents q),
      length-from q.buf q.tail n,
      below_buf (q.head + (1024 - q.tail)),
    )

one_less : (d k : ℕ) → d ≡ 1 + k → k < 1024 → (d + (2 ^ 32 - 1)) % 2 ^ 32 ≡ k
one_less d k e h = omega arith

taken_if :
    (t : Termios) (q : Queue) (b : Bool)
    → InBuf (getch q).1
    → q.q_data ≡ one_if b + ends t (contents (getch q).1)
    → Counted t (take_char q b) × (contents (take_char q b) ≡ contents (getch q).1)
unfolding take_char getch
taken_if t q true h e =
    let rest = contents (getch q).1 in
    (
      record {
        in_buf = record { head = h.head; tail = h.tail };
        counts = one_less q.q_data (ends t rest) e (below_1024 t (getch q).1);
      },
      refl,
    )
taken_if t q false h e =
    (record { in_buf = h; counts = e ∙ zero_plus (ends t (contents (getch q).1)) }, refl)

-- A character is taken, and its line with it.
take_char-Counted :
    (t : Termios) (q : Queue)
    → q.head ≢ q.tail
    → Counted t q
    → Counted t (take_char q (ends_line t (getch q).0))
      × (contents q ≡ (getch q).0 ∷ contents (take_char q (ends_line t (getch q).0)))
take_char-Counted t q ne k =
    let g = getch-Counted t q ne k in
    let b = ends_line t (getch q).0 in
    let r = taken_if t q b g.0 g.1 in
    (r.0, contents-getch q k.in_buf ne ∙ ap (λ l. (getch q).0 ∷ l) (sym r.1))

-- From `r` to `s`: the bytes that went to the user are the first ones of the queue, less `rest`.
pub record Moved (tm : Termios) (rest : List ℕ) (r s : Reading) : Type 0 where
  pub bytes : List ℕ
  pub out : s.out ≡ r.out ++ bytes
  pub queue : contents r.tty.secondary ≡ bytes ++ (rest ++ contents s.tty.secondary)
  pub counted : Counted tm s.tty.secondary
  pub wanted : length bytes + s.nr ≡ r.nr
  pub same : s.tty.termios ≡ tm

pub trans :
    {tm : Termios} {rest : List ℕ} {r s u : Reading}
    → Moved tm [] r s
    → Moved tm rest s u
    → Moved tm rest r u
trans {tm} {rest} {r} {s} {u} f g = record {
  bytes = f.bytes ++ g.bytes;
  out = g.out ∙ ap (λ l. l ++ g.bytes) f.out ∙ append_assoc r.out f.bytes g.bytes;
  queue =
      f.queue
      ∙ ap (λ l. f.bytes ++ l) g.queue
      ∙ sym (append_assoc f.bytes g.bytes (rest ++ contents u.tty.secondary));
  counted = g.counted;
  wanted = omega (arith, length-append f.bytes g.bytes, f.wanted, g.wanted);
  same = g.same;
}

-- How the inner loop ends: at an end of file, or with bytes for the user.
pub data Taken (tm : Termios) (r : Reading) : Bool × Reading → Type 0 where
  at_eof :
      {s : Reading} (c : ℕ)
      → (is_control tm veof c && tm.icanon) ≡ true
      → Moved tm (c ∷ []) r s
      → Taken tm r (true, s)
  some_bytes : {s : Reading} → length r.out < length s.out → Moved tm [] r s → Taken tm r (false, s)

none_is_not_some : {n : ℕ} → 0 < n → n ≤ 0 → ⊥
none_is_not_some h g = omega arith

one_and_less : (n : ℕ) → 0 < n → 1 + (n - 1) ≡ n
one_and_less n h = omega arith

less_left : (a n : ℕ) → a ≤ suc n → a - 1 ≤ n
less_left a n h = omega arith

pub not_zero : (n : ℕ) → (n == 0) ≡ false → 0 < n
not_zero n e = ground arith

not_empty : (q : Queue) → is_empty q ≡ false → q.head ≢ q.tail
not_empty q e = λ z. true_is_not_false (sym ((==_iff q.head q.tail).1 z) ∙ e)

if-Taken :
    {tm : Termios} {r : Reading} (b : Bool) {p q : Bool × Reading}
    → (b ≡ true → Taken tm r p)
    → (b ≡ false → Taken tm r q)
    → Taken tm r (if b then p else q)
if-Taken true f g = f refl
if-Taken false f g = g refl

longer_one : (out : List ℕ) (c : ℕ) → length out < length (out ++ c ∷ [])
longer_one out c = omega (arith, length-append out (c ∷ []))

then_Taken :
    {tm : Termios} {r s : Reading} {p : Bool × Reading}
    → Moved tm [] r s
    → length r.out < length s.out
    → Taken tm s p
    → Taken tm r p
then_Taken m h (at_eof c e n) = at_eof c e (trans m n)
then_Taken m h (some_bytes g n) = some_bytes (omega arith) (trans m n)

-- The inner loop, for a queue with characters and room in the user's buffer.
module _ (tm : Termios) where
  pub read_chars-Taken :
      (n : ℕ) (r : Reading)
      → 0 < r.nr
      → r.nr ≤ n
      → is_empty r.tty.secondary ≡ false
      → r.tty.termios ≡ tm
      → Counted tm r.tty.secondary
      → Taken tm r (read_chars n r)
  unfolding read_chars
  read_chars-Taken zero r room h some_char e k = absurd (none_is_not_some room h)
  read_chars-Taken (suc n) r room h some_char e k =
      let q = r.tty.secondary in
      let t = r.tty.termios in
      let c = (getch q).0 in
      let rest = take_char q (ends_line t c) in
      let tk =
        subst
          (λ m.
            Counted tm (take_char q (ends_line m c))
            × (contents q ≡ c ∷ contents (take_char q (ends_line m c))))
          (sym e) (take_char-Counted tm q (not_empty q some_char) k) in
      let taken = record r { tty = record r.tty { secondary = rest } } in
      let put = record taken { out = r.out ++ c ∷ []; nr = r.nr - 1 } in
      let moved : Moved tm [] r put = record {
        bytes = c ∷ [];
        out = refl;
        queue = tk.1;
        counted = tk.0;
        wanted = one_and_less r.nr room;
        same = e;
      } in
      if-Taken (is_control t veof c && t.icanon)
        (λ f. at_eof c (ap (λ m. is_control m veof c && m.icanon) (sym e) ∙ f) (record {
          bytes = [];
          out = sym (append-nil r.out);
          queue = tk.1;
          counted = tk.0;
          wanted = zero_plus r.nr;
          same = e;
        }))
        (λ f.
          if-Taken ((put.nr == 0) || is_empty rest) (λ g. some_bytes (longer_one r.out c) moved)
            λ g.
              let apart = or_false (put.nr == 0) (is_empty rest) g in
              then_Taken moved (longer_one r.out c) (
                read_chars-Taken n put (not_zero put.nr apart.0) (less_left r.nr n h) apart.1 e
                  tk.0))
