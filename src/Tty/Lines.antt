-- ===== src/Tty/Lines.antt =====
-- The number of lines in the cooked queue, `secondary.data` (kernel/chr_drv/tty_io.c).
use liha_linux.Base.{
  ◌%◌, ◌+◌, ◌++◌, ◌<◌, Bool, List, [], ap, arith, false, if◌then◌else◌, sym, ℕ, ◌∙◌, ◌∷◌, ◌≡◌, ◌≢◌,
}
use liha_linux.Tty.{Queue, Termios, ends_line, getch, last, left, putch, unput}
use liha_linux.Tty.Ring.{InBuf, contents, contents-getch, contents-putch, contents-unput}

abbrev pub one_if : Bool → ℕ
one_if t = if t then 1 else 0

-- The line ends among the characters.
abbrev pub ends : Termios → List ℕ → ℕ
ends t [] = 0
ends t (c ∷ cs) = one_if (ends_line t c) + ends t cs

ends-snoc :
    (t : Termios) (cs : List ℕ) (c : ℕ) → ends t (cs ++ c ∷ []) ≡ ends t cs + one_if (ends_line t c)
ends-snoc t [] c = omega arith
ends-snoc t (d ∷ cs) c = omega (arith, ends-snoc t cs c)

-- `data` is the number of line ends in the queue.
pub record Counted (t : Termios) (q : Queue) : Type 0 where
  pub in_buf : InBuf q
  pub counts : q.q_data ≡ ends t (contents q)

pub below_buf : (a : ℕ) → a % 1024 < 1024
below_buf a = omega arith

pub plus_zero : (a : ℕ) → a + 0 ≡ a
plus_zero a = omega arith

pub putch-Counted :
    (t : Termios) (c : ℕ) (q : Queue)
    → left q ≢ 0
    → Counted t q
    → Counted t (putch c (record q { q_data = q.q_data + one_if (ends_line t c) }))
unfolding putch
putch-Counted t c q room k = record {
  in_buf = record { head = below_buf (q.head + 1); tail = k.in_buf.tail };
  counts =
      ap (λ n. n + one_if (ends_line t c)) k.counts
      ∙ sym (ap (ends t) (contents-putch c q k.in_buf room) ∙ ends-snoc t (contents q) c);
}

pub unput-Counted :
    (t : Termios) (q : Queue)
    → q.head ≢ q.tail
    → ends_line t (last q) ≡ false
    → Counted t q
    → Counted t (unput q)
unfolding unput
unput-Counted t q some_char inside k = record {
  in_buf = record { head = below_buf (q.head + 1023); tail = k.in_buf.tail };
  counts =
      k.counts
      ∙ ap (ends t) (contents-unput q k.in_buf some_char)
      ∙ ends-snoc t (contents (unput q)) (last q)
      ∙ ap (λ b. ends t (contents (unput q)) + one_if b) inside
      ∙ plus_zero (ends t (contents (unput q)));
}

pub getch-Counted :
    (t : Termios) (q : Queue)
    → q.head ≢ q.tail
    → Counted t q
    → InBuf (getch q).1
      × (q.q_data ≡ one_if (ends_line t (getch q).0) + ends t (contents (getch q).1))
unfolding getch
getch-Counted t q some_char k = (
  record { head = k.in_buf.head; tail = below_buf (q.tail + 1) },
  k.counts ∙ ap (ends t) (contents-getch q k.in_buf some_char),
)
