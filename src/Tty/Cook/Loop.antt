-- ===== src/Tty/Cook/Loop.antt =====
-- The loop of `copy_to_cooked` (kernel/chr_drv/tty_io.c), for a driver that leaves the terminal's
-- input alone.
use liha_linux.Base.{
  ◌+◌, ==_iff, Bool, Option, ap, arith, false, if◌then◌else◌, none, or_false, refl, some, subst,
  suc, sym, true, true_is_not_false, zero, ◌||◌, ℕ, ◌∙◌, ◌≡◌, ◌≢◌, ◌≤◌,
}
use liha_linux.Tty.{Queue, Termios, Tty, chars, getch, is_empty, is_full, left}
use liha_linux.Tty.Ring.{InBuf}
use liha_linux.Tty.Lines.{below_buf, Counted}
use liha_linux.Tty.Cook.{Line, cook, copy_to_cooked, round, translate}
use liha_linux.Tty.Cook.Kept.{Kept, SameInput, cook-Kept}

-- Where the loop ends: with nothing to read or no room.
pub record Ended (tm : Termios) (line : Line) : Type 0 where
  pub counted : Counted tm line.tty.secondary
  pub same : line.tty.termios ≡ tm
  pub stops : (is_empty line.tty.read_q || is_full line.tty.secondary) ≡ true

none_left : (q : Queue) → InBuf q → chars q ≤ 0 → is_empty q ≡ true
none_left q b h = (==_iff q.head q.tail).1 (omega (arith, b.head, b.tail))

getch-InBuf : (q : Queue) → InBuf q → InBuf (getch q).1
unfolding getch
getch-InBuf q b = record { head = b.head; tail = below_buf (q.tail + 1) }

getch-shorter :
    (n : ℕ) (q : Queue) → InBuf q → q.head ≢ q.tail → chars q ≤ suc n → chars (getch q).1 ≤ n
unfolding getch
getch-shorter n q b ne h = omega (arith, b.head, b.tail)

module _ (write : Tty → Tty) (quiet : (t : Tty) → SameInput t (write t)) where
  module _ {tm : Termios} where
    by_translate :
        {rq : Queue} (o : Option ℕ) (taken : Line)
        → left taken.tty.secondary ≢ 0
        → Kept tm rq taken.tty
        → Kept tm rq (elim o as (λ _. Line) [ none ↦ taken | some d ↦ cook write d taken ]).tty
    by_translate none taken room k = k
    by_translate (some d) taken room k = cook-Kept write quiet d taken room k

    -- A round takes one character from the read queue.
    round-Kept :
        (line : Line) {rq : Queue}
        → left line.tty.secondary ≢ 0
        → Kept tm rq line.tty
        → Kept tm (getch rq).1 (round write line).tty
    unfolding round
    round-Kept line room k =
        let q = line.tty.read_q in
        let taken = record line { tty = record line.tty { read_q = (getch q).1 } } in
        by_translate (translate line.tty.termios (getch q).0) taken room
          (record { same = k.same; reads = ap (λ q. (getch q).1) k.reads; counted = k.counted })

    if-Ended :
        (b : Bool) {l m : Line}
        → (b ≡ true → Ended tm l)
        → (b ≡ false → Ended tm m)
        → Ended tm (if b then l else m)
    if-Ended true f g = f refl
    if-Ended false f g = g refl

    loop_end :
        (n : ℕ) (line : Line) {rq : Queue}
        → InBuf rq
        → chars rq ≤ n
        → Kept tm rq line.tty
        → Ended tm (copy_to_cooked write n line)
    unfolding copy_to_cooked
    loop_end zero line {rq} b h k = record {
      counted = k.counted;
      same = k.same;
      stops =
          subst (λ q. (is_empty q || is_full line.tty.secondary) ≡ true) (sym k.reads)
            (ap (λ t. t || is_full line.tty.secondary) (none_left rq b h));
    }
    loop_end (suc n) line {rq} b h k =
        let q = line.tty.read_q in
        let s = line.tty.secondary in
        if-Ended (is_empty q || is_full s)
          (λ e. record { counted = k.counted; same = k.same; stops = e })
          λ e.
            let f = or_false (is_empty q) (is_full s) e in
            loop_end n (round write line) {rq = (getch rq).1} (getch-InBuf rq b)
              (getch-shorter n rq b
                (λ z.
                  true_is_not_false
                    (sym ((==_iff rq.head rq.tail).1 z) ∙ ap is_empty (sym k.reads) ∙ f.0))
                h)
              (round-Kept line (λ z. true_is_not_false (sym ((==_iff (left s) 0).1 z) ∙ f.1)) k)

    -- `copy_to_cooked` keeps the number of lines, and ends within as many rounds as there are
    -- characters to read, for a driver that leaves the input of the terminal alone.
    pub copy_to_cooked-Ended :
        (n : ℕ) (line : Line)
        → InBuf line.tty.read_q
        → chars line.tty.read_q ≤ n
        → line.tty.termios ≡ tm
        → Counted tm line.tty.secondary
        → Ended tm (copy_to_cooked write n line)
    copy_to_cooked-Ended n line b h e c =
        loop_end n line b h (record { same = e; reads = refl; counted = c })
