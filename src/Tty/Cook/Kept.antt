-- ===== src/Tty/Cook/Kept.antt =====
-- `copy_to_cooked` (kernel/chr_drv/tty_io.c) and the count of lines, for a driver that leaves the
-- terminal's input alone.
use liha_linux.Base.{
  ◌+◌, ==_iff, Bool, Option, ap, false, if◌then◌else◌, none, or_false, refl, some, subst, suc, sym,
  true, true_is_not_false, zero, ℕ, ◌∙◌, ◌≡◌, ◌≢◌,
}
use liha_linux.Tty.{
  vquit, vintr, is_low, vstart, vstop, verase, Queue, Termios, Tty, chars, ends_line, is_empty,
  last, left, putch, unput, is_control, vkill,
}
use liha_linux.Tty.Lines.{plus_zero, Counted, one_if, putch-Counted, unput-Counted}
use liha_linux.Tty.Cook.{
  Line, at_line_start, cook, count_line, echo_char, echo_of, echo_queue, edit, interrupt, kill_line,
  or_store, rub_echo, rub_out, store_char,
}

-- The input side of `u` is that of `t`.
pub SameInput : Tty → Tty → Type 0
SameInput t u = (u.termios ≡ t.termios) × (u.secondary ≡ t.secondary) × (u.read_q ≡ t.read_q)

pub same_input :
    (t u : Tty)
    → u.termios ≡ t.termios
    → u.secondary ≡ t.secondary
    → u.read_q ≡ t.read_q
    → SameInput t u
unfolding SameInput
same_input t u e f g = (e, f, g)

-- The terminal's settings and read queue, and a cooked queue that is counted.
pub record Kept (tm : Termios) (rq : Queue) (t : Tty) : Type 0 where
  pub same : t.termios ≡ tm
  pub reads : t.read_q ≡ rq
  pub counted : Counted tm t.secondary

if-SameInput : (b : Bool) (t u : Tty) → SameInput t u → SameInput t (if b then u else t)
unfolding SameInput
if-SameInput true t u h = h
if-SameInput false t u h = (refl, refl, refl)

-- A signal leaves the terminal as it is.
data SameTty (t : Tty) : Option Line → Type 0 where
  silent : SameTty t none
  signals : {l : Line} → l.tty ≡ t → SameTty t (some l)

if-SameTty :
    {t : Tty} (b : Bool) {o p : Option Line}
    → SameTty t o
    → SameTty t p
    → SameTty t (if b then o else p)
if-SameTty true f g = f
if-SameTty false f g = g

interrupt-SameTty : (c : ℕ) (line : Line) → SameTty line.tty (interrupt c line)
unfolding interrupt
interrupt-SameTty c line =
    let t = line.tty.termios in
    if-SameTty (is_control t vintr c) (signals refl)
      (if-SameTty (is_control t vquit c) (signals refl) silent)

-- The same where the code may go on without a new terminal.
data OptKept (tm : Termios) (rq : Queue) : Option Tty → Type 0 where
  goes_on : OptKept tm rq none
  edited : {t : Tty} → Kept tm rq t → OptKept tm rq (some t)

module _ {tm : Termios} {rq : Queue} where
  if-Kept :
      (b : Bool) {t u : Tty}
      → (b ≡ true → Kept tm rq t)
      → (b ≡ false → Kept tm rq u)
      → Kept tm rq (if b then t else u)
  if-Kept true f g = f refl
  if-Kept false f g = g refl

  if-OptKept :
      (b : Bool) {t u : Option Tty}
      → OptKept tm rq t
      → OptKept tm rq u
      → OptKept tm rq (if b then t else u)
  if-OptKept true f g = f
  if-OptKept false f g = g

counted_if :
    (b : Bool) (t : Tty)
    → let one_more = record t {
      secondary = record t.secondary { q_data = t.secondary.q_data + 1 };
    } in
      let u = if b then one_more else t in
      (u.secondary ≡ record t.secondary { q_data = t.secondary.q_data + one_if b })
      × (u.termios ≡ t.termios)
      × (u.read_q ≡ t.read_q)
counted_if true t = (refl, refl, refl)
counted_if false t =
    (ap (λ n. record t.secondary { q_data = n }) (sym (plus_zero t.secondary.q_data)), refl, refl)

count_line_lem :
    (c : ℕ) (t : Tty)
    → ((count_line c t).secondary
        ≡ record t.secondary { q_data = t.secondary.q_data + one_if (ends_line t.termios c) })
      × ((count_line c t).termios ≡ t.termios)
      × ((count_line c t).read_q ≡ t.read_q)
count_line_lem c t = counted_if (ends_line t.termios c) t

module _ (write : Tty → Tty) (quiet : (t : Tty) → SameInput t (write t)) where
  rub_echo_same : (t : Tty) → SameInput t (rub_echo write t)
  unfolding rub_echo SameInput
  rub_echo_same t =
      let f = λ (q : Queue). putch 127 (if is_low (last t.secondary) then putch 127 q else q) in
      if-SameInput t.termios.echo t (write (echo_queue f t)) (quiet (echo_queue f t))

  echo_char_same : (c : ℕ) (t : Tty) → SameInput t (echo_char write c t)
  unfolding echo_char SameInput
  echo_char_same c t =
      let f = echo_of t.termios c in
      if-SameInput t.termios.echo t (write (echo_queue f t)) (quiet (echo_queue f t))

  module _ {tm : Termios} {rq : Queue} where
    rub_out-Kept : (t : Tty) → at_line_start t ≡ false → Kept tm rq t → Kept tm rq (rub_out write t)
    unfolding rub_out SameInput
    rub_out-Kept t e k =
        let s = rub_echo_same t in
        let apart = or_false (is_empty t.secondary) (ends_line t.termios (last t.secondary)) e in
        record {
          same = s.0 ∙ k.same;
          reads = s.2 ∙ k.reads;
          counted =
              subst (λ q. Counted tm (unput q)) (sym s.1)
                (unput-Counted tm t.secondary
                  (λ q.
                    true_is_not_false
                      (sym ((==_iff t.secondary.head t.secondary.tail).1 q) ∙ apart.0))
                  (ap (λ m. ends_line m (last t.secondary)) (sym k.same) ∙ apart.1) k.counted);
        }

    kill_line-Kept : (n : ℕ) (t : Tty) → Kept tm rq t → Kept tm rq (kill_line write n t)
    unfolding kill_line
    kill_line-Kept zero t k = k
    kill_line-Kept (suc n) t k =
        if-Kept (at_line_start t) (λ e. k)
          (λ e. kill_line-Kept n (rub_out write t) (rub_out-Kept t e k))

    edit-Kept : (c : ℕ) (t : Tty) → Kept tm rq t → OptKept tm rq (edit write c t)
    unfolding edit
    edit-Kept c t k =
        if-OptKept (is_control t.termios vkill c) (edited (kill_line-Kept (chars t.secondary) t k))
          (if-OptKept (is_control t.termios verase c)
            (edited (if-Kept (at_line_start t) (λ e. k) (λ e. rub_out-Kept t e k)))
            (if-OptKept (is_control t.termios vstop c)
              (edited (record { same = k.same; reads = k.reads; counted = k.counted }))
              (if-OptKept (is_control t.termios vstart c)
                (edited (record { same = k.same; reads = k.reads; counted = k.counted })) goes_on)))

    store_char-Kept :
        (c : ℕ) (t : Tty) → left t.secondary ≢ 0 → Kept tm rq t → Kept tm rq (store_char write c t)
    unfolding store_char SameInput
    store_char-Kept c t room k =
        let s = echo_char_same c (count_line c t) in
        let l = count_line_lem c t in
        record {
          same = s.0 ∙ l.1 ∙ k.same;
          reads = s.2 ∙ l.2 ∙ k.reads;
          counted =
              subst (λ q. Counted tm (putch c q)) (sym (s.1 ∙ l.0))
                (subst
                  (λ m. Counted tm (
                    putch c (record t.secondary {
                      q_data = t.secondary.q_data + one_if (ends_line m c);
                    })))
                  (sym k.same) (putch-Counted tm c t.secondary room k.counted));
        }

    -- A character that the line discipline has seen.
    interrupted-Kept :
        (o : Option Line) (line stored : Line)
        → SameTty line.tty o
        → Kept tm rq line.tty
        → Kept tm rq stored.tty
        → Kept tm rq (or_store o stored).tty
    interrupted-Kept none line stored s k h = h
    interrupted-Kept (some l) line stored (signals e) k h = subst (Kept tm rq) (sym e) k

    if-line :
        (b : Bool) (l m : Line)
        → Kept tm rq l.tty
        → Kept tm rq m.tty
        → Kept tm rq (if b then l else m).tty
    if-line true l m h g = h
    if-line false l m h g = g

    by_edit :
        (o : Option Tty) (line other : Line)
        → OptKept tm rq o
        → Kept tm rq other.tty
        → Kept tm rq
            (elim o as (λ _. Line) [ some tty ↦ record line { tty = tty } | none ↦ other ]).tty
    by_edit none line other o k = k
    by_edit (some tty) line other (edited h) k = h

    pub cook-Kept :
        (c : ℕ) (line : Line)
        → left line.tty.secondary ≢ 0
        → Kept tm rq line.tty
        → Kept tm rq (cook write c line).tty
    unfolding cook
    cook-Kept c line room k =
        let stored = record line { tty = store_char write c line.tty } in
        let o = interrupt c line in
        let st = store_char-Kept c line.tty room k in
        let sig =
          if-line line.tty.termios.isig (or_store o stored) stored
            (interrupted-Kept o line stored (interrupt-SameTty c line) k st) st in
        let signalled = if line.tty.termios.isig then or_store o stored else stored in
        if-line line.tty.termios.icanon
          (elim (edit write c line.tty) as (λ _. Line) [
            | some tty ↦ record line { tty = tty }
            | none ↦ signalled
          ])
          signalled (by_edit (edit write c line.tty) line signalled (edit-Kept c line.tty k) sig)
          sig
