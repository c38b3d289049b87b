-- ===== src/Tty/Ring.antt =====
-- The queues of include/linux/tty.h as lists of characters.
use liha_linux.Base.{
  ◌%◌, ◌+◌, ◌++◌, ◌-◌, ◌<◌, List, [], ap, arith, refl, suc, update, update_ne, update_self, zero, ℕ,
  ◌∙◌, ◌∷◌, ◌≡◌, ◌≢◌, ◌≤◌,
}
use liha_linux.Tty.{Queue, chars, dec, getch, inc, last, left, putch, unput}

-- The `n` characters from index `i` on.
abbrev pub from : (ℕ → ℕ) → ℕ → ℕ → List ℕ
from buf i zero = []
from buf i (suc n) = buf i ∷ from buf (inc i) n

abbrev pub contents : Queue → List ℕ
contents q = from q.buf q.tail (chars q)

pub record InBuf (q : Queue) : Type 0 where
  pub head : q.head < 1024
  pub tail : q.tail < 1024

-- The index behind the last of `n` characters.
abbrev pub index : ℕ → ℕ → ℕ
index i n = (i + n) % 1024

from-snoc :
    (buf : ℕ → ℕ) (i n : ℕ) → i < 1024 → from buf i (suc n) ≡ from buf i n ++ buf (index i n) ∷ []
from-snoc buf i zero h = ap (λ j. buf j ∷ []) {x = i} {y = index i 0} (omega arith)
from-snoc buf i (suc n) h =
    ap (λ l. buf i ∷ l)
      (from-snoc buf (inc i) n (omega arith)
        ∙ ap (λ j. from buf (inc i) n ++ buf j ∷ []) {x = index (inc i) n} {y = index i (suc n)}
            (omega arith))

ahead : (p i n : ℕ) → i < 1024 → i ≡ p → suc n ≤ (p + (1024 - i)) % 1024 → ⊥
ahead p i n hi e h = omega arith

-- A write outside the characters changes none.
from-update :
    (buf : ℕ → ℕ) (p v i n : ℕ)
    → i < 1024
    → p < 1024
    → n ≤ (p + (1024 - i)) % 1024
    → from (update buf p v) i n ≡ from buf i n
from-update buf p v i zero hi hp h = refl
from-update buf p v i (suc n) hi hp h =
    ap (λ x. x ∷ from (update buf p v) (inc i) n) (update_ne buf p i v (λ e. ahead p i n hi e h))
    ∙ ap (λ l. buf i ∷ l) (from-update buf p v (inc i) n (omega arith) hp (omega arith))

module _ (h t : ℕ) (ph : h < 1024) (pt : t < 1024) where
  chars_putch :
      (t + (1024 - h) + 1023) % 1024 ≢ 0
      → ((h + 1) % 1024 + (1024 - t)) % 1024 ≡ suc ((h + (1024 - t)) % 1024)
  chars_putch ne = omega arith

  chars_getch : h ≢ t → (h + (1024 - t)) % 1024 ≡ suc ((h + (1024 - (t + 1) % 1024)) % 1024)
  chars_getch ne = omega arith

  chars_unput : h ≢ t → (h + (1024 - t)) % 1024 ≡ suc (((h + 1023) % 1024 + (1024 - t)) % 1024)
  chars_unput ne = omega arith

  index_last : h ≢ t → (t + ((h + 1023) % 1024 + (1024 - t)) % 1024) % 1024 ≡ (h + 1023) % 1024
  index_last ne = omega arith

pub contents-putch :
    (c : ℕ) (q : Queue) → InBuf q → left q ≢ 0 → contents (putch c q) ≡ contents q ++ c ∷ []
unfolding putch
contents-putch c q b h =
    let buf = update q.buf q.head c in
    let n = chars q in
    ap (from buf q.tail) {x = chars (putch c q)} {y = suc n}
      (chars_putch q.head q.tail b.head b.tail h)
    ∙ from-snoc buf q.tail n b.tail
    ∙ ap (λ j. from buf q.tail n ++ buf j ∷ []) {x = index q.tail n} {y = q.head}
        (omega (arith, b.head, b.tail))
    ∙ ap (λ x. from buf q.tail n ++ x ∷ []) (update_self q.buf q.head c)
    ∙ ap (λ l. l ++ c ∷ []) (from-update q.buf q.head c q.tail n b.tail b.head (omega arith))

pub contents-getch :
    (q : Queue) → InBuf q → q.head ≢ q.tail → contents q ≡ (getch q).0 ∷ contents (getch q).1
unfolding getch
contents-getch q b h =
    ap (from q.buf q.tail) {x = chars q} {y = suc (chars (getch q).1)}
      (chars_getch q.head q.tail b.head b.tail h)

pub contents-unput :
    (q : Queue) → InBuf q → q.head ≢ q.tail → contents q ≡ contents (unput q) ++ last q ∷ []
unfolding unput
contents-unput q b h =
    ap (from q.buf q.tail) {x = chars q} {y = suc (chars (unput q))}
      (chars_unput q.head q.tail b.head b.tail h)
    ∙ from-snoc q.buf q.tail (chars (unput q)) b.tail
    ∙ ap (λ j. from q.buf q.tail (chars (unput q)) ++ q.buf j ∷ [])
        {x = index q.tail (chars (unput q))} {y = dec q.head}
        (index_last q.head q.tail b.head b.tail h)
