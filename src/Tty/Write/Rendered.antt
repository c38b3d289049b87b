-- ===== src/Tty/Write/Rendered.antt =====
-- The characters that `tty_write` (kernel/chr_drv/tty_io.c) puts for a text.
use mathlib.Core.List.{append_assoc}
use liha_linux.Base.{
  ◌&&◌, ◌+◌, ◌++◌, ◌-◌, ◌==◌, ==_iff, Bool, Bool-cases, List, [], ap, arith, false, if◌then◌else◌,
  inl, inr, leb, not, refl, subst, suc, sym, true, true_is_not_false, zero, ℕ, ◌∙◌, ◌∷◌, ◌≡◌, ◌≢◌,
  ◌≤◌, ◌⊎◌,
}
use liha_linux.Tty.{Queue, Termios, is_full, left, putch}
use liha_linux.Tty.Ring.{InBuf, contents, contents-putch}
use liha_linux.Tty.Lines.{below_buf}
use liha_linux.Tty.Write.{Writing, fill, put_one, out_case, out_newline, wants_return}

and_false : (a b : Bool) → (a && (b && false)) ≡ false
and_false true true = refl
and_false true false = refl
and_false false b = refl

-- How a character is shown, by the meaning of the flags: without OPOST as it is; a return as a line
-- feed with OCRNL; a line feed as a return with ONLRET, unless it was a return; a line feed that is
-- left, behind a return with ONLCR; a small letter as its capital with OLCUC.
abbrev pub line_feed : Termios → List ℕ
line_feed t = if t.onlcr then 13 ∷ 10 ∷ [] else 10 ∷ []

abbrev pub letter : Termios → ℕ → ℕ
letter t c = if t.olcuc && (leb 97 c && leb c 122) then c - 32 else c

abbrev pub shown : Termios → ℕ → List ℕ
shown t c =
    if not t.opost
    then c ∷ []
    else if (c == 13) && t.ocrnl
    then line_feed t
    else if (c == 10) && not t.onlret
    then line_feed t
    else if c == 10
    then 13 ∷ []
    else letter t c ∷ []

-- The last character of those shown: the others are returns that are out already.
abbrev pub last_shown : List ℕ → List ℕ
last_shown (a ∷ b ∷ rest) = b ∷ rest
last_shown cs = cs

-- A text as a list; `cr` if the return of its first character is out already.
abbrev pub render : Termios → Bool → List ℕ → List ℕ
render t cr [] = []
render t cr (c ∷ cs) = (if cr then last_shown (shown t c) else shown t c) ++ render t false cs

-- The queue and what is still to come, in their order.
abbrev pub whole : Termios → Writing → List ℕ
whole t w = contents w.write_q ++ render t w.cr_flag w.todo

module _ (t : Termios) (c : ℕ) (rest : List ℕ) (w : Writing) where
  put_return :
      wants_return t w.cr_flag (out_newline t c) ≡ true
      → put_one t c rest w ≡ record w { cr_flag = true; write_q = putch 13 w.write_q }
  unfolding put_one
  put_return e = rw (e) refl

  put_plain :
      wants_return t w.cr_flag (out_newline t c) ≡ false
      → put_one t c rest w ≡ record {
        write_q = putch (out_case t (out_newline t c)) w.write_q;
        cr_flag = false;
        todo = rest;
        count = w.count + 1;
      }
  unfolding put_one
  put_plain e = rw (e) refl

-- What the code puts for a character.
abbrev puts : Termios → Bool → ℕ → List ℕ
puts t cr c =
    let n = out_newline t c in (if wants_return t cr n then 13 ∷ [] else []) ++ out_case t n ∷ []

puts_lem :
    (t : Termios) (cr : Bool) (c : ℕ)
    → puts t cr c ≡ (if cr then last_shown (shown t c) else shown t c)
puts_lem t cr c = ground arith

-- The return is put once.
returned : (t : Termios) (n : ℕ) → wants_return t true n ≡ false
returned t n = and_false t.opost (n == 10)

module _ (t : Termios) (c : ℕ) (rest : List ℕ) where
  abbrev line : Bool → List ℕ
  line b = (if b then 13 ∷ [] else []) ++ out_case t (out_newline t c) ∷ render t false rest

  render-line : (cr : Bool) → render t cr (c ∷ rest) ≡ line (wants_return t cr (out_newline t c))
  render-line cr =
      let n = out_newline t c in
      ap (λ l. l ++ render t false rest) (sym (puts_lem t cr c))
      ∙ append_assoc (if wants_return t cr n then 13 ∷ [] else []) (out_case t n ∷ [])
          (render t false rest)

  -- A round moves the head of the text that is still to come to the end of the queue.
  return-whole :
      (w : Writing)
      → InBuf w.write_q
      → left w.write_q ≢ 0
      → wants_return t w.cr_flag (out_newline t c) ≡ true
      → contents (putch 13 w.write_q) ++ render t true (c ∷ rest)
        ≡ contents w.write_q ++ render t w.cr_flag (c ∷ rest)
  return-whole w b room e =
      ap (λ q. q ++ render t true (c ∷ rest)) (contents-putch 13 w.write_q b room)
      ∙ ap (λ l. (contents w.write_q ++ 13 ∷ []) ++ l) (render-line true)
      ∙ ap (λ m. (contents w.write_q ++ 13 ∷ []) ++ line m) (returned t (out_newline t c))
      ∙ append_assoc (contents w.write_q) (13 ∷ []) (line false)
      ∙ ap (λ m. contents w.write_q ++ line m) (sym e)
      ∙ ap (λ l. contents w.write_q ++ l) (sym (render-line w.cr_flag))

  plain-whole :
      (w : Writing)
      → InBuf w.write_q
      → left w.write_q ≢ 0
      → wants_return t w.cr_flag (out_newline t c) ≡ false
      → contents (putch (out_case t (out_newline t c)) w.write_q) ++ render t false rest
        ≡ contents w.write_q ++ render t w.cr_flag (c ∷ rest)
  plain-whole w b room e =
      let n = out_case t (out_newline t c) in
      ap (λ q. q ++ render t false rest) (contents-putch n w.write_q b room)
      ∙ append_assoc (contents w.write_q) (n ∷ []) (render t false rest)
      ∙ ap (λ m. contents w.write_q ++ line m) (sym e)
      ∙ ap (λ l. contents w.write_q ++ l) (sym (render-line w.cr_flag))

pub record Round (t : Termios) (w v : Writing) : Type 0 where
  pub in_buf : InBuf v.write_q
  pub same : whole t v ≡ whole t w
  pub less : suc (left v.write_q) ≡ left w.write_q

putch-InBuf : (c : ℕ) (q : Queue) → InBuf q → InBuf (putch c q)
unfolding putch
putch-InBuf c q b = record { head = below_buf (q.head + 1); tail = b.tail }

putch-left : (c : ℕ) (q : Queue) → InBuf q → left q ≢ 0 → suc (left (putch c q)) ≡ left q
unfolding putch
putch-left c q b h = omega (arith, b.head, b.tail)

put_one-Round :
    (t : Termios) (c : ℕ) (rest : List ℕ) (w : Writing)
    → w.todo ≡ c ∷ rest
    → InBuf w.write_q
    → left w.write_q ≢ 0
    → Round t w (put_one t c rest w)
put_one-Round t c rest w e b room =
    let n = out_case t (out_newline t c) in
    let text = ap (λ l. contents w.write_q ++ render t w.cr_flag l) (sym e) in
    elim (Bool-cases (wants_return t w.cr_flag (out_newline t c))) [
      | inl f ↦ subst (Round t w) (sym (put_return t c rest w f)) (record {
        in_buf = putch-InBuf 13 w.write_q b;
        same =
            ap (λ l. contents (putch 13 w.write_q) ++ render t true l) e
            ∙ return-whole t c rest w b room f
            ∙ text;
        less = putch-left 13 w.write_q b room;
      })
      | inr f ↦ subst (Round t w) (sym (put_plain t c rest w f)) (record {
        in_buf = putch-InBuf n w.write_q b;
        same = plain-whole t c rest w b room f ∙ text;
        less = putch-left n w.write_q b room;
      })
    ]

-- What the loop has when it ends: all of the text, in order, and nothing to do or no room.
pub record Filled (t : Termios) (w v : Writing) : Type 0 where
  pub same : whole t v ≡ whole t w
  pub stops : (v.todo ≡ []) ⊎ (left v.write_q ≡ 0)

-- One step of the loop.
fill_none : (n : ℕ) (t : Termios) (w : Writing) → w.todo ≡ [] → fill (suc n) t w ≡ w
unfolding fill
fill_none n t w e = rw (e) refl

module _ (n : ℕ) (t : Termios) (w : Writing) (c : ℕ) (rest : List ℕ) (e : w.todo ≡ c ∷ rest) where
  fill_full : is_full w.write_q ≡ true → fill (suc n) t w ≡ w
  unfolding fill
  fill_full f = rw (e, f) refl

  fill_more : is_full w.write_q ≡ false → fill (suc n) t w ≡ fill n t (put_one t c rest w)
  unfolding fill
  fill_more f = rw (e, f) refl

List-cases {ℓ} : {A : Type ℓ} (xs : List A) → (xs ≡ []) ⊎ ((x : A) × (ys : List A) × (xs ≡ x ∷ ys))
List-cases [] = inl refl
List-cases (x ∷ xs) = inr (x, xs, refl)

-- The loop of `tty_write` ends within as many rounds as there is room, at the end of the text or on a
-- full queue. The queue with the rest of the text as it is to be shown is then the queue before with
-- the whole text as it is to be shown, by a table of what the output flags do to each character.
pub fill-Filled :
    (n : ℕ) (t : Termios) (w : Writing)
    → InBuf w.write_q
    → left w.write_q ≤ n
    → Filled t w (fill n t w)
unfolding fill
fill-Filled zero t w b h = record { same = refl; stops = inr (omega arith) }
fill-Filled (suc n) t w b h = elim (List-cases w.todo) [
  | inl e ↦ subst (Filled t w) (sym (fill_none n t w e)) (record { same = refl; stops = inl e })
  | inr e ↦ elim (Bool-cases (is_full w.write_q)) [
    | inl f ↦
        subst (Filled t w) (sym (fill_full n t w e.0 e.1 e.2 f))
          (record { same = refl; stops = inr ((==_iff (left w.write_q) 0).0 f) })
    | inr f ↦
        let r =
          put_one-Round t e.0 e.1 w e.2 b
            (λ z. true_is_not_false (sym ((==_iff (left w.write_q) 0).1 z) ∙ f)) in
        let rest = fill-Filled n t (put_one t e.0 e.1 w) r.in_buf (omega (arith, r.less)) in
        subst (Filled t w) (sym (fill_more n t w e.0 e.1 e.2 f))
          (record { same = rest.same ∙ r.same; stops = rest.stops })
  ]
]
