-- ===== src/Fs/Dir/Names.antt =====
-- The name that `add_entry` writes is the one that `match` accepts (fs/namei.c).
use liha_linux.Base.{
  ◌%◌, ◌&&◌, ◌*◌, ◌+◌, ◌-◌, ◌/◌, ◌<◌, ◌==◌, ==_iff, Bool, Bool-cases, List, [], ◌^◌, and_true, ap,
  arith, false, if◌then◌else◌, inl, inr, leb, length, ltb, ltb→lt, not, refl, subst, suc, sym, true,
  true_is_not_false, update, update_ne, update_self, zero, ◌||◌, ℕ, ◌↔◌, ◌∙◌, ◌∷◌, ◌≡◌, ◌≢◌, ◌≤◌,
}
use liha_linux.Fs.Dir.{inode_of, match, name_at, name_byte, name_word, put_name, same_bytes}

-- Bytes other than 0.
abbrev pub IsName : List ℕ → Type 0
IsName [] = Unit {0}
IsName (c ∷ name) = (0 < c) × (c < 2 ^ 8) × IsName name

at_below : (name : List ℕ) (n : ℕ) → IsName name → name_at name n < 2 ^ 8
at_below [] n h = omega arith
at_below (c ∷ name) zero h = h.1
at_below (c ∷ name) (suc n) h = at_below name n h.2

entry_range :
    (e k : ℕ) → k < 7 → (leb (8 * e + 1) (8 * e + 1 + k) && ltb (8 * e + 1 + k) (8 * e + 8)) ≡ true
entry_range e k h = ground arith

odd_half : (n : ℕ) → (n % 2 == 0) ≡ false → 2 * (n / 2) + 1 ≡ n
odd_half n e = ground arith

two_bytes :
    (n a b : ℕ) (f : ℕ → ℕ)
    → a < 2 ^ 8
    → f (2 * (n / 2)) ≡ a
    → f (2 * (n / 2) + 1) ≡ b
    → (if n % 2 == 0 then (a + 2 ^ 8 * b) % 2 ^ 8 else (a + 2 ^ 8 * b) / 2 ^ 8) ≡ f n
two_bytes n a b f h p q = elim (Bool-cases (n % 2 == 0)) [
  | inl e ↦
      let even = (==_iff (n % 2) 0).0 e in
      ap (λ t. if t then (a + 2 ^ 8 * b) % 2 ^ 8 else (a + 2 ^ 8 * b) / 2 ^ 8) e
      ∙ (omega arith)
      ∙ sym p
      ∙ ap f {x = 2 * (n / 2)} {y = n} (omega arith)
  | inr e ↦
      ap (λ t. if t then (a + 2 ^ 8 * b) % 2 ^ 8 else (a + 2 ^ 8 * b) / 2 ^ 8) e
      ∙ (omega arith)
      ∙ sym q
      ∙ ap f {x = 2 * (n / 2) + 1} {y = n} (odd_half n e)
]

-- The bytes of an entry with the name written to it, for any inode.
module _ (name : List ℕ) (e ino : ℕ) (w : ℕ → ℕ) where
  abbrev pub entry_words : ℕ → ℕ
  entry_words = update (put_name name e w) (8 * e) ino

  in_name : (k : ℕ) → k < 7 → entry_words (8 * e + 1 + k) ≡ name_word name k
  unfolding put_name
  in_name k h =
      update_ne (put_name name e w) (8 * e) (8 * e + 1 + k) ino (λ q. omega arith)
      ∙ ap (λ t. if t then name_word name (8 * e + 1 + k - (8 * e + 1)) else w (8 * e + 1 + k))
          (entry_range e k h)
      ∙ ap (name_word name) {x = 8 * e + 1 + k - (8 * e + 1)} {y = k} (omega arith)

  byte_of_name : (n : ℕ) → IsName name → n < 14 → name_byte entry_words e n ≡ name_at name n
  byte_of_name n h below =
      let v = in_name (n / 2) (omega arith) in
      ap (λ v. if n % 2 == 0 then v % 2 ^ 8 else v / 2 ^ 8) v
      ∙ two_bytes n (name_at name (2 * (n / 2))) (name_at name (2 * (n / 2) + 1)) (name_at name)
          (at_below name (2 * (n / 2)) h) refl refl

-- `w` has the bytes of `r` from byte `k` of the entry on, filled up with 0.
abbrev Holds : List ℕ → (ℕ → ℕ) → (e k : ℕ) → Type 0
Holds r w e k = (j : ℕ) → k + j < 14 → name_byte w e (k + j) ≡ name_at r j

next-Holds : (d : ℕ) (r : List ℕ) (w : ℕ → ℕ) (e k : ℕ) → Holds (d ∷ r) w e k → Holds r w e (k + 1)
next-Holds d r w e k h = λ j below.
    ap (name_byte w e) {x = k + 1 + j} {y = k + suc j} (omega arith) ∙ h (suc j) (omega arith)

first-Holds :
    (r : List ℕ) (w : ℕ → ℕ) (e k : ℕ) → Holds r w e k → k < 14 → name_byte w e k ≡ name_at r 0
first-Holds r w e k h below =
    ap (name_byte w e) {x = k} {y = k + 0} (omega arith) ∙ h 0 (omega arith)

both : {a b : Bool} → a ≡ true → b ≡ true → (a && b) ≡ true
both {a} {b} p q = ap (λ t. t && b) p ∙ q

positive : {c : ℕ} → 0 < c → c ≡ 0 → ⊥
positive h e = omega arith

same_bytes_self :
    (r : List ℕ) (w : ℕ → ℕ) (e k : ℕ)
    → length r + k ≤ 14
    → Holds r w e k
    → same_bytes r w e k ≡ true
unfolding same_bytes
same_bytes_self [] w e k fits h = refl
same_bytes_self (c ∷ r) w e k fits h =
    both ((==_iff c (name_byte w e k)).1 (sym (first-Holds (c ∷ r) w e k h (omega arith))))
      (same_bytes_self r w e (k + 1) (omega arith) (next-Holds c r w e k h))

same_bytes_only :
    (n r : List ℕ) (w : ℕ → ℕ) (e k : ℕ)
    → IsName n
    → IsName r
    → length n + k ≤ 14
    → length r + k ≤ 14
    → Holds r w e k
    → same_bytes n w e k ≡ true
    → (length n + k < 14 → name_byte w e (length n + k) ≡ 0)
    → n ≡ r
unfolding same_bytes
same_bytes_only [] [] w e k hn hr fn fr h s z = refl
same_bytes_only [] (d ∷ r) w e k hn hr fn fr h s z = absurd (
    positive hr.0 (
      sym (h 0 (omega arith))
      ∙ ap (name_byte w e) {x = k + 0} {y = 0 + k} (omega arith)
      ∙ z (omega arith)))
same_bytes_only (c ∷ n) [] w e k hn hr fn fr h s z =
    let t = and_true (c == name_byte w e k) (same_bytes n w e (k + 1)) s in
    absurd
      (positive hn.0 ((==_iff c (name_byte w e k)).0 t.0 ∙ first-Holds [] w e k h (omega arith)))
same_bytes_only (c ∷ n) (d ∷ r) w e k hn hr fn fr h s z =
    let t = and_true (c == name_byte w e k) (same_bytes n w e (k + 1)) s in
    let head = (==_iff c (name_byte w e k)).0 t.0 ∙ first-Holds (d ∷ r) w e k h (omega arith) in
    ap (λ x. x ∷ n) head
    ∙ ap (λ l. d ∷ l)
        (same_bytes_only n r w e (k + 1) hn.2 hr.2 (omega arith) (omega arith)
          (next-Holds d r w e k h) t.1
          (λ below.
            ap (name_byte w e) {x = length n + (k + 1)} {y = suc (length n) + k} (omega arith)
            ∙ z (omega arith)))

name-Holds :
    (name : List ℕ) (e ino : ℕ) (w : ℕ → ℕ)
    → IsName name
    → Holds name (entry_words name e ino w) e 0
name-Holds name e ino w h = λ j below.
    ap (name_byte (entry_words name e ino w) e) {x = 0 + j} {y = j} (omega arith)
    ∙ byte_of_name name e ino w j h (omega arith)

behind_name : (name : List ℕ) → name_at name (length name) ≡ 0
behind_name [] = refl
behind_name (c ∷ name) = behind_name name

if_true : (b x : Bool) → (if b then false else x) ≡ true → (b ≡ false) × (x ≡ true)
if_true true x e = true_is_not_false (sym e)
if_true false x e = (refl, e)

-- What `match` tests.
match_tests :
    (n : List ℕ) (w : ℕ → ℕ) (e : ℕ)
    → match n w e ≡ true
    → ((ltb (length n) 14 && not (name_byte w e (length n) == 0)) ≡ false)
      × (same_bytes n w e 0 ≡ true)
unfolding match
match_tests n w e h =
    let len = length n in
    let s = same_bytes n w e 0 in
    if_true (ltb len 14 && not (name_byte w e len == 0)) s
      (if_true ((inode_of w e == 0) || ltb 14 len)
        (if ltb len 14 && not (name_byte w e len == 0) then false else s) h).1

match_accepts :
    (n : List ℕ) (w : ℕ → ℕ) (e : ℕ)
    → ((inode_of w e == 0) || ltb 14 (length n)) ≡ false
    → (ltb (length n) 14 && not (name_byte w e (length n) == 0)) ≡ false
    → same_bytes n w e 0 ≡ true
    → match n w e ≡ true
unfolding match
match_accepts n w e f g h = rw (f, g) h

zero_end : (a len : ℕ) → (ltb len 14 && not (a == 0)) ≡ false → len < 14 → a ≡ 0
zero_end a len e h = ground arith

filled_up : (a len : ℕ) → (len < 14 → a ≡ 0) → (ltb len 14 && not (a == 0)) ≡ false
filled_up a len f = elim (Bool-cases (ltb len 14)) [
  | inl e ↦ ap (λ t. t && not (a == 0)) e ∙ ap (λ a. not (a == 0)) (f (ltb→lt len 14 e))
  | inr e ↦ ap (λ t. t && not (a == 0)) e
]

has_inode : (a len : ℕ) → a ≢ 0 → len ≤ 14 → ((a == 0) || ltb 14 len) ≡ false
has_inode a len ne h = ground arith

-- The entry that `add_entry` makes of a name, with its inode stored, is matched by that name and by
-- no other one of up to 14 bytes.
pub match-put_name :
    (name other : List ℕ) (e ino : ℕ) (w : ℕ → ℕ)
    → IsName name
    → IsName other
    → length name ≤ 14
    → length other ≤ 14
    → ino ≢ 0
    → (match other (entry_words name e ino w) e ≡ true) ↔ (other ≡ name)
match-put_name name other e ino w hn ho fn fo ne =
    let v = entry_words name e ino w in
    let there = λ (h : match other v e ≡ true). match_tests other v e h in
    (
      (λ h.
          same_bytes_only other name v e 0 ho hn (omega arith) (omega arith)
            (name-Holds name e ino w hn) (there h).1
            (λ below.
              ap (name_byte v e) {x = length other + 0} {y = length other} (omega arith)
              ∙ zero_end (name_byte v e (length other)) (length other) (there h).0 (omega arith))),
      λ q.
          subst (λ o. match o v e ≡ true) (sym q)
            (match_accepts name v e
              (ap (λ a. (a == 0) || ltb 14 (length name))
                  (update_self (put_name name e w) (8 * e) ino)
                ∙ has_inode ino (length name) ne fn)
              (filled_up (name_byte v e (length name)) (length name)
                (λ below. byte_of_name name e ino w (length name) hn below ∙ behind_name name))
              (same_bytes_self name v e 0 (omega arith) (name-Holds name e ino w hn))),
    )
