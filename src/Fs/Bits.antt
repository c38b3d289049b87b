-- ===== src/Fs/Bits.antt =====
-- The search of fs/bitmap.c for a clear bit.
use liha_linux.Base.{
  ◌&&◌, ◌*◌, ◌+◌, ◌/◌, ◌<◌, Bool, Bool-cases, Option, and_true, ap, arith, false, if◌then◌else◌,
  inl, inr, ltb, ltb→lt, none, refl, some, subst, suc, true, zero, ℕ, ◌∙◌, ◌≡◌,
}
use liha_linux.Fs.{BitMap, find_first_zero, first_clear}

find_first_zero_step :
    (n j : ℕ) (bit : ℕ → Bool)
    → (t : Bool) → bit j ≡ t
    → find_first_zero (suc n) j bit ≡ (if t then find_first_zero n (j + 1) bit else j)
unfolding find_first_zero
find_first_zero_step n j bit t e = rw (e) refl

none_left : (j : ℕ) → j < j + 0 → ⊥
none_left j h = omega arith

next_bound : {k : ℕ} (j n : ℕ) → k < j + suc n → k < j + 1 + n
next_bound j n h = omega arith

map_of : (i j : ℕ) → j < 8192 → (i * 8192 + j) / 8192 ≡ i
map_of i j h = omega arith

-- The search stops at a clear bit, or behind the last one.
find_first_zero-clear :
    (n j : ℕ) (bit : ℕ → Bool)
    → find_first_zero n j bit < j + n
    → bit (find_first_zero n j bit) ≡ false
unfolding find_first_zero
find_first_zero-clear zero j bit h = absurd (none_left j h)
find_first_zero-clear (suc n) j bit h = elim (Bool-cases (bit j)) [
  | inl e ↦
      let f = find_first_zero_step n j bit true e in
      ap bit f
      ∙ find_first_zero-clear n (j + 1) bit (next_bound j n (subst (λ k. k < j + suc n) f h))
  | inr e ↦ ap bit (find_first_zero_step n j bit false e) ∙ e
]

-- A clear bit of a map that is there.
pub data Clear (m : BitMap) : Option ℕ → Type 0 where
  no_bit : Clear m none
  clear_bit : {n : ℕ} → m.has (n / 8192) ≡ true → m.bit n ≡ false → Clear m (some n)

if-Clear :
    {m : BitMap} (b : Bool) {o p : Option ℕ}
    → (b ≡ true → Clear m o)
    → Clear m p
    → Clear m (if b then o else p)
if-Clear true f g = f refl
if-Clear false f g = g

pub first_clear-Clear : (n i : ℕ) (m : BitMap) → Clear m (first_clear n i m)
unfolding first_clear
first_clear-Clear zero i m = no_bit
first_clear-Clear (suc n) i m =
    let j = find_first_zero 8192 0 (λ j. m.bit (i * 8192 + j)) in
    if-Clear (m.has i && ltb j 8192)
      (λ e.
        let there = and_true (m.has i) (ltb j 8192) e in
        clear_bit (ap m.has (map_of i j (ltb→lt j 8192 there.1)) ∙ there.0)
          (find_first_zero-clear 8192 0 (λ j. m.bit (i * 8192 + j)) (ltb→lt j 8192 there.1)))
      (first_clear-Clear n (i + 1) m)
