-- ===== src/Vsprintf/RoundTrip.antt =====
-- `skip_atoi` reads the digits that `number` writes (kernel/vsprintf.c).
use mathlib.Core.List.{append_assoc}
use liha_linux.Base.{
  ◌%◌, ◌*◌, ◌+◌, ◌++◌, ◌-◌, ◌/◌, ◌<◌, ◌==◌, Bool, Bool-cases, List, [], ◌^◌, ap, arith, false,
  if◌then◌else◌, inl, inr, length, ltb, pos_part, refl, replicate, some, suc, true, zero, ℕ, ℤ, ◌∙◌,
  ◌∷◌, ◌≡◌, ◌≤◌,
}
use liha_linux.Vsprintf.{Flags, skip_atoi, is_digit, digit, put_digits, digits_of, number, layout}

put_digits-append :
    (fuel : ℕ) (small : Bool) (base num : ℕ) (tmp rest : List ℕ)
    → put_digits fuel small base num tmp ++ rest ≡ put_digits fuel small base num (tmp ++ rest)
unfolding put_digits
put_digits-append zero small base num tmp rest = refl
put_digits-append (suc fuel) small base num tmp rest = elim (Bool-cases (num == 0)) [
  | inl done ↦ rw done refl
  | inr more ↦
      rw more (put_digits-append fuel small base (num / base) (digit small (num % base) ∷ tmp) rest)
]

skip_digit :
    (small : Bool) (i d : ℕ) (s : List ℕ)
    → d < 10
    → skip_atoi i (digit small d ∷ s) ≡ skip_atoi (i * 10 + d) s
unfolding skip_atoi
skip_digit small i d s h =
    let low : ltb d 10 ≡ true = ground arith in
    let a : is_digit (48 + d) ≡ true = ground arith in
    let b : i * 10 + (48 + d) - 48 ≡ i * 10 + d = omega arith in rw (low, a, b) refl

-- Reading what the digits of `num` begin is reading on from `num`.
skip_atoi-put_digits :
    (fuel num : ℕ) (small : Bool) (tmp : List ℕ)
    → num ≤ fuel
    → skip_atoi 0 (put_digits fuel small 10 num tmp) ≡ skip_atoi num tmp
unfolding put_digits
skip_atoi-put_digits zero num small tmp h =
    let none_left : 0 ≡ num = ground arith in ap (λ n. skip_atoi n tmp) none_left
skip_atoi-put_digits (suc fuel) num small tmp h = elim (Bool-cases (num == 0)) [
  | inl done ↦
      let none_left : 0 ≡ num = ground arith in rw done (ap (λ n. skip_atoi n tmp) none_left)
  | inr more ↦
      let smaller : num / 10 ≤ fuel = ground arith in
      let last_digit : num % 10 < 10 = omega arith in
      let whole : num / 10 * 10 + num % 10 ≡ num = omega arith in
      rw more (
        skip_atoi-put_digits fuel (num / 10) small (digit small (num % 10) ∷ tmp) smaller
        ∙ skip_digit small (num / 10) (num % 10) tmp last_digit
        ∙ ap (λ n. skip_atoi n tmp) whole)
]

skip_atoi-digits_of :
    (small : Bool) (num : ℕ) (rest : List ℕ)
    → skip_atoi 0 (digits_of small 10 num ++ rest) ≡ skip_atoi num rest
unfolding digits_of
skip_atoi-digits_of small num rest = elim (Bool-cases (num == 0)) [
  | inl none_left ↦
      let e : 0 ≡ num = ground arith in
      ap (λ b. skip_atoi 0 ((if b then 48 ∷ [] else printed) ++ rest)) none_left
      ∙ skip_digit small 0 0 rest (omega arith)
      ∙ ap (λ n. skip_atoi n rest) e
  | inr some_left ↦
      ap (λ b. skip_atoi 0 ((if b then 48 ∷ [] else printed) ++ rest)) some_left
      ∙ ap (skip_atoi 0) (put_digits-append num small 10 num [] rest)
      ∙ skip_atoi-put_digits num num small rest (omega arith)
]
  where
    printed : List ℕ
    printed = put_digits num small 10 num []

skip_zeros : (k : ℕ) (s : List ℕ) → skip_atoi 0 (replicate k 48 ++ s) ≡ skip_atoi 0 s
unfolding skip_atoi
skip_zeros zero s = refl
skip_zeros (suc k) s = skip_zeros k s

-- What follows a number must not go on with a digit.
abbrev pub NoDigit : List ℕ → Type 0
NoDigit [] = Unit
NoDigit (c ∷ s) = is_digit c ≡ false

skip_atoi-NoDigit : (n : ℕ) (s : List ℕ) → NoDigit s → skip_atoi n s ≡ (n, s)
unfolding skip_atoi
skip_atoi-NoDigit n [] h = refl
skip_atoi-NoDigit n (c ∷ s) h = rw h refl

abbrev pub zero_padded : Flags
zero_padded = record {
  zeropad = true;
  sign = false;
  plus = false;
  space = false;
  left = false;
  special = false;
  small = false;
}

-- The zeros, the digits, no blanks, and the rest.
regroup :
    (pads zeros blanks : ℕ) (digits rest : List ℕ)
    → blanks ≡ 0
    → replicate pads 48 ++ replicate zeros 48 ++ digits ++ replicate blanks 32 ++ rest
      ≡ replicate pads 48 ++ (replicate zeros 48 ++ (digits ++ rest))
regroup pads zeros blanks digits rest e =
    append_assoc (replicate pads 48 ++ replicate zeros 48 ++ digits) (replicate blanks 32) rest
    ∙ ap (λ n. replicate pads 48 ++ replicate zeros 48 ++ digits ++ (replicate n 32 ++ rest)) e
    ∙ append_assoc (replicate pads 48 ++ replicate zeros 48) digits rest
    ∙ append_assoc (replicate pads 48) (replicate zeros 48) (digits ++ rest)

-- `number` of a 32-bit word in base 10, padded with zeros to any width and precision, writes what
-- `skip_atoi` reads back: the word, and the string that comes behind it.
pub skip_atoi-number :
    (num : ℕ) (size precision : ℤ) (rest : List ℕ)
    → num < 2 ^ 32
    → NoDigit rest
    → (out : List ℕ) × (number num 10 size precision zero_padded ≡ some out)
      × (skip_atoi 0 (out ++ rest) ≡ (num, rest))
unfolding number layout
skip_atoi-number num size precision rest h after =
    let digits = digits_of false 10 num in
    let zeros = pos_part precision - length digits in
    let width = pos_part size - 0 - 0 - (length digits + zeros) in
    (
      layout zero_padded width zeros [] [] digits,
      refl,
      ap (skip_atoi 0)
            (regroup (width - 0) zeros (width - 0 - (width - 0)) digits rest (omega arith))
          ∙ skip_zeros (width - 0) (replicate zeros 48 ++ (digits ++ rest))
          ∙ skip_zeros zeros (digits ++ rest)
          ∙ skip_atoi-digits_of false num rest
          ∙ skip_atoi-NoDigit num rest after,
    )
