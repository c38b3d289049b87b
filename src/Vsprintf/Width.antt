-- ===== src/Vsprintf/Width.antt =====
-- How many characters `number` writes (kernel/vsprintf.c).
use native.Mathlib.Nat.{
  one-le-pow, pow-zero, pow-suc, div-lt_iff_lt-mul, div-lt_self, pow-le-pow_left,
}
use liha_linux.Base.{
  ◌%◌, ◌&&◌, ◌+◌, ◌++◌, ◌-◌, ◌/◌, ◌<◌, ◌==◌, ==_iff, Bool, Bool-cases, List, [], ◌^◌, arith, false,
  if◌then◌else◌, inl, inr, leb, length, length-append, length-replicate, ltb, not, pos_part, refl,
  replicate, some, subst, suc, sym, zero, ◌||◌, ℕ, ℤ, ◌↔◌, ◌∙◌, ◌∷◌, ◌≡◌, ◌≢◌, ◌≤◌,
}
use liha_linux.Vsprintf.{
  digit, Flags, put_digits, digits_of, number, layout, magnitude, sign_of, prefix_of,
}

-- `k` is the number of digits of `num` in `base`: the least power that is above it. 0 has one.
pub record IsDigits (base num k : ℕ) : Type 0 where
  pub below : num < base ^ k
  pub least : (j : ℕ) → 1 ≤ j → num < base ^ j → k ≤ j

power : (base num j : ℕ) → 2 ≤ base → (num / base < base ^ j) ↔ (num < base ^ suc j)
power base num j h =
    subst (λ p. (num / base < base ^ j) ↔ (num < p)) (sym (pow-suc base j))
      (div-lt_iff_lt-mul {k = base} {x = num} {y = base ^ j} (omega arith))

nothing_to : (base : ℕ) → base ^ 0 ≡ 1
nothing_to base = pow-zero base

-- The loop writes as many digits as the least power above `num` has factors.
Written : (base num k : ℕ) → Type 0
Written base num k = (num < base ^ k) × ((j : ℕ) → num < base ^ j → k ≤ j)

one_more :
    (base num k : ℕ) → 2 ≤ base → num ≢ 0 → Written base (num / base) k → Written base num (suc k)
unfolding Written
one_more base num k h some_left (below, least) = ((power base num k h).0 below, above)
  where
    above : (j : ℕ) → num < base ^ j → suc k ≤ j
    above zero low = absurd (some_left (omega (arith, nothing_to base, low)))
    above (suc j) low = let rest = least j ((power base num j h).1 low) in omega (arith, rest)

length-put_digits :
    (fuel : ℕ) (small : Bool) (base num : ℕ) (tmp : List ℕ)
    → 2 ≤ base
    → num ≤ fuel
    → (k : ℕ) × (length (put_digits fuel small base num tmp) ≡ k + length tmp) × Written base num k
unfolding put_digits Written
length-put_digits zero small base num tmp h enough =
    (0, omega arith, (omega (arith, nothing_to base), λ j low. omega arith))
length-put_digits (suc fuel) small base num tmp h enough = elim (Bool-cases (num == 0)) [
  | inl done ↦ rw done (
    0,
    omega arith,
    (omega (arith, nothing_to base, (==_iff num 0).0 done), λ j low. omega arith),
  )
  | inr more ↦
      let smaller = div-lt_self {n = num} {k = base} (ground arith) (omega arith) in
      let (k, e, w) =
        length-put_digits fuel small base (num / base) (digit small (num % base) ∷ tmp) h
          (omega (arith, smaller)) in
      rw more (suc k, omega (arith, e), one_more base num k h (ground arith) w)
]

once : (base : ℕ) → 2 ≤ base → 0 < base ^ 1
once base h = one-le-pow 1 base (omega arith)

digits_of-IsDigits :
    (small : Bool) (base num : ℕ) → 2 ≤ base → IsDigits base num (length (digits_of small base num))
unfolding digits_of Written
digits_of-IsDigits small base num h = elim (Bool-cases (num == 0)) [
  | inl none_left ↦
      let zero_now : num ≡ 0 = (==_iff num 0).0 none_left in
      subst
        (λ b. IsDigits base num (length (if b then 48 ∷ [] else put_digits num small base num [])))
        (sym none_left)
        (record { below = omega (arith, zero_now, once base h); least = λ j some low. some })
  | inr some_left ↦
      let (k, e, w) = length-put_digits num small base num [] h (omega arith) in
      subst
        (λ b. IsDigits base num (length (if b then 48 ∷ [] else put_digits num small base num [])))
        (sym some_left)
        (record {
          below = subst (λ l. num < base ^ l) (sym (e ∙ omega arith)) w.0;
          least = λ j some low. let rest = w.1 j low in omega (arith, rest, e);
        })
]

-- The seven parts of `layout`.
length-parts :
    (blanks pads trail more x y z : ℕ) (sign prefix digits : List ℕ)
    → length (
        replicate blanks x
        ++ sign
        ++ prefix
        ++ replicate pads y
        ++ replicate more z
        ++ digits
        ++ replicate trail x)
      ≡ blanks + length sign + length prefix + pads + more + length digits + trail
length-parts blanks pads trail more x y z sign prefix digits =
    simp (length-append, length-replicate) refl

-- The blanks, the pads and the trailing blanks make up the width that is left.
shares :
    (f : Flags) (size : ℕ)
    → (if (f.zeropad && not f.left) || f.left then 0 else size)
        + (if f.left then 0 else size - (if (f.zeropad && not f.left) || f.left then 0 else size))
        + (size
            - (if (f.zeropad && not f.left) || f.left then 0 else size)
            - (if f.left
                then 0
                else size - (if (f.zeropad && not f.left) || f.left then 0 else size)))
      ≡ size
shares f size = ground arith

length-layout :
    (f : Flags) (size more : ℕ) (sign prefix digits : List ℕ)
    → length (layout f size more sign prefix digits)
      ≡ size + (length sign + length prefix + (length digits + more))
unfolding layout
length-layout f size more sign prefix digits =
    let zeropad = f.zeropad && not f.left in
    let blanks = if zeropad || f.left then 0 else size in
    let pads = if f.left then 0 else size - blanks in
    let sum = shares f size in
    length-parts blanks pads (size - blanks - pads) more 32 (if zeropad then 48 else 32) 48 sign
      prefix digits
    ∙ omega arith

-- The characters that `number` needs: the sign, the prefix, and the digits up to the precision.
abbrev pub needed : (num base : ℕ) → ℤ → Flags → ℕ
needed num base precision f =
    let digits = length (digits_of f.small base (magnitude f num)) in
    length (sign_of f num) + length (prefix_of f base) + (digits + (pos_part precision - digits))

magnitude_fits : (f : Flags) (num : ℕ) → num < 2 ^ 32 → magnitude f num < 2 ^ 32
magnitude_fits f num h = ground arith

-- No base has more digits than 2, and a word has 32 of those.
few_digits : (base num k : ℕ) → 2 ≤ base → num < 2 ^ 32 → IsDigits base num k → k ≤ 32
few_digits base num k h fits digits =
    let more = pow-le-pow_left {n = 2} {m = base} h 32 in
    digits.least 32 (omega arith) (omega (arith, more, fits))

-- For a word and a base from 2 to 36, `number` writes as many digits as the least power of the base
-- that is above the magnitude has factors, and one for 0; these are at most 32, which its array of 36
-- holds. It writes as many characters as the sign, the prefix and the digits up to the precision need,
-- or as the width asks for, whichever is more.
pub number-needed :
    (num base : ℕ) (size precision : ℤ) (f : Flags)
    → 2 ≤ base
    → base ≤ 36
    → num < 2 ^ 32
    → (out : List ℕ) × (number num base size precision f ≡ some out)
      × IsDigits base (magnitude f num) (length (digits_of f.small base (magnitude f num)))
      × (length (digits_of f.small base (magnitude f num)) ≤ 32)
      × (length out ≡ (
          if leb (pos_part size) (needed num base precision f)
          then needed num base precision f
          else pos_part size))
unfolding number
number-needed num base size precision f low high word =
    let count = digits_of-IsDigits f.small base (magnitude f num) low in
    let good : (ltb base 2 || ltb 36 base) ≡ false = ground arith in
    let digits = digits_of f.small base (magnitude f num) in
    let sign = sign_of f num in
    let prefix = prefix_of f base in
    let more = pos_part precision - length digits in
    let room = pos_part size - length sign - length prefix - (length digits + more) in
    (
      layout f room more sign prefix digits,
      rw good refl,
      count,
      few_digits base (magnitude f num) (length digits) low (magnitude_fits f num word) count,
      length-layout f room more sign prefix digits
          ∙ fill (pos_part size) (length sign) (length prefix) (length digits + more),
    )
  where
    fill :
        (a s p d : ℕ) → a - s - p - d + (s + p + d) ≡ (if leb a (s + p + d) then s + p + d else a)
    fill a s p d = ground arith
