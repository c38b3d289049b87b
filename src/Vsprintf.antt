-- ===== src/Vsprintf.antt =====
-- kernel/vsprintf.c: `skip_atoi` and `number`. Characters are their codes; the characters written at
-- `str` are a list.
pub mod RoundTrip
pub mod Width
mod Tests
use liha_linux.Base.{
  ◌%◌, ◌&&◌, ◌*◌, ◌+◌, ◌++◌, ◌-◌, ◌/◌, ◌==◌, Bool, List, Option, [], ◌^◌, if◌then◌else◌, leb,
  length, ltb, none, not, pos_part, replicate, some, suc, zero, ◌||◌, ℕ, ℤ, ◌∷◌,
}

-- `is_digit`.
abbrev pub is_digit : ℕ → Bool
is_digit c = leb 48 c && leb c 57

-- The loop of `skip_atoi`: the number, and what is left of the string.
pub skip_atoi : ℕ → List ℕ → ℕ × List ℕ
skip_atoi i [] = (i, [])
skip_atoi i (c ∷ s) =
    let rest = skip_atoi (i * 10 + c - 48) s in if is_digit c then rest else (i, c ∷ s)

-- The bits of `type`.
pub record Flags : Type 0 where
  pub zeropad : Bool
  pub sign : Bool
  pub plus : Bool
  pub space : Bool
  pub left : Bool
  pub special : Bool
  pub small : Bool

-- `digits[d]`.
abbrev pub digit : Bool → ℕ → ℕ
digit small d = if ltb d 10 then 48 + d else if small then 87 + d else 55 + d

-- `while (num!=0) tmp[i++]=digits[do_div(num,base)];`: the list is `tmp` from `i - 1` down, which is
-- the order in which it is written out. A round makes `num` smaller, so `num` rounds are enough.
pub put_digits : ℕ → Bool → (base num : ℕ) → List ℕ → List ℕ
put_digits zero small base num tmp = tmp
put_digits (suc fuel) small base num tmp =
    let more = put_digits fuel small base (num / base) (digit small (num % base) ∷ tmp) in
    if num == 0 then tmp else more

pub digits_of : Bool → (base num : ℕ) → List ℕ
unfolding put_digits
digits_of small base num = if num == 0 then 48 ∷ [] else put_digits num small base num []

-- `type&SIGN && num<0`, of the word `num`.
abbrev pub is_negative : Flags → ℕ → Bool
is_negative f num = f.sign && leb (2 ^ 31) num

abbrev pub magnitude : Flags → ℕ → ℕ
magnitude f num = if is_negative f num then 2 ^ 32 - num else num

-- `sign`, as the characters that it writes.
abbrev pub sign_of : Flags → ℕ → List ℕ
sign_of f num =
    if is_negative f num
    then 45 ∷ []
    else if f.plus
    then 43 ∷ []
    else if f.space
    then 32 ∷ []
    else []

-- `0`, or `0x`.
abbrev pub prefix_of : Flags → ℕ → List ℕ
prefix_of f base =
    if f.special
    then if base == 16 then 48 ∷ digit f.small 33 ∷ [] else if base == 8 then 48 ∷ [] else []
    else []

-- The characters of `number`, with the width `size` that is left for padding and the digits.
pub layout : Flags → (size zeros : ℕ) → (sign prefix digits : List ℕ) → List ℕ
layout f size zeros sign prefix digits =
    let zeropad = f.zeropad && not f.left in
    let blanks = if zeropad || f.left then 0 else size in
    let pads = if f.left then 0 else size - blanks in
    replicate blanks 32
    ++ sign
    ++ prefix
    ++ replicate pads (if zeropad then 48 else 32)
    ++ replicate zeros 48
    ++ digits
    ++ replicate (size - blanks - pads) 32

-- `none` is the result 0. A negative width or precision is 0 here: it is only compared with numbers
-- that are above it, or counted down to 0.
pub number : (num base : ℕ) → (size precision : ℤ) → Flags → Option (List ℕ)
unfolding digits_of layout
number num base size precision f =
    if ltb base 2 || ltb 36 base
    then none
    else (let digits = digits_of f.small base (magnitude f num) in
        let sign = sign_of f num in
        let prefix = prefix_of f base in
        let zeros = pos_part precision - length digits in
        let size = pos_part size - length sign - length prefix - (length digits + zeros) in
        some (layout f size zeros sign prefix digits))
