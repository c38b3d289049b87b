-- ===== src/Vsprintf/Tests.antt =====
-- Numbers (kernel/vsprintf.c) written and read.
use liha_linux.Base.{
  ◌++◌, List, [], arith, false, if◌then◌else◌, leb, length, negsuc, pos, refl, some, true, ℕ, ◌∷◌,
  ◌≡◌, ◌≤◌,
}
use liha_linux.Vsprintf.{Flags, number, skip_atoi, digits_of}
use liha_linux.Vsprintf.RoundTrip.{skip_atoi-number, zero_padded}
use liha_linux.Vsprintf.Width.{IsDigits, number-needed, needed}

-- 42 with `%05u`, before a space.
skip_atoi-number_example :
    (out : List ℕ) × (number 42 10 (pos 5) (negsuc 0) zero_padded ≡ some out)
    × (skip_atoi 0 (out ++ (32 ∷ [])) ≡ (42, 32 ∷ []))
skip_atoi-number_example = skip_atoi-number 42 (pos 5) (negsuc 0) (32 ∷ []) (omega arith) refl

abbrev hex : Flags
hex = record zero_padded { special = true }

number-needed_example :
    (out : List ℕ) × (number 255 16 (pos 8) (negsuc 0) hex ≡ some out)
    × IsDigits 16 255 (length (digits_of false 16 255))
    × (length (digits_of false 16 255) ≤ 32)
    × (length out
        ≡ (if leb 8 (needed 255 16 (negsuc 0) hex) then needed 255 16 (negsuc 0) hex else 8))
number-needed_example =
    number-needed 255 16 (pos 8) (negsuc 0) hex (omega arith) (omega arith) (omega arith)

-- 0X0000FF
written : number 255 16 (pos 8) (negsuc 0) hex ≡ some (48 ∷ 88 ∷ 48 ∷ 48 ∷ 48 ∷ 48 ∷ 70 ∷ 70 ∷ [])
unfolding number
written = refl
