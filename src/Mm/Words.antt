-- ===== src/Mm/Words.antt =====
-- The bit operations of mm/memory.c on page table entries, as arithmetic on 32-bit words.
use liha_linux.Base.{◌%◌, ◌*◌, ◌+◌, ◌/◌, ◌==◌, Bool, ◌^◌, ℕ}

-- `1 & e`.
abbrev pub present : ℕ → Bool
present e = e % 2 == 1

-- `0xfffff000 & e`.
abbrev pub frame : ℕ → ℕ
frame e = e / 2 ^ 12 * 2 ^ 12

-- `e | 7`, `e | 2` and `e & ~2`.
abbrev pub or_seven : ℕ → ℕ
or_seven e = e / 8 * 8 + 7

abbrev pub or_two : ℕ → ℕ
or_two e = e / 4 * 4 + 2 + e % 2

abbrev pub read_only : ℕ → ℕ
read_only e = e / 4 * 4 + e % 2

-- `(address>>20) & 0xffc`: the entry of the page directory, which stands at address 0.
abbrev pub dir_of : ℕ → ℕ
dir_of address = address / 2 ^ 22 % 2 ^ 10 * 4

-- `(address>>10) & 0xffc`: the place of the entry in its page table.
abbrev pub entry_of : ℕ → ℕ
entry_of address = address / 2 ^ 12 % 2 ^ 10 * 4
