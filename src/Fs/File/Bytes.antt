-- ===== src/Fs/File/Bytes.antt =====
-- What `file_read` (fs/file_dev.c) reads, against the bytes of the file one by one.
use liha_linux.Base.{
  ◌%◌, ◌+◌, ◌++◌, ◌/◌, ◌==◌, List, Option, false, if◌then◌else◌, none, some, ℕ, ◌≡◌, ◌≤◌, ◌⊎◌,
}
use liha_linux.Fs.{Fs, ◌>>=◌}
use liha_linux.Fs.Map.{bmap}
use liha_linux.Fs.File.{block_size, byte_at, copy_out}

abbrev byte_in : Fs → Option (ℕ × Fs) → ℕ → ℕ
byte_in s none c = 0
byte_in s (some r) c = if r.0 == 0 then 0 else byte_at (s.word r.0) c

-- Byte `p` of the file; a block that is not there is all 0.
abbrev pub byte_of : Fs → (i p : ℕ) → ℕ
byte_of s i p = byte_in s (bmap i (p / block_size) s) (p % block_size)

-- All is read, or the block of the next byte cannot be read.
abbrev pub Ends : Fs → (i p k left : ℕ) → Type 0
Ends s i p k left =
    (k ≡ left) ⊎ ((nr : ℕ) × (bmap i (p / block_size) s ≡ some (nr, s)) × (s.can_read nr ≡ false))

-- How the loop ends: in a panic, or after the first bytes of what was asked for.
pub data Read (s : Fs) (i at left : ℕ) (out : List ℕ) : Option ((ℕ × List ℕ) × Fs) → Type 0 where
  panicked : Read s i at left out none
  bytes :
      {k p : ℕ} {all : List ℕ}
      → k ≤ left
      → p ≡ at + k
      → all ≡ out ++ copy_out (byte_of s i) k at
      → Ends s i p k left
      → Read s i at left out (some ((p, all), s))
