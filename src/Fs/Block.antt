-- ===== src/Fs/Block.antt =====
-- fs/block_dev.c: `block_read` and `block_write`. A result of -EIO is `none`; the blocks that
-- `breada` reads ahead are not seen.
use Prim.Native.Nat.{min}
use liha_linux.Base.{
  ◌%◌, ◌&&◌, ◌+◌, ◌++◌, ◌-◌, ◌/◌, ◌==◌, Bool, List, Option, [], drop, false, if◌then◌else◌, length,
  none, not, some, suc, take, true, update, zero, ℕ,
}
use liha_linux.Fs.{F, pure, ◌>>=◌, ◌>>◌}
use liha_linux.Fs.File.{block_size, byte_at, copy_in, copy_out}

-- A whole block is written without being read.
abbrev pub store_bytes : (block offset : ℕ) → List ℕ → F (Unit {0})
store_bytes block offset bytes s =
    some (tt, record s { word = update s.word block (copy_in bytes offset (s.word block)) })

-- The loops, at most `n` rounds: the number of bytes so far, and whether a block failed.
pub write_blocks : ℕ → (block offset : ℕ) → List ℕ → (written : ℕ) → F (ℕ × Bool)
write_blocks zero block offset bytes written = pure (written, false)
write_blocks (suc n) block offset bytes written =
    let size = min (block_size - offset) (length bytes) in
    if length bytes == 0 then pure (written, false) else (do
      able ← λ s. some (s.can_read block, s)
      if not (size == block_size) && not able then pure (written, true) else (do
        store_bytes block offset (take size bytes)
        write_blocks n (block + 1) 0 (drop size bytes) (written + size)))

pub read_blocks : ℕ → (block offset left : ℕ) → List ℕ → F (List ℕ × Bool)
read_blocks zero block offset left out = pure (out, false)
read_blocks (suc n) block offset left out =
    let size = min (block_size - offset) left in
    if left == 0 then pure (out, false) else (do
      able ← λ s. some (s.can_read block, s)
      read ← λ s. some (copy_out (byte_at (s.word block)) size offset, s)
      if not able
          then pure (out, true)
          else read_blocks n (block + 1) 0 (left - size) (out ++ read))

-- The new position, and the number of bytes or the bytes.
pub block_write : (at : ℕ) → List ℕ → F (ℕ × Option ℕ)
unfolding write_blocks
block_write at bytes = do
  r ← write_blocks (length bytes) (at / block_size) (at % block_size) bytes 0
  pure (at + r.0, if r.1 && (r.0 == 0) then none else some r.0)

pub block_read : (at count : ℕ) → F (ℕ × Option (List ℕ))
unfolding read_blocks
block_read at count = do
  r ← read_blocks count (at / block_size) (at % block_size) count []
  pure (at + length r.0, if r.1 && (length r.0 == 0) then none else some r.0)
