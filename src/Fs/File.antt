-- ===== src/Fs/File.antt =====
-- fs/file_dev.c: `file_read` and `file_write`, byte by byte over the blocks that `_bmap` gives. The
-- bytes for the user are a list; a result of -ERROR or -1 is `none`.
pub mod Bytes
use Prim.Native.Nat.{bit_and, min}
use liha_linux.Base.{
  ◌%◌, ◌&&◌, ◌*◌, ◌+◌, ◌++◌, ◌-◌, ◌/◌, ◌==◌, Bool, List, Option, [], ◌^◌, drop, if◌then◌else◌,
  length, ltb, none, not, replicate, some, suc, take, true, update, zero, ◌||◌, ℕ, ◌∷◌,
}
use liha_linux.Fs.{F, Fs, Inode, pure, ◌>>=◌, ◌>>◌}
use liha_linux.Fs.Free.{change}
use liha_linux.Fs.Map.{bmap, create_block}

abbrev pub block_size : ℕ
block_size = 1024

-- Byte `n` of a block, and a write to it.
abbrev pub byte_at : (ℕ → ℕ) → ℕ → ℕ
byte_at w n = let v = w (n / 2) in if n % 2 == 0 then v % 2 ^ 8 else v / 2 ^ 8

abbrev pub put_byte : ℕ → ℕ → (ℕ → ℕ) → ℕ → ℕ
put_byte n c w =
    let v = w (n / 2) in
    update w (n / 2) (if n % 2 == 0 then c + 2 ^ 8 * (v / 2 ^ 8) else v % 2 ^ 8 + 2 ^ 8 * c)

-- `put_fs_byte(*(p++),buf++)` and `put_fs_byte(0,buf++)`, `n` times.
pub copy_out : (ℕ → ℕ) → (n p : ℕ) → List ℕ
copy_out byte zero p = []
copy_out byte (suc n) p = byte p ∷ copy_out byte n (p + 1)

-- `*(p++) = get_fs_byte(buf++)`.
pub copy_in : List ℕ → ℕ → (ℕ → ℕ) → ℕ → ℕ
copy_in [] p w = w
copy_in (c ∷ cs) p w = copy_in cs (p + 1) (put_byte p c w)

-- The bytes of the block `nr` from `c` on; no block is all 0.
pub chunk : Fs → (nr n c : ℕ) → List ℕ
unfolding copy_out
chunk s nr n c = if nr == 0 then replicate n 0 else copy_out (byte_at (s.word nr)) n c

-- The loop of `file_read`, at most `n` rounds: `f_pos`, the bytes left to read, the bytes read.
pub read_from : ℕ → (i at left : ℕ) → List ℕ → F (ℕ × List ℕ)
unfolding chunk
read_from zero i at left out = pure (at, out)
read_from (suc n) i at left out =
    let c = at % block_size in
    let size = min (block_size - c) left in
    if left == 0 then pure (at, out) else (do
      nr ← bmap i (at / block_size)
      able ← λ s. some (s.can_read nr, s)
      if not (nr == 0) && not able then pure (at, out) else (do
        bytes ← λ s. some (chunk s nr size c, s)
        read_from n i (at + size) (left - size) (out ++ bytes)))

-- The position and the bytes; a round takes a byte at least.
pub file_read : (i at count : ℕ) → F (ℕ × Option (List ℕ))
unfolding read_from
file_read i at count = if count == 0 then pure (at, some []) else (do
  r ← read_from count i at count []
  time ← λ s. some (s.current_time, s)
  change i λ v. record v { i_atime = time }
  pure (r.0, if length r.1 == 0 then none else some r.1))

-- The end of a round of `file_write`: the bytes, and the size of the file.
pub put_bytes : (i block c : ℕ) → List ℕ → (at : ℕ) → F (Unit {0})
unfolding copy_in
put_bytes i block c bytes at s =
    let v = s.inode i in
    let grown = record v { i_size = at; i_dirt = true } in
    some (
      tt,
      record s {
        word = update s.word block (copy_in bytes c (s.word block));
        inode = update s.inode i (if ltb v.i_size at then grown else v);
      },
    )

-- The loop of `file_write`, at most `n` rounds: the position, the bytes left, how many are written.
pub write_from : ℕ → (i at : ℕ) → List ℕ → (done : ℕ) → F (ℕ × ℕ)
unfolding put_bytes
write_from zero i at bytes done = pure (at, done)
write_from (suc n) i at bytes done =
    let c = at % block_size in
    let size = min (block_size - c) (length bytes) in
    if length bytes == 0 then pure (at, done) else (do
      block ← create_block i (at / block_size)
      able ← λ s. some (s.can_read block, s)
      if (block == 0) || not able then pure (at, done) else (do
        put_bytes i block c (take size bytes) (at + size)
        write_from n i (at + size) (drop size bytes) (done + size)))

-- O_APPEND is `append`; the result is the position for `f_pos` and the number of bytes.
pub file_write : Bool → (i f_pos : ℕ) → List ℕ → F (ℕ × Option ℕ)
unfolding write_from
file_write append i f_pos bytes = do
  size ← λ s. some ((s.inode i).i_size, s)
  time ← λ s. some (s.current_time, s)
  r ← write_from (length bytes) i (if append then size else f_pos) bytes 0
  change i λ v. record v { i_mtime = time; i_ctime = if append then v.i_ctime else time }
  pure (if append then f_pos else r.0, if r.1 == 0 then none else some r.1)
