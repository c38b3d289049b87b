-- ===== src/Fs/Free.antt =====
-- fs/truncate.c: the blocks of a file are given back.
use Prim.Native.Nat.{bit_and}
use liha_linux.Base.{◌+◌, ◌==◌, Bool, if◌then◌else◌, some, suc, true, update, zero, ◌||◌, ℕ}
use liha_linux.Fs.{F, Inode, pure, ◌>>=◌, ◌>>◌, free_block, set_inode}

-- The loop over the 512 numbers of a block, from `k` on, `n` left.
pub free_each : (ℕ → F (Unit {0})) → (n k block : ℕ) → F (Unit {0})
free_each free zero k block = pure tt
free_each free (suc n) k block = do
  z ← λ s. some (s.word block k, s)
  if z == 0 then pure tt else free z
  free_each free n (k + 1) block

-- `free_ind` and `free_dind`, for what they call on each number.
pub free_level : (ℕ → F (Unit {0})) → ℕ → F (Unit {0})
unfolding free_each
free_level free block = do
  able ← λ s. some (s.can_read block, s)
  if block == 0
      then pure tt
      else (do if able then free_each free 512 0 block else pure tt; free_block block)

pub free_ind : ℕ → F (Unit {0})
unfolding free_level free_block
free_ind = free_level free_block

pub free_dind : ℕ → F (Unit {0})
unfolding free_level free_ind
free_dind = free_level free_ind

abbrev pub change : ℕ → (Inode → Inode) → F (Unit {0})
change i f s = some (tt, set_inode i (f (s.inode i)) s)

abbrev pub get_inode : ℕ → F Inode
get_inode i s = some (s.inode i, s)

-- The loop over the 7 direct zones, from `k` on, `n` left.
pub free_direct : (n k i : ℕ) → F (Unit {0})
unfolding free_block
free_direct zero k i = pure tt
free_direct (suc n) k i = do
  v ← get_inode i
  if v.i_zone k == 0
      then pure tt
      else (do free_block (v.i_zone k); change i λ v. record v { i_zone = update v.i_zone k 0 })
  free_direct n (k + 1) i

-- S_ISREG and S_ISDIR.
abbrev pub is_kind : ℕ → Inode → Bool
is_kind kind v = bit_and v.i_mode 0xF000 == kind

pub truncate : ℕ → F (Unit {0})
unfolding free_direct free_ind free_dind
truncate i = do
  v ← get_inode i
  time ← λ s. some (s.current_time, s)
  if is_kind 0x8000 v || is_kind 0x4000 v
      then (do
        free_direct 7 0 i
        free_ind (v.i_zone 7)
        free_dind (v.i_zone 8)
        change i λ v. record v {
          i_zone = update (update v.i_zone 7 0) 8 0;
          i_size = 0;
          i_dirt = true;
          i_mtime = time;
          i_ctime = time;
        })
      else pure tt
