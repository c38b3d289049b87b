-- ===== src/Fs/Path/Make.antt =====
-- `sys_mkdir` of fs/namei.c.
use Prim.Native.Nat.{bit_and, bit_or}
use liha_linux.Base.{
  ◌%◌, ◌*◌, ◌+◌, ◌-◌, ◌/◌, ◌==◌, List, ◌^◌, if◌then◌else◌, none, not, some, true, update, ℕ,
}
use liha_linux.Sched.{complement}
use liha_linux.Fs.{F, pure, ◌>>=◌, ◌>>◌, free_block, new_block}
use liha_linux.Fs.Free.{change, get_inode}
use liha_linux.Fs.Table.{iput, new_inode}
use liha_linux.Fs.Path.{Current, look_up}
use liha_linux.Fs.Path.Calls.{eperm, eexist, enospc, enter, fail, fail_both, in_parent, now}

abbrev pub error : ℕ
error = 99

-- The entries `.` and `..` in a new block: the inodes, and the names by their numbers of 16 bits. The
-- names are copied with their 0; what stood behind it stays.
abbrev pub dot_entries : (own parent : ℕ) → (ℕ → ℕ) → ℕ → ℕ
dot_entries own parent w =
    let first = update (update w 0 own) 1 46 in
    let second = update (update first 8 parent) 9 (46 + 2 ^ 8 * 46) in
    update second 10 (2 ^ 8 * (w 10 / 2 ^ 8))

-- `dir_block->b_data` and what follows it, up to the mode.
pub fill_dir : (i block own parent mode : ℕ) → F (Unit {0})
fill_dir i block own parent mode = do
  λ s. some (tt, record s { word = update s.word block (dot_entries own parent (s.word block)) })
  change i λ w. record w { i_nlinks = 2; i_mode = mode; i_dirt = true }

-- The new inode is given back with no links.
abbrev pub drop : (i : ℕ) → F (Unit {0})
drop i = do change i λ w. record w { i_nlinks = 0 }; iput i

module _ (c : Current) where
  -- The inode `i` becomes a directory in `dir`.
  pub make_dir : (dir i : ℕ) → List ℕ → (mode time : ℕ) → F ℕ
  unfolding fill_dir
  make_dir dir i name mode time = do
    d ← get_inode dir
    v ← get_inode i
    change i λ w. record w { i_size = 32; i_dirt = true; i_mtime = time; i_atime = time }
    block ← new_block
    change i λ w. record w { i_zone = update w.i_zone 0 block }
    able ← λ s. some (s.can_read block, s)
    if block == 0
        then (do iput dir; drop i; pure enospc)
        else if not able
        then (do iput dir; free_block block; drop i; pure error)
        else (do
          fill_dir i block v.i_num d.i_num
              (bit_or 0x4000 (bit_and (bit_and mode 0x1FF) (complement c.me.umask)))
          enter dir i name (do iput dir; free_block block; drop i; pure enospc)
              (do
                change dir λ w. record w { i_nlinks = (w.i_nlinks + 1) % 2 ^ 8; i_dirt = true }
                fail_both 0 dir i))

  pub sys_mkdir : List ℕ → (mode : ℕ) → F ℕ
  unfolding make_dir
  sys_mkdir path mode =
      if not (c.me.euid == 0)
      then pure eperm
      else in_parent c path λ dir name. do
        entry ← look_up c dir name
        d ← get_inode dir
        time ← now
        elim entry as (λ _. F ℕ) [
          | some _ ↦ fail eexist dir
          | none ↦ do
            made ← new_inode c.me d.i_dev
            if made == 0 then fail enospc dir else make_dir dir (made - 1) name mode time
        ]
