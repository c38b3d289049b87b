-- ===== src/Fs/Path/Remove.antt =====
-- `empty_dir` and `sys_rmdir` of fs/namei.c.
use liha_linux.Base.{
  ◌%◌, ◌&&◌, ◌*◌, ◌+◌, ◌/◌, ◌==◌, Bool, List, ◌^◌, false, if◌then◌else◌, leb, ltb, none, not, some,
  suc, true, zero, ◌||◌, ℕ,
}
use liha_linux.Fs.{F, pure, ◌>>=◌, ◌>>◌}
use liha_linux.Fs.Free.{change, get_inode}
use liha_linux.Fs.Map.{bmap}
use liha_linux.Fs.Dir.{dir_entries_per_block, inode_of, name_byte}
use liha_linux.Fs.Path.{Current, iget, is_dir, look_up}
use liha_linux.Fs.Path.Calls.{
  eperm, enoent, enotdir, enotempty, fail, fail_both, in_parent, now, set_entry, sticky,
}

-- The loop of `empty_dir` at entry `nr` of the directory, in place `e` of the block `b`, for at most
-- `n` rounds.
pub empty_from : ℕ → (i len nr b e : ℕ) → F Bool
empty_from zero i len nr b e = pure true
empty_from (suc n) i len nr b e = λ s.
    let next = (do
      block ← bmap i (nr / dir_entries_per_block)
      able ← λ s. some (s.can_read block, s)
      if block == 0
          then empty_from n i len (nr + dir_entries_per_block) b e
          else if able
          then empty_from n i len nr block 0
          else pure false) in
    let later = empty_from n i len (nr + 1) b (e + 1) in
    (if leb len nr
        then pure true
        else if leb dir_entries_per_block e
        then next
        else if inode_of (s.word b) e == 0
        then later
        else pure false)
      s

-- The entries `.` and `..` at the start of a directory.
abbrev pub starts_well : (ℕ → ℕ) → ℕ → Bool
starts_well w num =
    ((inode_of w 0 == num) && not (inode_of w 1 == 0))
    && (((name_byte w 0 0 == 46) && (name_byte w 0 1 == 0))
        && ((name_byte w 1 0 == 46) && ((name_byte w 1 1 == 46) && (name_byte w 1 2 == 0))))

pub empty_dir : ℕ → F Bool
unfolding empty_from
empty_dir i = do
  v ← get_inode i
  able ← λ s. some (s.can_read (v.i_zone 0), s)
  w ← λ s. some (s.word (v.i_zone 0), s)
  let len = v.i_size / 16 in
      if (ltb len 2 || (v.i_zone 0 == 0)) || (not able || not (starts_well w v.i_num))
      then pure false
      else empty_from (2 * len + 1) i len 2 (v.i_zone 0) 2

module _ (c : Current) where
  pub sys_rmdir : List ℕ → F ℕ
  unfolding empty_dir
  sys_rmdir path =
      if not (c.me.euid == 0)
      then pure eperm
      else in_parent c path λ dir name. do
        entry ← look_up c dir name
        d ← get_inode dir
        time ← now
        elim entry as (λ _. F ℕ) [
          | none ↦ fail enoent dir
          | some p ↦ do
            i ← iget d.i_dev p.1
            v ← get_inode i
            if (sticky c d && (not (c.me.euid == 0) && not (v.i_uid == c.me.euid)))
                  || (not (v.i_dev == d.i_dev) || ltb 1 v.i_count)
                then fail_both eperm dir i
                else if i == dir
                then fail_both eperm i dir
                else if not (is_dir v)
                then fail_both enotdir i dir
                else (do
                  empty ← empty_dir i
                  if not empty then fail_both enotempty i dir else (do
                    set_entry p.0 0
                    change i λ w. record w { i_nlinks = 0; i_dirt = true }
                    change dir λ w. record w {
                      i_nlinks = (w.i_nlinks + 255) % 2 ^ 8;
                      i_ctime = time;
                      i_mtime = time;
                      i_dirt = true;
                    }
                    fail_both 0 dir i))
        ]
