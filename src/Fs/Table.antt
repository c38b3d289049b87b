-- ===== src/Fs/Table.antt =====
-- The table of inodes: `get_empty_inode`, `iput` of fs/inode.c, `new_inode` of fs/bitmap.c. No other
-- task runs in between, so the tests that are repeated after a sleep give the same again; `i_lock` is
-- clear.
use liha_linux.Base.{
  ◌&&◌, ◌+◌, ◌-◌, ◌==◌, Option, false, if◌then◌else◌, leb, ltb, none, not, some, suc, true, zero, ℕ,
}
use liha_linux.Task.{Task}
use liha_linux.Fs.{
  F, Inode, pure, panic, ◌>>=◌, ◌>>◌, first_clear, free_inode, write_bit, zero_inode,
}
use liha_linux.Fs.Disk.{write_inode}
use liha_linux.Fs.Free.{change, get_inode, truncate}

abbrev pub nr_inode : ℕ
nr_inode = 32

-- `++last_inode`, round the table.
abbrev pub next_inode : ℕ → ℕ
next_inode i = if leb nr_inode (i + 1) then 0 else i + 1

-- `for (i = NR_INODE; i ; i--)`: the inode that is free so far, and `last_inode`.
pub scan_inodes : ℕ → (ℕ → Inode) → ℕ → Option ℕ → Option ℕ × ℕ
scan_inodes zero table last best = (best, last)
scan_inodes (suc n) table last best =
    let at = next_inode last in
    let v = table at in
    let later = scan_inodes n table at (some at) in
    let other = scan_inodes n table at best in
    if v.i_count == 0 then (if v.i_dirt then later else (some at, at)) else other

-- `none` of the scan is the panic; the loop that writes a dirty inode without device does not end, and
-- is a panic here.
pub get_empty_inode : F ℕ
unfolding scan_inodes
get_empty_inode = do
  found ← λ s. some (scan_inodes nr_inode s.inode s.last_inode none, s)
  λ s. some (tt, record s { last_inode = found.1 })
  elim (found.0) as (λ _. F ℕ) [
    | none ↦ panic
    | some i ↦ do
      v ← get_inode i
      if v.i_dirt && (v.i_dev == 0)
          then panic
          else (do write_inode i; change i λ _. record zero_inode { i_count = 1 }; pure i)
  ]

abbrev pub count_down : ℕ → F (Unit {0})
count_down i = change i λ v. record v { i_count = v.i_count - 1 }

-- `iput`; the page of a pipe and the sync of a block device are not part of this state.
unfoldable pub iput : ℕ → F (Unit {0})
iput i = do
  v ← get_inode i
  if v.i_count == 0
      then panic
      else if v.i_pipe
      then change i (λ v. record v {
        i_count = v.i_count - 1;
        i_dirt = if v.i_count == 1 then false else v.i_dirt;
        i_pipe = not (v.i_count == 1);
      })
      else if v.i_dev == 0
      then count_down i
      else if ltb 1 v.i_count
      then count_down i
      else if v.i_nlinks == 0
      then (do truncate i; free_inode i)
      else if v.i_dirt
      then (do write_inode i; count_down i)
      else count_down i

-- `new_inode`, for the effective user and group of `*current`; 0 is no inode, the others are the
-- index and 1.
pub new_inode : Task → (dev : ℕ) → F ℕ
new_inode me dev = do
  i ← get_empty_inode
  found ← λ s. some (first_clear 8 0 s.imap, s)
  last ← λ s. some (s.s_ninodes, s)
  time ← λ s. some (s.current_time, s)
  elim found as (λ _. F ℕ) [
    | none ↦ do iput i; pure 0
    | some n ↦ if ltb last n then (do iput i; pure 0) else (do
      λ s. some (tt, record s { imap = write_bit n true s.imap })
      change i λ v. record v {
        i_count = 1;
        i_nlinks = 1;
        i_dev = dev;
        i_uid = me.euid;
        i_gid = me.egid;
        i_dirt = true;
        i_num = n;
        i_mtime = time;
        i_atime = time;
        i_ctime = time;
      }
      pure (i + 1))
  ]
