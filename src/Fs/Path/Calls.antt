-- ===== src/Fs/Path/Calls.antt =====
-- The calls on names (fs/namei.c): `open_namei`, `sys_mknod`, `sys_unlink`, `sys_link`, `sys_rmdir`. A
-- result is 0, or the error number that the source returns with the sign changed.
use Prim.Native.Nat.{bit_and}
use liha_linux.Base.{
  ◌%◌, ◌&&◌, ◌*◌, ◌+◌, ◌-◌, ◌==◌, Bool, List, ◌^◌, if◌then◌else◌, length, none, not, some, true,
  update, ◌||◌, ℕ,
}
use liha_linux.Fs.{F, Inode, pure, ◌>>=◌, ◌>>◌}
use liha_linux.Fs.Free.{change, get_inode}
use liha_linux.Fs.Table.{iput, new_inode}
use liha_linux.Fs.Dir.{add_entry, permission}
use liha_linux.Fs.Path.{Current, dir_namei, iget, is_dir, look_up, may_write, namei}

abbrev pub eperm : ℕ
eperm = 1

abbrev pub enoent : ℕ
enoent = 2

abbrev pub eacces : ℕ
eacces = 13

abbrev pub eexist : ℕ
eexist = 17

abbrev pub exdev : ℕ
exdev = 18

abbrev pub enotdir : ℕ
enotdir = 20

abbrev pub eisdir : ℕ
eisdir = 21

abbrev pub enospc : ℕ
enospc = 28

abbrev pub enotempty : ℕ
enotempty = 39

-- `iput` of one inode or of two, and the error.
abbrev pub fail : (error i : ℕ) → F ℕ
fail error i = do iput i; pure error

abbrev pub fail_both : (error i j : ℕ) → F ℕ
fail_both error i j = do iput i; iput j; pure error

abbrev pub now : F ℕ
now s = some (s.current_time, s)

-- `de->inode = n`.
abbrev pub set_entry : ℕ × ℕ → ℕ → F (Unit {0})
set_entry p n s = some (tt, record s { word = update s.word p.0 (update (s.word p.0) (8 * p.1) n) })

-- The inode `i` gets the name in the directory; `no_room` is what follows a failure.
abbrev pub enter : (dir i : ℕ) → List ℕ → (no_room named : F ℕ) → F ℕ
enter dir i name no_room named = do
  entry ← add_entry dir name
  v ← get_inode i
  elim entry as (λ _. F ℕ) [ none ↦ no_room | some p ↦ do set_entry p v.i_num; named ]

module _ (c : Current) where
  -- The tests that `sys_mknod`, `sys_rmdir` and `sys_unlink` start with.
  pub in_parent : List ℕ → (ℕ → List ℕ → F ℕ) → F ℕ
  in_parent path k = do
    found ← dir_namei c path
    elim found as (λ _. F ℕ) [
      | none ↦ pure enoent
      | some p ↦ do
        dir ← get_inode p.0
        if length p.1 == 0
            then fail enoent p.0
            else if permission c.me dir may_write
            then k p.0 p.1
            else fail eperm p.0
    ]

  pub sys_mknod : List ℕ → (mode dev : ℕ) → F ℕ
  unfolding in_parent
  sys_mknod path mode dev =
      if not (c.me.euid == 0)
      then pure eperm
      else in_parent path λ dir name. do
        entry ← look_up c dir name
        v ← get_inode dir
        time ← now
        elim entry as (λ _. F ℕ) [
          | some _ ↦ fail eexist dir
          | none ↦ do
            made ← new_inode c.me v.i_dev
            if made == 0 then fail enospc dir else (do
              change (made - 1) λ w. record w {
                i_mode = mode;
                i_zone =
                    if (bit_and mode 0xF000 == 0x6000) || (bit_and mode 0xF000 == 0x2000)
                    then update w.i_zone 0 dev
                    else w.i_zone;
                i_mtime = time;
                i_atime = time;
                i_dirt = true;
              }
              enter dir (made - 1) name
                  (do
                    iput dir
                    change (made - 1) λ w. record w { i_nlinks = 0 }
                    fail enospc (made - 1))
                  (fail_both 0 dir (made - 1)))
        ]

  -- S_ISVTX keeps a file of others in its directory.
  abbrev pub sticky : Inode → Bool
  sticky dir = not (bit_and dir.i_mode 0x200 == 0)

  pub sys_unlink : List ℕ → F ℕ
  unfolding in_parent
  sys_unlink path = in_parent path λ dir name. do
    entry ← look_up c dir name
    d ← get_inode dir
    time ← now
    elim entry as (λ _. F ℕ) [
      | none ↦ fail enoent dir
      | some p ↦ do
        i ← iget d.i_dev p.1
        v ← get_inode i
        if sticky d
              && (not (c.me.euid == 0)
                  && (not (c.me.euid == v.i_uid) && not (c.me.euid == d.i_uid)))
            then fail_both eperm dir i
            else if is_dir v
            then fail_both eperm i dir
            else (do
              set_entry p.0 0
              change i λ w. record w {
                i_nlinks = (if w.i_nlinks == 0 then 1 else w.i_nlinks) - 1;
                i_dirt = true;
                i_ctime = time;
              }
              fail_both 0 i dir)
    ]

  pub sys_link : (old new : List ℕ) → F ℕ
  sys_link old new = do
    source ← namei c old
    time ← now
    elim source as (λ _. F ℕ) [
      | none ↦ pure enoent
      | some i ↦ do
        v ← get_inode i
        if is_dir v then fail eperm i else (do
          found ← dir_namei c new
          elim found as (λ _. F ℕ) [
            | none ↦ fail eacces i
            | some p ↦ do
              d ← get_inode p.0
              if length p.1 == 0
                  then fail_both eperm i p.0
                  else if not (d.i_dev == v.i_dev)
                  then fail_both exdev p.0 i
                  else if not (permission c.me d may_write)
                  then fail_both eacces p.0 i
                  else (do
                    entry ← look_up c p.0 p.1
                    elim entry as (λ _. F ℕ) [
                      | some _ ↦ fail_both eexist p.0 i
                      | none ↦ enter p.0 i p.1 (fail_both enospc p.0 i) (do
                        iput p.0
                        change i λ w. record w {
                          i_nlinks = (w.i_nlinks + 1) % 2 ^ 8;
                          i_ctime = time;
                          i_dirt = true;
                        }
                        fail 0 i)
                    ])
          ])
    ]
