-- ===== src/Fs/Path/Open.antt =====
-- `open_namei` of fs/namei.c. Flags are those of include/fcntl.h.
use Prim.Native.Nat.{bit_and, bit_or}
use liha_linux.Base.{
  ◌&&◌, ◌-◌, ◌==◌, Bool, List, ◌^◌, if◌then◌else◌, length, none, not, some, true, ◌||◌, ℕ,
}
use liha_linux.Sched.{complement}
use liha_linux.Fs.{F, pure, ◌>>=◌, ◌>>◌}
use liha_linux.Fs.Free.{change, get_inode, truncate}
use liha_linux.Fs.Table.{iput, new_inode}
use liha_linux.Fs.Dir.{add_entry, permission}
use liha_linux.Fs.Path.{Current, dir_namei, iget, is_dir, look_up, may_write}
use liha_linux.Fs.Path.Calls.{eperm, enoent, eacces, eexist, eisdir, enospc, now, set_entry}

-- The error, or the inode for `res_inode`.
pub data Opened : Type 0 where
  refused : (error : ℕ) → Opened
  opened : (i : ℕ) → Opened

abbrev pub refuse : (error i : ℕ) → F Opened
refuse error i = do iput i; pure (refused error)

abbrev pub has_flag : ℕ → ℕ → Bool
has_flag flag bits = not (bit_and flag bits == 0)

abbrev pub o_accmode : ℕ
o_accmode = 3

abbrev pub o_creat : ℕ
o_creat = 0x40

abbrev pub o_excl : ℕ
o_excl = 0x80

abbrev pub o_trunc : ℕ
o_trunc = 0x200

-- ACC_MODE; the last one is `\377`, which is -1 as an `int`.
abbrev pub acc_mode : ℕ → ℕ
acc_mode flag =
    let mode = bit_and flag o_accmode in
    if mode == 0 then 4 else if mode == 1 then 2 else if mode == 2 then 6 else 2 ^ 32 - 1

-- A truncation needs the right to write.
abbrev pub with_write : ℕ → ℕ
with_write flag =
    if has_flag flag o_trunc && not (has_flag flag o_accmode) then bit_or flag 1 else flag

module _ (c : Current) where
  -- A file that is not there.
  pub create_file : (flag mode dir : ℕ) → List ℕ → F Opened
  create_file flag mode dir name = do
    d ← get_inode dir
    if not (has_flag flag o_creat)
        then refuse enoent dir
        else if not (permission c.me d may_write)
        then refuse eacces dir
        else (do
          made ← new_inode c.me d.i_dev
          if made == 0 then refuse enospc dir else (do
            change (made - 1) λ w. record w { i_uid = c.me.euid; i_mode = mode; i_dirt = true }
            entry ← add_entry dir name
            v ← get_inode (made - 1)
            elim entry as (λ _. F Opened) [
              | none ↦ do
                change (made - 1) λ w. record w { i_nlinks = w.i_nlinks - 1 }
                iput (made - 1)
                refuse enospc dir
              | some p ↦ do set_entry p v.i_num; iput dir; pure (opened (made - 1))
            ]))

  -- A file that is there, of number `nr`.
  pub open_file : (flag dir nr : ℕ) → F Opened
  open_file flag dir nr = do
    d ← get_inode dir
    time ← now
    iput dir
    if has_flag flag o_excl then pure (refused eexist) else (do
      i ← iget d.i_dev nr
      v ← get_inode i
      if (is_dir v && has_flag flag o_accmode) || not (permission c.me v (acc_mode flag))
          then refuse eperm i
          else (do
            change i λ w. record w { i_atime = time }
            if has_flag flag o_trunc then truncate i else pure tt
            pure (opened i)))

  pub open_namei : List ℕ → (flag mode : ℕ) → F Opened
  unfolding create_file open_file
  open_namei path plain wanted =
      let flag = with_write plain in
      let mode = bit_or (bit_and (bit_and wanted 0x1FF) (complement c.me.umask)) 0x8000 in
      (do
        found ← dir_namei c path
        elim found as (λ _. F Opened) [
          | none ↦ pure (refused enoent)
          | some p ↦
              if length p.1 == 0
              then (if has_flag flag o_accmode || (has_flag flag o_creat || has_flag flag o_trunc)
                  then refuse eisdir p.0
                  else pure (opened p.0))
              else (do
                entry ← look_up c p.0 p.1
                elim entry as (λ _. F Opened) [
                  | none ↦ create_file flag mode p.0 p.1
                  | some q ↦ open_file flag p.0 q.1
                ])
        ])
