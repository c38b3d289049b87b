-- ===== src/Fs/Path/Access.antt =====
-- The calls of fs/open.c on the inode of a name: `sys_utime`, `sys_access`, `sys_chdir`, `sys_chroot`,
-- `sys_chmod`, `sys_chown`. A result is 0, or the error number that the source returns with the sign
-- changed.
mod Tests
use Prim.Native.Nat.{bit_and, bit_or}
use liha_linux.Base.{
  ◌%◌, ◌&&◌, ◌/◌, ◌==◌, List, Option, ◌^◌, if◌then◌else◌, none, not, some, true, ◌||◌, ℕ,
}
use liha_linux.Sched.{complement}
use liha_linux.Fs.{F, Inode, pure, ◌>>=◌, ◌>>◌}
use liha_linux.Fs.Free.{change, get_inode}
use liha_linux.Fs.Table.{iput}
use liha_linux.Fs.Path.{Current, is_dir, namei}
use liha_linux.Fs.Path.Calls.{eacces, enoent, enotdir, fail, now}

module _ (c : Current) where
  -- The inode of a name, or the error.
  abbrev pub on_name : {A : Type 0} → List ℕ → A → (ℕ → Inode → F A) → F A
  on_name {A} path error k = do
    found ← namei c path
    elim found as (λ _. F A) [ none ↦ pure error | some i ↦ do v ← get_inode i; k i v ]

  -- `times` is `actime` and `modtime`, two words of 32 bits, or a null pointer.
  pub sys_utime : List ℕ → (times : Option (ℕ × ℕ)) → F ℕ
  sys_utime path times = on_name path enoent λ i v. do
    time ← now
    let written = elim times as (λ _. ℕ × ℕ) [ none ↦ (time, time) | some p ↦ p ] in
        (do
          change i λ w. record w { i_atime = written.0; i_mtime = written.1; i_dirt = true }
          fail 0 i)

  -- The bits of `i_mode & 0777` that the caller's class has, in the three lowest bits: the shift for
  -- the group is that for the owner.
  pub class_bits : Inode → ℕ
  class_bits v =
      let res = bit_and v.i_mode 0x1FF in
      if c.me.uid == v.i_uid then res / 64 else if c.me.gid == v.i_gid then res / 64 else res

  pub sys_access : List ℕ → (mode : ℕ) → F ℕ
  unfolding class_bits
  sys_access path plain =
      let mode = bit_and plain 7 in
      on_name path eacces λ i v. do
        iput i
        if bit_and (bit_and (class_bits v) 7) mode == mode
            then pure 0
            else if (c.me.uid == 0)
                && ((bit_and mode 1 == 0) || not (bit_and (bit_and v.i_mode 0x1FF) 0x49 == 0))
            then pure 0
            else pure eacces

  -- The result and what `current` holds then.
  pub sys_chdir : List ℕ → F (ℕ × Current)
  sys_chdir path =
      on_name path (enoent, c)
        λ i v.
          if is_dir v
          then (do iput c.pwd; pure (0, record c { pwd = i }))
          else (do iput i; pure (enotdir, c))

  pub sys_chroot : List ℕ → F (ℕ × Current)
  sys_chroot path =
      on_name path (enoent, c)
        λ i v.
          if is_dir v
          then (do iput c.root; pure (0, record c { root = i }))
          else (do iput i; pure (enotdir, c))

  pub sys_chmod : List ℕ → (mode : ℕ) → F ℕ
  sys_chmod path mode = on_name path enoent λ i v.
      if not (c.me.euid == v.i_uid) && not (c.me.euid == 0) then fail eacces i else (do
        change i λ w. record w {
          i_mode = bit_or (bit_and mode 0xFFF) (bit_and w.i_mode (complement 0xFFF));
          i_dirt = true;
        }
        fail 0 i)

  -- `i_uid` has 16 bits, and `i_gid` 8.
  pub sys_chown : List ℕ → (uid gid : ℕ) → F ℕ
  sys_chown path uid gid = on_name path enoent λ i v.
      if not (c.me.euid == 0) then fail eacces i else (do
        change i λ w. record w { i_uid = uid % 2 ^ 16; i_gid = gid % 2 ^ 8; i_dirt = true }
        fail 0 i)
