-- ===== src/Fs/Rw.antt =====
-- fs/read_write.c: `sys_lseek`, and where `sys_read` and `sys_write` send a call. A descriptor is looked
-- up in `filp` of the current task.
use Prim.Native.Nat.{bit_and}
use liha_linux.Base.{
  ◌&&◌, ◌+◌, ◌+ℤ◌, ◌-◌, ◌/◌, ◌==◌, Bool, Option, ◌^◌, if◌then◌else◌, leb, ltb, negsuc, none, not,
  pos, some, ◌||◌, ℕ, ℤ,
}
use liha_linux.Exit.{einval}
use liha_linux.Files.{ebadf, nr_open}
use liha_linux.Fs.{Inode}
use liha_linux.Fs.Free.{is_kind}

-- `struct file`, with its inode.
pub record Open : Type 0 where
  pub f_mode : ℕ
  pub f_pos : ℕ
  pub f_inode : Inode

abbrev pub espipe : ℤ
espipe = negsuc 28

abbrev pub eio : ℤ
eio = negsuc 4

-- `fd >= NR_OPEN || !(file=current->filp[fd])` is `none`.
abbrev pub open_at : (ℕ → Option Open) → ℕ → Option Open
open_at filp fd = if ltb fd nr_open then filp fd else none

-- IS_SEEKABLE of MAJOR.
abbrev pub is_seekable : Inode → Bool
is_seekable v = let major = v.i_dev / 2 ^ 8 in leb 1 major && leb major 3

-- `f_pos = tmp`, unless it is negative.
abbrev pub seek_to : ℤ → Open → ℤ × Open
seek_to (pos n) f = (pos n, record f { f_pos = n })
seek_to (negsuc n) f = (einval, f)

-- The switch over `origin`.
pub seek : ℤ → ℕ → Open → ℤ × Open
seek offset origin f =
    if origin == 0
    then seek_to offset f
    else if origin == 1
    then seek_to (pos f.f_pos +ℤ offset) f
    else if origin == 2
    then seek_to (pos f.f_inode.i_size +ℤ offset) f
    else (einval, f)

-- The result, and the file that is at `fd` then.
pub sys_lseek : (ℕ → Option Open) → ℕ → ℤ → ℕ → ℤ × Option Open
unfolding seek
sys_lseek filp fd offset origin = elim (open_at filp fd) as (λ _. ℤ × Option Open) [
  | none ↦ (ebadf, none)
  | some f ↦
      let (result, moved) = seek offset origin f in
      if not (is_seekable f.f_inode)
      then (ebadf, some f)
      else if f.f_inode.i_pipe
      then (espipe, some f)
      else (result, some moved)
]

-- An error or 0, or the function that goes on, for so many bytes.
pub data Route : Type 0 where
  result : ℤ → Route
  pipe : (count : ℕ) → Route
  char : (count : ℕ) → Route
  block : (count : ℕ) → Route
  file : (count : ℕ) → Route

-- `count` of a read from a file, which ends with the file.
abbrev pub up_to_end : Open → ℕ → ℕ
up_to_end f count =
    if ltb f.f_inode.i_size (count + f.f_pos) then f.f_inode.i_size - f.f_pos else count

-- A negative `count` is -EINVAL before this.
pub sys_read : (ℕ → Option Open) → (fd count : ℕ) → Route
sys_read filp fd count = elim (open_at filp fd) as (λ _. Route) [
  | none ↦ result einval
  | some f ↦
      let v = f.f_inode in
      let rest = up_to_end f count in
      if count == 0
      then result (pos 0)
      else if v.i_pipe
      then (if bit_and f.f_mode 1 == 0 then result eio else pipe count)
      else if is_kind 0x2000 v
      then char count
      else if is_kind 0x6000 v
      then block count
      else if is_kind 0x4000 v || is_kind 0x8000 v
      then (if rest == 0 then result (pos 0) else file rest)
      else result einval
]

pub sys_write : (ℕ → Option Open) → (fd count : ℕ) → Route
sys_write filp fd count = elim (open_at filp fd) as (λ _. Route) [
  | none ↦ result einval
  | some f ↦
      let v = f.f_inode in
      if count == 0
      then result (pos 0)
      else if v.i_pipe
      then (if bit_and f.f_mode 2 == 0 then result eio else pipe count)
      else if is_kind 0x2000 v
      then char count
      else if is_kind 0x6000 v
      then block count
      else if is_kind 0x8000 v
      then file count
      else result einval
]
