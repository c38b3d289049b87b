-- ===== src/Files.antt =====
-- Open files of the current process: fs/fcntl.c, `sys_close` of fs/open.c, fs/file_table.c. A file
-- is named by its index in `file_table`, an inode by a number; `iput` of an inode is recorded in the
-- list `put`.
pub mod Refs
pub mod Counts
mod Tests
use liha_linux.Base.{
  ◌%◌, ◌+◌, ◌-◌, ◌==◌, Bool, List, Option, ◌^◌, false, if◌then◌else◌, leb, ltb, negsuc, none, pos,
  some, suc, update, zero, ℕ, ℤ, ◌∷◌,
}
use Prim.Native.Nat.{bit_and, bit_or}
use liha_linux.Sched.{complement}
use liha_linux.Exit.{einval}

abbrev pub nr_open : ℕ
nr_open = 20

abbrev pub ebadf : ℤ
ebadf = negsuc 8

abbrev pub emfile : ℤ
emfile = negsuc 23

-- `struct file`; `f_count` has 16 bits.
pub record File : Type 0 where
  pub f_flags : ℕ
  pub f_count : ℕ
  pub f_inode : ℕ
  pub f_pos : ℕ

-- `file_table`, and of the current task `filp` and the bits of `close_on_exec`.
pub record Files : Type 0 where
  pub file : ℕ → File
  pub filp : ℕ → Option ℕ
  pub close_on_exec : ℕ → Bool
  pub put : List ℕ

-- `while (arg < NR_OPEN) if (current->filp[arg]) arg++; else break;`, `n` descriptors left.
pub find_fd : (n arg : ℕ) → (ℕ → Option ℕ) → Option ℕ
find_fd zero arg filp = none
find_fd (suc n) arg filp = elim (filp arg) [ none ↦ some arg | some _ ↦ find_fd n (arg + 1) filp ]

-- `f_count++`.
abbrev pub count_up : File → File
count_up f = record f { f_count = (f.f_count + 1) % 2 ^ 16 }

-- The new descriptor `arg` for the file `f`.
abbrev pub install : ℕ → ℕ → Files → Files
install f arg k = record k {
  close_on_exec = update k.close_on_exec arg false;
  filp = update k.filp arg (some f);
  file = update k.file f (count_up (k.file f));
}

abbrev pub filp_at : ℕ → Files → Option ℕ
filp_at fd k = if ltb fd nr_open then k.filp fd else none

-- From the second test on, with the file of `fd`.
pub dup_file : ℕ → ℕ → Files → ℤ × Files
unfolding find_fd
dup_file f arg k =
    if leb nr_open arg then (einval, k) else elim (find_fd (nr_open - arg) arg k.filp) [
      | none ↦ (emfile, k)
      | some new ↦ (pos new, install f new k)
    ]

pub dupfd : ℕ → ℕ → Files → ℤ × Files
unfolding dup_file
dupfd fd arg k = elim (filp_at fd k) [ none ↦ (ebadf, k) | some f ↦ dup_file f arg k ]

pub sys_dup : ℕ → Files → ℤ × Files
unfolding dupfd
sys_dup fildes k = dupfd fildes 0 k

-- `sys_close` returns, or it panics.
pub data Closed : Type 0 where
  closed : ℤ → Files → Closed
  panic : Closed

abbrev pub clear_fd : ℕ → Files → Files
clear_fd fd k = record k { close_on_exec = update k.close_on_exec fd false }

-- `--filp->f_count`, and `iput` at 0.
pub drop_file : ℕ → Files → Files
drop_file f k =
    let count = (k.file f).f_count - 1 in
    record k {
      file = update k.file f (record (k.file f) { f_count = count });
      put = if count == 0 then (k.file f).f_inode ∷ k.put else k.put;
    }

-- From `current->filp[fd] = NULL` on.
pub close_file : ℕ → ℕ → Files → Closed
unfolding drop_file
close_file fd f k =
    if (k.file f).f_count == 0
    then panic
    else closed (pos 0) (drop_file f (record k { filp = update k.filp fd none }))

pub sys_close : ℕ → Files → Closed
unfolding close_file
sys_close fd k = if leb nr_open fd then closed einval k else elim (k.filp fd) [
  | none ↦ closed einval (clear_fd fd k)
  | some f ↦ close_file fd f (clear_fd fd k)
]

abbrev pub after_close : Closed → (Files → ℤ × Files) → Option (ℤ × Files)
after_close panic g = none
after_close (closed _ k) g = some (g k)

-- `none` is a panic of `sys_close`.
pub sys_dup2 : ℕ → ℕ → Files → Option (ℤ × Files)
unfolding sys_close dupfd
sys_dup2 oldfd newfd k = after_close (sys_close newfd k) (dupfd oldfd newfd)

-- The commands of `sys_fcntl`; `f_other` is any other number, and the three for locks.
pub data Fcntl : Type 0 where
  f_dupfd f_getfd f_setfd f_getfl f_setfl f_other : Fcntl

-- `O_APPEND | O_NONBLOCK`.
abbrev pub settable : ℕ
settable = 3072

abbrev pub set_flags : ℕ → File → File
set_flags arg f = record f {
  f_flags = bit_or (bit_and f.f_flags (complement settable)) (bit_and arg settable);
}

-- The `switch`, for the file `f` of `fd`.
pub fcntl_file : ℕ → ℕ → Fcntl → ℕ → Files → ℤ × Files
unfolding dupfd
fcntl_file fd f f_dupfd arg k = dupfd fd arg k
fcntl_file fd f f_getfd arg k = (pos (if k.close_on_exec fd then 1 else 0), k)
fcntl_file fd f f_setfd arg k =
    (pos 0, record k { close_on_exec = update k.close_on_exec fd (arg % 2 == 1) })
fcntl_file fd f f_getfl arg k = (pos (k.file f).f_flags, k)
fcntl_file fd f f_setfl arg k =
    (pos 0, record k { file = update k.file f (set_flags arg (k.file f)) })
fcntl_file fd f f_other arg k = (negsuc 0, k)

pub sys_fcntl : ℕ → Fcntl → ℕ → Files → ℤ × Files
unfolding fcntl_file
sys_fcntl fd cmd arg k = elim (filp_at fd k) [
  | none ↦ (ebadf, k)
  | some f ↦ fcntl_file fd f cmd arg k
]
