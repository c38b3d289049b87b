-- ===== src/Fork.antt =====
-- kernel/fork.c: a free slot and number for a task, `copy_mem` and the part of `copy_process` that the
-- fields of Task and the pages of Mm have. The registers of the child, the counts of its files and
-- inodes and its descriptors in the GDT are left out. A segment is its base and limit.
pub mod Pigeons
pub mod Numbers
mod Tests
use liha_linux.Base.{
  ◌*◌, ◌+◌, ◌-◌, ◌==◌, Bool, Option, ◌^◌, eq_ℤ, false, if◌then◌else◌, ltb, none, not, pos, some,
  suc, true, update, zero, ◌||◌, ℕ,
}
use liha_linux.Task.{Task, TaskTable, nr_tasks, running, uninterruptible}
use liha_linux.Mm.{
  M, pure, fail, ◌>>=◌, ◌>>◌, copy_page_tables, free_page, free_page_tables, get_free_page,
}

-- `if ((++last_pid)<0) last_pid=1`, for a `long`.
abbrev pub next_pid : ℕ → ℕ
next_pid p = if ltb (p + 1) (2 ^ 31) then p + 1 else 1

abbrev pub is_pid : ℕ → Option Task → Bool
is_pid p none = false
is_pid p (some t) = eq_ℤ t.pid (pos p)

-- `for(i=0 ; i<NR_TASKS ; i++) if (task[i] && task[i]->pid == last_pid) goto repeat`.
pub pid_taken : (n : ℕ) → TaskTable → ℕ → Bool
pid_taken zero t p = false
pid_taken (suc n) t p = pid_taken n t p || is_pid p (t n)

-- The numbers that are tried, at most `n`: one more than there are tasks is enough.
pub find_pid : (n : ℕ) → TaskTable → ℕ → ℕ
unfolding pid_taken
find_pid zero t last = last
find_pid (suc n) t last =
    let p = next_pid last in
    let later = find_pid n t p in if pid_taken nr_tasks t p then later else p

-- `for(i=1 ; i<NR_TASKS ; i++) if (!task[i]) return i`, from `i` on, `n` left.
pub find_slot : (n i : ℕ) → TaskTable → Option ℕ
find_slot zero i t = none
find_slot (suc n) i t = elim (t i) as (λ _. Option ℕ) [
  | none ↦ some i
  | some _ ↦ find_slot n (i + 1) t
]

-- `last_pid`, and the slot; `none` is -EAGAIN.
pub find_empty_process : TaskTable → ℕ → ℕ × Option ℕ
unfolding find_pid find_slot
find_empty_process t last = (find_pid (nr_tasks + 1) t last, find_slot (nr_tasks - 1) 1 t)

-- The code and the data segment of the current task.
pub record Segments : Type 0 where
  pub code_base : ℕ
  pub code_limit : ℕ
  pub data_base : ℕ
  pub data_limit : ℕ

-- `copy_mem`; `false` is -ENOMEM. The child's segments start at `nr * 0x4000000`.
pub copy_mem : ℕ → Segments → M Bool
copy_mem nr g =
    let base = nr * 0x4000000 in
    if not (g.data_base == g.code_base) || ltb g.data_limit g.code_limit then fail else (do
      copied ← copy_page_tables g.data_base base g.data_limit
      if copied then pure true else (do free_page_tables base g.data_limit; pure false))

-- `*p = *current` and what follows it.
abbrev pub child_of : Task → (last_pid : ℕ) → Task
child_of me last_pid = record me {
  state = uninterruptible;
  pid = pos last_pid;
  father = me.pid;
  counter = me.priority;
  signal = 0;
  alarm = 0;
  leader = 0;
  utime = 0;
  stime = 0;
  cutime = 0;
  cstime = 0;
}

-- The number of the child, or `none` for -EAGAIN, and the table of tasks.
pub copy_process : (nr last_pid : ℕ) → Task → Segments → TaskTable → M (Option ℕ × TaskTable)
unfolding copy_mem
copy_process nr last_pid me g t = do
  p ← get_free_page
  if p == 0 then pure (none, t) else (do
    copied ← copy_mem nr g
    if copied
        then pure
            (some last_pid, update t nr (some (record (child_of me last_pid) { state = running })))
        else (do free_page p; pure (none, update t nr none)))
