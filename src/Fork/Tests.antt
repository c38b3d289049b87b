-- ===== src/Fork/Tests.antt =====
-- A new task beside two others (kernel/fork.c).
use liha_linux.Base.{false, none, pos, refl, some, suc, zero, ◌≡◌}
use liha_linux.Task.{TaskTable, init_task, nr_tasks}
use liha_linux.Fork.{find_slot, find_pid, find_empty_process, pid_taken}
use liha_linux.Fork.Numbers.{FreeSlot, find_empty_process_lem}

-- Task 1 has the number that is tried first.
abbrev two : TaskTable
two zero = some init_task
two (suc zero) = some (record init_task { pid = pos 5 })
two (suc (suc n)) = none

find_empty_process_lem_example :
    (pid_taken nr_tasks two (find_empty_process two 4).0 ≡ false)
    × FreeSlot 63 1 two (find_empty_process two 4).1
find_empty_process_lem_example = find_empty_process_lem two 4

six : find_empty_process two 4 ≡ (6, some 2)
unfolding find_empty_process find_pid find_slot pid_taken
six = refl
