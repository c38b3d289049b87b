-- ===== src/Sys/Tests.antt =====
-- The calls of kernel/sys.c for a task of user 5 with the effective user 7.
use liha_linux.Base.{arith, none, pos, refl, some, suc, zero, ◌≡◌}
use liha_linux.Task.{Task, TaskTable, init_task}
use liha_linux.Sys.{sys_setreuid, sys_setpgid, set_ruid, set_euid, if_zero}
use liha_linux.Sys.Users.{Reach-Within, Within, start, next, setreuid}
use liha_linux.Sys.Fails.{sys_setreuid-fails}
use liha_linux.Sys.Groups.{sys_setpgid-Found, Found}

abbrev user : Task
user = record init_task { uid = 5; euid = 7; pid = pos 3 }

abbrev table : TaskTable
table zero = some init_task
table (suc zero) = some user
table (suc (suc n)) = none

-- User 5 comes back, and the super-user is refused.
Reach-Within_example : Within 5 7 (sys_setreuid (pos 7) (pos 5) user).1
Reach-Within_example =
    Reach-Within {p = user} ((omega arith, omega arith), (omega arith, omega arith))
      (next start (setreuid (pos 7) (pos 5)))

sys_setreuid-fails_example : (sys_setreuid (pos 7) (pos 1) user).1 ≡ user
unfolding sys_setreuid set_ruid set_euid
sys_setreuid-fails_example = sys_setreuid-fails (pos 7) (pos 1) user refl

sys_setpgid-Found_example :
    Found user
      (if_zero (pos 0) user.pid)
      (if_zero (pos 0) user.pid)
      table
      64
      0
      (sys_setpgid user (pos 0) (pos 0) table)
sys_setpgid-Found_example = sys_setpgid-Found user (pos 0) (pos 0) table
