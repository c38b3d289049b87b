-- ===== src/Sys/Fails.antt =====
-- The calls of kernel/sys.c that fail change nothing.
use liha_linux.Base.{◌==◌, Option, arith, negsuc, none, pos, refl, some, suc, zero, ◌||◌, ℤ, ◌≡◌}
use liha_linux.Task.{Task}
use liha_linux.Exit.{eperm}
use liha_linux.Sys.Users.{OnSome, OnSome-some, OnSome-if}
use liha_linux.Sys.{and_then, or_eperm, set_ruid, set_euid, sys_setreuid, to_short}

-- `q` is `p` but for its real user.
abbrev Uid : Task → Task → Type 0
Uid p q = record q { uid = p.uid } ≡ p

set_ruid-Uid : (r : ℤ) (p : Task) → OnSome (Uid p) (set_ruid r p)
unfolding set_ruid
set_ruid-Uid (negsuc n) p = OnSome-some (Uid p) p refl
set_ruid-Uid (pos zero) p = OnSome-some (Uid p) p refl
set_ruid-Uid (pos (suc n)) p =
    OnSome-if (Uid p) ((p.euid == suc n) || (p.uid == suc n) || (p.euid == 0))
      (record p { uid = to_short (suc n) }) (λ ok. refl)

zero-eperm : ¬ (pos 0 ≡ eperm)
zero-eperm e = ground arith

or_eperm-Uid :
    (p q : Task) (o : Option Task)
    → Uid p q
    → (or_eperm (record q { uid = p.uid }) o).0 ≡ eperm
    → (or_eperm (record q { uid = p.uid }) o).1 ≡ p
or_eperm-Uid p q none u e = u
or_eperm-Uid p q (some r) u e = absurd (zero-eperm e)

-- A call of `sys_setreuid` that fails leaves the task as it was, also when the real user had been
-- changed before the effective user was refused.
pub sys_setreuid-fails :
    (ruid euid : ℤ) (p : Task)
    → (sys_setreuid ruid euid p).0 ≡ eperm
    → (sys_setreuid ruid euid p).1 ≡ p
unfolding sys_setreuid
sys_setreuid-fails ruid euid p = go (set_ruid ruid p) refl
  where
    go :
        (o : Option Task)
        → set_ruid ruid p ≡ o
        → (and_then o
            (λ q. or_eperm (record q { uid = p.uid }) (set_euid euid p.uid q))
            (eperm, p)).0
          ≡ eperm
        → (and_then o
            (λ q. or_eperm (record q { uid = p.uid }) (set_euid euid p.uid q))
            (eperm, p)).1
          ≡ p
    go none e f = refl
    go (some q) e f = or_eperm-Uid p q (set_euid euid p.uid q) (set_ruid-Uid ruid p q e) f
