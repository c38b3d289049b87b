-- ===== src/Signal.antt =====
-- kernel/signal.c: the mask of signals, the handlers, and the frame that `do_signal` builds on the
-- user's stack. The bytes that `get_new` and `save_old` copy are given as one `Sigaction`; `esp` and
-- the stack are in longs.
pub mod Handlers
pub mod Frame
mod Tests
use Prim.Native.Nat.{bit_and, bit_or}
use liha_linux.Base.{
  ◌+◌, ◌-◌, ◌==◌, Bool, List, Option, [], ◌^◌, if◌then◌else◌, ltb, none, not, some, update, ◌||◌, ℕ,
  ◌∷◌,
}
use liha_linux.Task.{Task, Sigaction}
use liha_linux.Sched.{bit_of, complement}
use liha_linux.Exit.{sigchld}

abbrev pub sigkill : ℕ
sigkill = 9

abbrev pub sa_nomask : ℕ
sa_nomask = 2 ^ 30

abbrev pub sa_oneshot : ℕ
sa_oneshot = 2 ^ 31

abbrev pub sys_sgetmask : Task → ℕ
sys_sgetmask me = me.blocked

pub sys_ssetmask : ℕ → Task → ℕ × Task
sys_ssetmask newmask me =
    (me.blocked, record me { blocked = bit_and newmask (complement (bit_of sigkill)) })

-- `signum<1 || signum>32 || signum==SIGKILL`; a negative `signum` is 0 here.
abbrev pub bad_signum : ℕ → Bool
bad_signum signum = ltb signum 1 || ltb 32 signum || (signum == sigkill)

abbrev pub set_action : ℕ → Sigaction → Task → Task
set_action signum a me = record me { sigaction = update me.sigaction (signum - 1) a }

-- The result -1 is `none`.
pub sys_signal : ℕ → (handler restorer : ℕ) → Task → Option ℕ × Task
sys_signal signum handler restorer me = if bad_signum signum then (none, me) else (
  some (me.sigaction (signum - 1)).sa_handler,
  set_action signum
      (record {
        sa_handler = handler;
        sa_mask = 0;
        sa_flags = bit_or sa_oneshot sa_nomask;
        sa_restorer = restorer;
      })
      me,
)

abbrev pub no_mask : Sigaction → Bool
no_mask a = not (bit_and a.sa_flags sa_nomask == 0)

-- The mask of the action that the user gave.
pub masked : ℕ → Sigaction → Sigaction
masked signum a = record a { sa_mask = if no_mask a then 0 else bit_or a.sa_mask (bit_of signum) }

-- The result is the old action.
pub sys_sigaction : ℕ → Sigaction → Task → Option Sigaction × Task
unfolding masked
sys_sigaction signum action me =
    if bad_signum signum
    then (none, me)
    else (some (me.sigaction (signum - 1)), set_action signum (masked signum action) me)

-- The registers that the interrupt saved.
pub record Regs : Type 0 where
  pub eax : ℕ
  pub ecx : ℕ
  pub edx : ℕ
  pub eflags : ℕ
  pub eip : ℕ
  pub esp : ℕ

-- The longs that go on the user's stack, upwards from `esp`.
pub frame : ℕ → Sigaction → Task → Regs → List ℕ
frame signr sa me r =
    sa.sa_restorer
    ∷ signr
    ∷ (if no_mask sa
        then r.eax ∷ r.ecx ∷ r.edx ∷ r.eflags ∷ r.eip ∷ []
        else me.blocked ∷ r.eax ∷ r.ecx ∷ r.edx ∷ r.eflags ∷ r.eip ∷ [])

-- `longs`.
abbrev pub longs : Sigaction → ℕ
longs sa = if no_mask sa then 7 else 8

-- `put_fs_long(...,tmp_esp++)` of each.
pub put_longs : (ℕ → ℕ) → ℕ → List ℕ → ℕ → ℕ
put_longs stack esp [] = stack
put_longs stack esp (x ∷ xs) = put_longs (update stack esp x) (esp + 1) xs

abbrev pub forget_once : ℕ → Task → Task
forget_once signr me =
    let sa = me.sigaction (signr - 1) in
    if bit_and sa.sa_flags sa_oneshot == 0
    then me
    else record me { sigaction = update me.sigaction (signr - 1) (record sa { sa_handler = 0 }) }

-- How `do_signal` ends: the signal is ignored, the task exits with a code, or the handler runs.
pub data Delivered : Type 0 where
  ignored : Delivered
  exits : ℕ → Delivered
  handled : Task → Regs → (ℕ → ℕ) → Delivered

pub do_signal : ℕ → Task → Regs → (ℕ → ℕ) → Delivered
unfolding frame put_longs
do_signal signr me r stack =
    let sa = me.sigaction (signr - 1) in
    if sa.sa_handler == 1
    then ignored
    else if sa.sa_handler == 0
    then if signr == sigchld then ignored else exits (bit_of signr)
    else (let esp = r.esp - longs sa in
        handled (record (forget_once signr me) { blocked = bit_or me.blocked sa.sa_mask })
          (record r { eip = sa.sa_handler; esp = esp }) (put_longs stack esp (frame signr sa me r)))
