-- ===== src/Signal/Handlers.antt =====
-- `sys_signal` and `sys_sigaction` (kernel/signal.c): the handler of SIGKILL.
use liha_linux.Base.{
  ◌-◌, ◌==◌, Bool, Bool-cases, ◌^◌, ap, arith, false, if◌then◌else◌, inl, inr, none, refl, some,
  subst, sym, true, update, update_ne, ℕ, ◌∙◌, ◌≡◌, ◌≢◌,
}
use liha_linux.Exit.{sigchld}
use liha_linux.Sched.{bit_of}
use liha_linux.Task.{Task, Sigaction}
use Prim.Native.Nat.{bit_and, bit_or}
use liha_linux.Signal.{
  ignored, longs, put_longs, frame, Delivered, sigkill, sa_oneshot, sa_nomask, Regs, exits,
  sys_signal, sys_sigaction, sys_ssetmask, set_action, bad_signum, masked, forget_once, do_signal,
  handled,
}

-- The calls of kernel/signal.c that change the task, and the start of a handler.
pub data Step : Task → Task → Type 0 where
  ssetmask : {p : Task} (newmask : ℕ) → Step p (sys_ssetmask newmask p).1
  signal :
      {p : Task} (signum handler restorer : ℕ) → Step p (sys_signal signum handler restorer p).1
  sigaction : {p : Task} (signum : ℕ) (a : Sigaction) → Step p (sys_sigaction signum a p).1
  deliver :
      {p q : Task} (r r' : Regs) (stack stack' : ℕ → ℕ) (signr : ℕ)
      → do_signal signr p r stack ≡ handled q r' stack'
      → Step p q

pub data Reach (p : Task) : Task → Type 0 where
  start : Reach p p
  next : {q r : Task} → Reach p q → Step q r → Reach p r

-- The action of SIGKILL is the default.
abbrev pub KillsBySignal : Task → Type 0
KillsBySignal p = (p.sigaction (sigkill - 1)).sa_handler ≡ 0

other_index : (signum : ℕ) → bad_signum signum ≡ false → 8 ≢ signum - 1
other_index signum h = ground arith

set_action_lem :
    (signum : ℕ) (a : Sigaction) (p : Task)
    → bad_signum signum ≡ false
    → KillsBySignal p
    → KillsBySignal (set_action signum a p)
set_action_lem signum a p h k =
    ap (λ x. x.sa_handler) (update_ne p.sigaction (signum - 1) 8 a (other_index signum h)) ∙ k

if_lem :
    {A : Type 0} (b : Bool) (x y : A × Task)
    → KillsBySignal x.1
    → (b ≡ false → KillsBySignal y.1)
    → KillsBySignal (if b then x else y).1
if_lem true x y h k = h
if_lem false x y h k = k refl

forget_once_lem : (signr : ℕ) (p : Task) → KillsBySignal p → KillsBySignal (forget_once signr p)
forget_once_lem signr p h =
    elim (Bool-cases (bit_and (p.sigaction (signr - 1)).sa_flags sa_oneshot == 0)) [
      | inl keep ↦ subst (λ b. KillsBySignal (if b then p else forgotten)) (sym keep) h
      | inr once ↦
          subst (λ b. KillsBySignal (if b then p else forgotten)) (sym once)
            (elim (Bool-cases (8 == signr - 1)) [
              | inl this ↦ ap (λ b. (if b then reset else p.sigaction 8).sa_handler) this
              | inr other ↦ ap (λ b. (if b then reset else p.sigaction 8).sa_handler) other ∙ h
            ])
    ]
  where
    reset : Sigaction
    reset = record (p.sigaction (signr - 1)) { sa_handler = 0 }

    forgotten : Task
    forgotten = record p { sigaction = update p.sigaction (signr - 1) reset }

abbrev actions_of : (ℕ → Sigaction) → Delivered → ℕ → Sigaction
actions_of d (handled q r stack) = q.sigaction
actions_of d _ = d

actions_if :
    (a b c : Bool) (d : ℕ → Sigaction) (x y : Delivered)
    → actions_of d x ≡ d
    → actions_of d y ≡ d
    → actions_of d (if a then ignored else if b then if c then ignored else x else y) ≡ d
actions_if true b c d x y h k = refl
actions_if false true true d x y h k = refl
actions_if false true false d x y h k = h
actions_if false false c d x y h k = k

-- A handler that starts leaves `forget_once`, with more signals blocked.
handled_task :
    (signr : ℕ) (p q : Task) (r r' : Regs) (stack stack' : ℕ → ℕ)
    → do_signal signr p r stack ≡ handled q r' stack'
    → q.sigaction ≡ (forget_once signr p).sigaction
unfolding do_signal
handled_task signr p q r r' stack stack' e =
    let sa = p.sigaction (signr - 1) in
    let once = forget_once signr p in
    sym (ap (actions_of once.sigaction) e)
    ∙ actions_if (sa.sa_handler == 1) (sa.sa_handler == 0) (signr == sigchld) once.sigaction
        (exits (bit_of signr))
        (handled (record once { blocked = bit_or p.blocked sa.sa_mask })
          (record r { eip = sa.sa_handler; esp = r.esp - longs sa })
          (put_longs stack (r.esp - longs sa) (frame signr sa p r)))
        refl refl

Step-KillsBySignal : {p q : Task} → Step p q → KillsBySignal p → KillsBySignal q
unfolding sys_ssetmask sys_signal sys_sigaction
Step-KillsBySignal (ssetmask newmask) h = h
Step-KillsBySignal {p} (signal signum handler restorer) h =
    if_lem (bad_signum signum) (none, p)
      (
        some (p.sigaction (signum - 1)).sa_handler,
        set_action signum
            (record {
              sa_handler = handler;
              sa_mask = 0;
              sa_flags = bit_or sa_oneshot sa_nomask;
              sa_restorer = restorer;
            })
            p,
      )
      h (λ good. set_action_lem signum _ p good h)
Step-KillsBySignal {p} (sigaction signum a) h =
    if_lem (bad_signum signum) (none, p)
      (some (p.sigaction (signum - 1)), set_action signum (masked signum a) p) h
      (λ good. set_action_lem signum (masked signum a) p good h)
Step-KillsBySignal {p} {q} (deliver r r' stack stack' signr e) h =
    ap (λ f. (f 8).sa_handler) (handled_task signr p q r r' stack stack' e)
    ∙ forget_once_lem signr p h

Reach-KillsBySignal : {p q : Task} → Reach p q → KillsBySignal p → KillsBySignal q
Reach-KillsBySignal start h = h
Reach-KillsBySignal (next reach step) h = Step-KillsBySignal step (Reach-KillsBySignal reach h)

-- A task in which the action of SIGKILL is the default cannot give it a handler or ignore it: after
-- any sequence of calls of `sys_signal`, `sys_sigaction` and `sys_ssetmask` and of handlers that
-- start, a call of `do_signal` for SIGKILL makes the task exit. That SIGKILL is not blocked, so that
-- `do_signal` is called for it, is not stated.
pub Reach-exits :
    {p q : Task} (r : Regs) (stack : ℕ → ℕ)
    → KillsBySignal p
    → Reach p q
    → do_signal sigkill q r stack ≡ exits (2 ^ 8)
unfolding do_signal
Reach-exits r stack h reach = rw (Reach-KillsBySignal reach h) refl
