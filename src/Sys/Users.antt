-- ===== src/Sys/Users.antt =====
-- The user identifiers of kernel/sys.c: no call gives a user the rights of another.
use liha_linux.Base.{
  ◌%◌, ◌&&◌, ◌+◌, ◌-◌, ◌<◌, ◌==◌, Bool, Bool-cases, Option, ◌^◌, arith, eq_ℤ, false, if◌then◌else◌,
  inl, inr, leb, ltb, negsuc, none, not, pos, refl, some, subst, suc, true, zero, ◌||◌, ℕ, ℤ, ◌∙◌,
  ◌≡◌, ◌⊎◌,
}
use liha_linux.Task.{Task}
use liha_linux.Exit.{eperm}
use liha_linux.Sys.{
  and_then, or_eperm, to_short, set_ruid, set_euid, sys_setreuid, sys_setuid, sys_setregid,
  sys_setgid, set_rgid, set_egid, sys_setsid, set_pgrp, sys_umask, sys_brk,
}

-- The calls of kernel/sys.c that change the current task, and `sys_setpgid` of `*me`, this task or
-- another one, that finds it.
pub data Step : Task → Task → Type 0 where
  setreuid : {p : Task} (ruid euid : ℤ) → Step p (sys_setreuid ruid euid p).1
  setuid : {p : Task} (uid : ℤ) → Step p (sys_setuid uid p).1
  setregid : {p : Task} (rgid egid : ℤ) → Step p (sys_setregid rgid egid p).1
  setgid : {p : Task} (gid : ℤ) → Step p (sys_setgid gid p).1
  setsid : {p : Task} → Step p (sys_setsid p).1
  setpgid : {p q : Task} (me : Task) (pgid : ℤ) → set_pgrp me pgid p ≡ some q → Step p q
  umask : {p : Task} (mask : ℕ) → Step p (sys_umask mask p).1
  brk : {p : Task} (end_data_seg : ℕ) → Step p (sys_brk end_data_seg p).1

pub data Reach (p : Task) : Task → Type 0 where
  start : Reach p p
  next : {q r : Task} → Reach p q → Step q r → Reach p r

-- The two user identifiers are among `a` and `b`.
abbrev pub Within : ℕ → ℕ → Task → Type 0
Within a b p = ((p.uid ≡ a) ⊎ (p.uid ≡ b)) × ((p.euid ≡ a) ⊎ (p.euid ≡ b))

-- An unprivileged task with short identifiers.
abbrev pub Plain : ℕ → ℕ → Type 0
Plain a b = ((0 < a) × (a < 2 ^ 16)) × ((0 < b) × (b < 2 ^ 16))

abbrev pub OnSome : (Task → Type 0) → Option Task → Type 0
OnSome P o = (q : Task) → o ≡ some q → P q

module _ (P : Task → Type 0) where
  pub OnSome-some : (p : Task) → P p → OnSome P (some p)
  OnSome-some p h q e = let same : p ≡ q = cc in subst P same h

  OnSome-none : OnSome P none
  OnSome-none q e = cc

  pub OnSome-if : (b : Bool) (p : Task) → (b ≡ true → P p) → OnSome P (if b then some p else none)
  OnSome-if true p h = OnSome-some p (h refl)
  OnSome-if false p h = OnSome-none

  OnSome-unless : (b : Bool) (p : Task) → P p → OnSome P (if b then none else some p)
  OnSome-unless true p h = OnSome-none
  OnSome-unless false p h = OnSome-some p h

  and_then_lem :
      (o : Option Task) (f : Task → ℤ × Task) (out : ℤ × Task)
      → OnSome P o
      → ((q : Task) → P q → P (f q).1)
      → P out.1
      → P (and_then o f out).1
  and_then_lem none f out h g k = k
  and_then_lem (some q) f out h g k = g q (h q refl)

  or_eperm_lem : (p : Task) (o : Option Task) → P p → OnSome P o → P (or_eperm p o).1
  or_eperm_lem p none h g = h
  or_eperm_lem p (some q) h g = g q refl

if_both :
    {A : Type 0} (P : Task → Type 0) (b : Bool) (x y : A × Task)
    → P x.1
    → P y.1
    → P (if b then x else y).1
if_both P true x y h k = h
if_both P false x y h k = k

short_lem : (c n : ℕ) → c < 2 ^ 16 → c ≡ n → to_short n ≡ c
short_lem c n h e = omega arith

keeps_short :
    (a b c n : ℕ) → Plain a b → c ≡ n → (c ≡ a) ⊎ (c ≡ b) → (to_short n ≡ a) ⊎ (to_short n ≡ b)
keeps_short a b c n plain e (inl d) = inl (short_lem c n (omega (arith, plain)) e ∙ d)
keeps_short a b c n plain e (inr d) = inr (short_lem c n (omega (arith, plain)) e ∙ d)

not_root : (a b e : ℕ) → Plain a b → (e ≡ a) ⊎ (e ≡ b) → (e == 0) ≡ false
not_root a b e plain (inl d) = ground (arith, plain)
not_root a b e plain (inr d) = ground (arith, plain)

-- The test on a new identifier `n`, where the identifiers `u` and `e` are not the super-user's.
among :
    (a b u e n : ℕ)
    → Plain a b
    → (u ≡ a) ⊎ (u ≡ b)
    → (e ≡ a) ⊎ (e ≡ b)
    → ((u == n) || (e == n) || (e == 0)) ≡ true
    → (to_short n ≡ a) ⊎ (to_short n ≡ b)
among a b u e n plain du de h = elim (Bool-cases (u == n)) [
  | inl same ↦ keeps_short a b u n plain (ground arith) du
  | inr other ↦ elim (Bool-cases (e == n)) [
    | inl same ↦ keeps_short a b e n plain (ground arith) de
    | inr neither ↦ let plain_user = not_root a b e plain de in absurd (ground arith)
  ]
]

set_ruid_lem :
    (a b : ℕ) (r : ℤ) (p : Task) → Plain a b → Within a b p → OnSome (Within a b) (set_ruid r p)
unfolding set_ruid
set_ruid_lem a b (negsuc n) p plain within = OnSome-some (Within a b) p within
set_ruid_lem a b (pos zero) p plain within = OnSome-some (Within a b) p within
set_ruid_lem a b (pos (suc n)) p plain within =
    OnSome-if (Within a b) ((p.euid == suc n) || (p.uid == suc n) || (p.euid == 0))
      (record p { uid = to_short (suc n) })
      (λ ok. (among a b p.uid p.euid (suc n) plain within.0 within.1 (ground arith), within.1))

set_euid_lem :
    (a b : ℕ) (r : ℤ) (old_ruid : ℕ) (p : Task)
    → Plain a b
    → (old_ruid ≡ a) ⊎ (old_ruid ≡ b)
    → Within a b p
    → OnSome (Within a b) (set_euid r old_ruid p)
unfolding set_euid
set_euid_lem a b (negsuc n) old p plain was within = OnSome-some (Within a b) p within
set_euid_lem a b (pos zero) old p plain was within = OnSome-some (Within a b) p within
set_euid_lem a b (pos (suc n)) old p plain was within =
    OnSome-if (Within a b) ((old == suc n) || (p.euid == suc n) || (p.euid == 0))
      (record p { euid = to_short (suc n) })
      (λ ok. (within.0, among a b old p.euid (suc n) plain was within.1 ok))

setreuid-Within :
    (a b : ℕ) (ruid euid : ℤ) (p : Task)
    → Plain a b
    → Within a b p
    → Within a b (sys_setreuid ruid euid p).1
unfolding sys_setreuid
setreuid-Within a b ruid euid p plain within =
    and_then_lem (Within a b) (set_ruid ruid p)
      (λ q. or_eperm (record q { uid = p.uid }) (set_euid euid p.uid q)) (eperm, p)
      (set_ruid_lem a b ruid p plain within)
      (λ q h.
        or_eperm_lem (Within a b) (record q { uid = p.uid }) (set_euid euid p.uid q) (within.0, h.1)
          (set_euid_lem a b euid p.uid q plain within.0 h))
      within

set_rgid_lem : (a b : ℕ) (r : ℤ) (p : Task) → Within a b p → OnSome (Within a b) (set_rgid r p)
unfolding set_rgid
set_rgid_lem a b (negsuc n) p within = OnSome-some (Within a b) p within
set_rgid_lem a b (pos zero) p within = OnSome-some (Within a b) p within
set_rgid_lem a b (pos (suc n)) p within =
    OnSome-if (Within a b) ((p.gid == suc n) || (p.euid == 0)) (record p { gid = to_short (suc n) })
      (λ ok. within)

set_egid_lem : (a b : ℕ) (r : ℤ) (p : Task) → Within a b p → OnSome (Within a b) (set_egid r p)
unfolding set_egid
set_egid_lem a b (negsuc n) p within = OnSome-some (Within a b) p within
set_egid_lem a b (pos zero) p within = OnSome-some (Within a b) p within
set_egid_lem a b (pos (suc n)) p within =
    OnSome-if (Within a b)
      ((p.gid == suc n) || (p.egid == suc n) || (p.sgid == suc n) || (p.euid == 0))
      (record p { egid = to_short (suc n) }) (λ ok. within)

setregid-Within :
    (a b : ℕ) (rgid egid : ℤ) (p : Task) → Within a b p → Within a b (sys_setregid rgid egid p).1
unfolding sys_setregid
setregid-Within a b rgid egid p within =
    and_then_lem (Within a b) (set_rgid rgid p) (λ q. or_eperm q (set_egid egid q)) (eperm, p)
      (set_rgid_lem a b rgid p within)
      (λ q h. or_eperm_lem (Within a b) q (set_egid egid q) h (set_egid_lem a b egid q h)) within

set_pgrp-Within :
    (a b : ℕ) (me : Task) (pgid : ℤ) (p : Task)
    → Within a b p
    → OnSome (Within a b) (set_pgrp me pgid p)
unfolding set_pgrp
set_pgrp-Within a b me pgid p within =
    OnSome-unless (Within a b) (not (p.leader == 0) || not (eq_ℤ p.session me.session))
      (record p { pgrp = pgid }) within

Step-Within : (a b : ℕ) {p q : Task} → Plain a b → Step p q → Within a b p → Within a b q
unfolding sys_setuid sys_setgid sys_setsid sys_umask sys_brk
Step-Within a b {p} plain (setreuid ruid euid) within = setreuid-Within a b ruid euid p plain within
Step-Within a b {p} plain (setuid uid) within = setreuid-Within a b uid uid p plain within
Step-Within a b {p} plain (setregid rgid egid) within = setregid-Within a b rgid egid p within
Step-Within a b {p} plain (setgid gid) within = setregid-Within a b gid gid p within
Step-Within a b {p} plain setsid within =
    if_both (Within a b) (not (p.leader == 0) && not (p.euid == 0)) (eperm, p)
      (p.pid, record p { leader = 1; session = p.pid; pgrp = p.pid; tty = negsuc 0 }) within within
Step-Within a b {p} {q} plain (setpgid me pgid e) within = set_pgrp-Within a b me pgid p within q e
Step-Within a b plain (umask mask) within = within
Step-Within a b {p} plain (brk e) within =
    if_both (Within a b) (leb p.end_code e && ltb e ((p.start_stack + 2 ^ 32 - 16384) % 2 ^ 32))
      (e, record p { brk = e }) (p.brk, p) within within

-- A task whose real and effective users, of 16 bits, are `uid` and `euid`, neither of them the
-- super-user, has no other real or effective user after any sequence of the calls of kernel/sys.c.
pub Reach-Within : {p q : Task} → Plain p.uid p.euid → Reach p q → Within p.uid p.euid q
Reach-Within plain start = (inl refl, inr refl)
Reach-Within {p} plain (next reach step) =
    Step-Within p.uid p.euid plain step (Reach-Within plain reach)
