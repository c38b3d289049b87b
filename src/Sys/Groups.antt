-- ===== src/Sys/Groups.antt =====
-- `sys_setpgid` (kernel/sys.c): whose process group it changes.
use liha_linux.Base.{
  ◌+◌, ◌<◌, ◌==◌, Bool, Bool-cases, Option, ap, arith, eq_ℤ, false, inl, inr, none, not, pos, refl,
  some, subst, suc, sym, true, update, zero, ◌||◌, ℕ, ℤ, ◌∙◌, ◌≡◌, ◌≤◌,
}
use liha_linux.Task.{Task, TaskTable}
use liha_linux.Exit.{eperm, chosen_by}
use liha_linux.Sys.{if_zero, sys_setpgid, esrch, set_pgrp, find_pid}

module _ (me : Task) (pid pgid : ℤ) where
  abbrev pub is_it : Option Task → Bool
  is_it = chosen_by (λ p. eq_ℤ p.pid pid)

  -- Slot `j` holds the first task with the pid, from slot `i` on.
  pub record First (t : TaskTable) (i j : ℕ) (p : Task) : Type 0 where
    pub there : t j ≡ some p
    pub same : eq_ℤ p.pid pid ≡ true
    pub from : i ≤ j
    pub before : (k : ℕ) → i ≤ k → k < j → is_it (t k) ≡ false

  -- What `sys_setpgid` does with the slots `i` to `i + n - 1`.
  pub data Found (t : TaskTable) (n i : ℕ) : ℤ × TaskTable → Type 0 where
    missing : ((k : ℕ) → i ≤ k → k < i + n → is_it (t k) ≡ false) → Found t n i (esrch, t)
    leads :
        (j : ℕ) (p : Task)
        → First t i j p
        → j < i + n
        → (not (p.leader == 0) || not (eq_ℤ p.session me.session)) ≡ true
        → Found t n i (eperm, t)
    moved :
        (j : ℕ) (p : Task)
        → First t i j p
        → j < i + n
        → p.leader ≡ 0
        → eq_ℤ p.session me.session ≡ true
        → Found t n i (pos 0, update t j (some (record p { pgrp = pgid })))

  later_First :
      {t : TaskTable} {i j : ℕ} {p : Task}
      → is_it (t i) ≡ false
      → First t (i + 1) j p
      → First t i j p
  later_First {t} {i} {j} not_here f = record {
    there = f.there;
    same = f.same;
    from = let h : i ≤ j = omega (arith, f.from) in h;
    before = λ k low high. elim (Bool-cases (k == i)) [
      | inl here ↦ let e : k ≡ i = ground arith in ap (λ x. is_it (t x)) e ∙ not_here
      | inr other ↦ f.before k (let h : i + 1 ≤ k = ground arith in h) high
    ];
  }

  later :
      {t : TaskTable} {n i : ℕ} {out : ℤ × TaskTable}
      → is_it (t i) ≡ false
      → Found t n (i + 1) out
      → Found t (suc n) i out
  later {t} {n} {i} not_here (missing none_of) = missing (λ k low high. elim (Bool-cases (k == i)) [
    | inl here ↦ let e : k ≡ i = ground arith in ap (λ x. is_it (t x)) e ∙ not_here
    | inr other ↦ none_of k (let h : i + 1 ≤ k = ground arith in h) (omega arith)
  ])
  later not_here (leads j p f in_range bad) = leads j p (later_First not_here f) (omega arith) bad
  later not_here (moved j p f in_range l s) = moved j p (later_First not_here f) (omega arith) l s

  module _ (n i : ℕ) (t : TaskTable) where
    find_pid-none : t i ≡ none → find_pid me pid pgid (suc n) i t ≡ find_pid me pid pgid n (i + 1) t
    unfolding find_pid
    find_pid-none at = rw (at, find_pid) refl

    find_pid-other :
        (p : Task)
        → t i ≡ some p
        → eq_ℤ p.pid pid ≡ false
        → find_pid me pid pgid (suc n) i t ≡ find_pid me pid pgid n (i + 1) t
    unfolding find_pid
    find_pid-other p at other = rw (at, other, find_pid) refl

    find_pid-moved :
        (p : Task)
        → t i ≡ some p
        → eq_ℤ p.pid pid ≡ true
        → (not (p.leader == 0) || not (eq_ℤ p.session me.session)) ≡ false
        → find_pid me pid pgid (suc n) i t ≡ (pos 0, update t i (some (record p { pgrp = pgid })))
    unfolding find_pid set_pgrp
    find_pid-moved p at same ok = rw (at, same, ok, find_pid) refl

    find_pid-leads :
        (p : Task)
        → t i ≡ some p
        → eq_ℤ p.pid pid ≡ true
        → (not (p.leader == 0) || not (eq_ℤ p.session me.session)) ≡ true
        → find_pid me pid pgid (suc n) i t ≡ (eperm, t)
    unfolding find_pid set_pgrp
    find_pid-leads p at same bad = rw (at, same, bad, find_pid) refl

  at_once :
      (t : TaskTable) (i : ℕ) (p : Task) → t i ≡ some p → eq_ℤ p.pid pid ≡ true → First t i i p
  at_once t i p at same = record {
    there = at;
    same = same;
    from = omega arith;
    before = λ k low high. absurd (omega arith);
  }

  at_slot :
      (n i : ℕ) (t : TaskTable)
      → Found t n (i + 1) (find_pid me pid pgid n (i + 1) t)
      → (o : Option Task) → t i ≡ o
      → Found t (suc n) i (find_pid me pid pgid (suc n) i t)
  at_slot n i t ih none at =
      subst (λ out. Found t (suc n) i out) (sym (find_pid-none n i t at)) (later (ap is_it at) ih)
  at_slot n i t ih (some p) at = elim (Bool-cases (eq_ℤ p.pid pid)) [
    | inr other ↦
        subst (λ out. Found t (suc n) i out) (sym (find_pid-other n i t p at other))
          (later (ap is_it at ∙ other) ih)
    | inl same ↦ elim (Bool-cases (not (p.leader == 0) || not (eq_ℤ p.session me.session))) [
      | inl bad ↦
          subst (λ out. Found t (suc n) i out) (sym (find_pid-leads n i t p at same bad))
            (leads i p (at_once t i p at same) (omega arith) bad)
      | inr ok ↦
          subst (λ out. Found t (suc n) i out) (sym (find_pid-moved n i t p at same ok))
            (moved i p (at_once t i p at same) (omega arith) (ground arith) (ground arith))
    ]
  ]

  find_pid-Found : (n i : ℕ) (t : TaskTable) → Found t n i (find_pid me pid pgid n i t)
  unfolding find_pid
  find_pid-Found zero i t = missing (λ k low high. absurd (omega arith))
  find_pid-Found (suc n) i t = at_slot n i t (find_pid-Found n (i + 1) t) (t i) refl

-- `sys_setpgid`, with the caller for a pid or a group of 0, takes the first task with the pid: if the
-- task is a session leader or of another session than the caller, the call fails with -EPERM, else
-- the task's process group is set, and no other task changes; with no such task it fails with -ESRCH.
pub sys_setpgid-Found :
    (me : Task) (pid pgid : ℤ) (t : TaskTable)
    → Found me (if_zero pid me.pid) (if_zero pgid me.pid) t 64 0 (sys_setpgid me pid pgid t)
unfolding sys_setpgid
sys_setpgid-Found me pid pgid t =
    find_pid-Found me (if_zero pid me.pid) (if_zero pgid me.pid) 64 0 t
