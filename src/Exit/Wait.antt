-- ===== src/Exit/Wait.antt =====
-- One pass of `sys_waitpid` (kernel/exit.c): which child it finds, and what it returns.
use liha_linux.Base.{
  ◌<◌, ◌==◌, Bool, Bool-cases, Option, ap, arith, false, if◌then◌else◌, inl, inr, none, pos, refl,
  some, subst, suc, sym, true, zero, ℕ, ℤ, ◌∙◌, ◌≡◌, ◌≤◌,
}
use liha_linux.Task.{
  Task, TaskState, TaskTable, modify, running, interruptible, uninterruptible, stopped, zombie,
}
use liha_linux.Exit.{
  Options, Scan, scan, inspect, stopped_at, zombie_at, ended, is_wanted, Waited, returned, sleeping,
  reap, sys_waitpid, after_scan, with_child, echild,
}

some_same : (p q : Task) → some p ≡ some q → p ≡ q
some_same p q e = cc

module _ (current : ℕ) (me : Task) (pid : ℤ) (o : Options) where
  -- `sys_waitpid` returns for a child in this state.
  abbrev pub ends_wait : TaskState → Bool
  ends_wait stopped = o.wuntraced
  ends_wait zombie = true
  ends_wait _ = false

  -- A child in this state is worth waiting for.
  abbrev pub runs_on : TaskState → Bool
  runs_on stopped = false
  runs_on zombie = false
  runs_on _ = true

  abbrev pub Among : TaskTable → ℕ → Task → Type 0
  Among t j q = (t j ≡ some q) × (is_wanted current me pid j q ≡ true)

  -- No wanted task above `i`, up to `n`, passes the test.
  abbrev pub NoneOf : (TaskState → Bool) → TaskTable → ℕ → ℕ → Type 0
  NoneOf test t i n = (j : ℕ) (q : Task) → i < j → j ≤ n → Among t j q → test q.state ≡ false

  pub record Child (t : TaskTable) (n i : ℕ) (p : Task) : Type 0 where
    pub in_range : (1 ≤ i) × (i ≤ n)
    pub wanted : Among t i p

  -- What the loop over the tasks `n` to 1 finds.
  pub data Scanned (t : TaskTable) (n : ℕ) (flag : Bool) : Scan → Type 0 where
    at_stopped :
        (i : ℕ) (p : Task)
        → Child t n i p
        → p.state ≡ stopped
        → NoneOf ends_wait t i n
        → o.wuntraced ≡ true
        → Scanned t n flag (stopped_at i)
    at_zombie :
        (i : ℕ) (p : Task)
        → Child t n i p
        → p.state ≡ zombie
        → NoneOf ends_wait t i n
        → Scanned t n flag (zombie_at i)
    nothing : NoneOf ends_wait t 0 n → NoneOf runs_on t 0 n → Scanned t n flag (ended flag)
    waiting :
        (i : ℕ) (p : Task)
        → Child t n i p
        → runs_on p.state ≡ true
        → NoneOf ends_wait t 0 n
        → Scanned t n flag (ended true)

  -- The top task fails the test.
  abbrev NotTop : (TaskState → Bool) → TaskTable → ℕ → Type 0
  NotTop test t n = (q : Task) → Among t n q → test q.state ≡ false

  more :
      (test : TaskState → Bool) (t : TaskTable) (i n : ℕ)
      → NotTop test t (suc n)
      → NoneOf test t i n
      → NoneOf test t i (suc n)
  more test t i n top none_of j q above inside among = elim (Bool-cases (j == suc n)) [
    | inl last ↦ let e : j ≡ suc n = ground arith in top q (subst (λ x. Among t x q) e among)
    | inr other ↦ none_of j q above (let low : j ≤ n = ground arith in low) among
  ]

  higher : {t : TaskTable} {n i : ℕ} {p : Task} → Child t n i p → Child t (suc n) i p
  higher c = record { in_range = omega (arith, c.in_range); wanted = c.wanted }

  -- A top task that neither ends the wait nor runs on.
  skip :
      {t : TaskTable} (n : ℕ) {flag : Bool} {s : Scan}
      → NotTop ends_wait t (suc n)
      → NotTop runs_on t (suc n)
      → Scanned t n flag s
      → Scanned t (suc n) flag s
  skip {t} n dull dull' (at_stopped i p c st above u) =
      at_stopped i p (higher c) st (more ends_wait t i n dull above) u
  skip {t} n dull dull' (at_zombie i p c st above) =
      at_zombie i p (higher c) st (more ends_wait t i n dull above)
  skip {t} n dull dull' (nothing above below) =
      nothing (more ends_wait t 0 n dull above) (more runs_on t 0 n dull' below)
  skip {t} n dull dull' (waiting i p c st above) =
      waiting i p (higher c) st (more ends_wait t 0 n dull above)

  -- A top task that runs on.
  flagged :
      {t : TaskTable} (n : ℕ) {flag : Bool} {s : Scan} (p : Task)
      → Child t (suc n) (suc n) p
      → runs_on p.state ≡ true
      → NotTop ends_wait t (suc n)
      → Scanned t n true s
      → Scanned t (suc n) flag s
  flagged {t} n p c st dull (at_stopped i q d e above u) =
      at_stopped i q (higher d) e (more ends_wait t i n dull above) u
  flagged {t} n p c st dull (at_zombie i q d e above) =
      at_zombie i q (higher d) e (more ends_wait t i n dull above)
  flagged {t} n p c st dull (nothing above below) =
      waiting (suc n) p c st (more ends_wait t 0 n dull above)
  flagged {t} n p c st dull (waiting i q d e above) =
      waiting i q (higher d) e (more ends_wait t 0 n dull above)

  no_task_above : (test : TaskState → Bool) (t : TaskTable) (n : ℕ) → NoneOf test t n n
  no_task_above test t n j q above inside = absurd (omega arith)

  -- The top task is the only one there.
  only :
      (t : TaskTable) (test : TaskState → Bool) (n : ℕ) (p : Task)
      → t n ≡ some p
      → test p.state ≡ false
      → NotTop test t n
  only t test n p at quiet q among =
      let same : p ≡ q = some_same p q (sym at ∙ among.0) in
      subst (λ (r : Task). test r.state ≡ false) same quiet

  -- A live child on top.
  live :
      {t : TaskTable} (n : ℕ) {flag : Bool} {r : Scan} (p : Task) (s : TaskState)
      → p.state ≡ s
      → runs_on s ≡ true
      → ends_wait s ≡ false
      → Child t (suc n) (suc n) p
      → Scanned t n true r
      → Scanned t (suc n) flag r
  live {t} n p s e runs stays c ih =
      flagged n p c (ap runs_on e ∙ runs)
        (only t ends_wait (suc n) p c.wanted.0 (ap ends_wait e ∙ stays)) ih

  inspected :
      {t : TaskTable} (n : ℕ) (flag : Bool) (p : Task) (s : TaskState)
      → p.state ≡ s
      → Child t (suc n) (suc n) p
      → (rest : Bool → Scan) → ((f : Bool) → Scanned t n f (rest f))
      → Scanned t (suc n) flag (inspect o (suc n) s flag rest)
  unfolding inspect
  inspected {t} n flag p running e c rest ih = live n p running e refl refl c (ih true)
  inspected {t} n flag p interruptible e c rest ih = live n p interruptible e refl refl c (ih true)
  inspected {t} n flag p uninterruptible e c rest ih =
      live n p uninterruptible e refl refl c (ih true)
  inspected {t} n flag p zombie e c rest ih =
      at_zombie (suc n) p c e (no_task_above ends_wait t (suc n))
  inspected {t} n flag p stopped e c rest ih = elim (Bool-cases o.wuntraced) [
    | inl traced ↦
        subst (λ b. Scanned t (suc n) flag (if b then stopped_at (suc n) else rest flag))
          (sym traced) (at_stopped (suc n) p c e (no_task_above ends_wait t (suc n)) traced)
    | inr untraced ↦
        subst (λ b. Scanned t (suc n) flag (if b then stopped_at (suc n) else rest flag))
          (sym untraced)
          (skip n (only t ends_wait (suc n) p c.wanted.0 (ap ends_wait e ∙ untraced))
            (only t runs_on (suc n) p c.wanted.0 (ap runs_on e)) (ih flag))
  ]

  unwanted :
      (t : TaskTable) (test : TaskState → Bool) (n : ℕ)
      → ((q : Task) → t n ≡ some q → is_wanted current me pid n q ≡ false)
      → NotTop test t n
  unwanted t test n out q among = let clash : true ≡ false = sym among.1 ∙ out q among.0 in cc clash

  module _ (n : ℕ) (flag : Bool) (t : TaskTable) where
    scan_empty :
        t (suc n) ≡ none → scan current me pid o (suc n) flag t ≡ scan current me pid o n flag t
    unfolding scan
    scan_empty at = rw (at, scan) refl

    scan_unwanted :
        (p : Task)
        → t (suc n) ≡ some p
        → is_wanted current me pid (suc n) p ≡ false
        → scan current me pid o (suc n) flag t ≡ scan current me pid o n flag t
    unfolding scan
    scan_unwanted p at out = rw (at, out, scan) refl

    scan_wanted :
        (p : Task)
        → t (suc n) ≡ some p
        → is_wanted current me pid (suc n) p ≡ true
        → scan current me pid o (suc n) flag t
          ≡ inspect o (suc n) p.state flag (λ f. scan current me pid o n f t)
    unfolding scan
    scan_wanted p at in_set = rw (at, in_set, scan) refl

  step :
      (n : ℕ) (flag : Bool) (t : TaskTable)
      → ((f : Bool) → Scanned t n f (scan current me pid o n f t))
      → (slot : Option Task) → t (suc n) ≡ slot
      → Scanned t (suc n) flag (scan current me pid o (suc n) flag t)
  step n flag t ih none at =
      subst (λ r. Scanned t (suc n) flag r) (sym (scan_empty n flag t at))
        (skip n
          (unwanted t ends_wait (suc n)
            (λ q e. absurd (let clash : none ≡ some q = sym at ∙ e in cc clash)))
          (unwanted t runs_on (suc n)
            (λ q e. absurd (let clash : none ≡ some q = sym at ∙ e in cc clash)))
          (ih flag))
  step n flag t ih (some p) at = elim (Bool-cases (is_wanted current me pid (suc n) p)) [
    | inl in_set ↦
        subst (λ r. Scanned t (suc n) flag r) (sym (scan_wanted n flag t p at in_set))
          (inspected n flag p p.state refl
            (record { in_range = omega arith; wanted = (at, in_set) })
            (λ f. scan current me pid o n f t) ih)
    | inr out ↦
        let out_of : (q : Task) → t (suc n) ≡ some q → is_wanted current me pid (suc n) q ≡ false =
          (λ q e.
            let same : p ≡ q = some_same p q (sym at ∙ e) in
            subst (λ r. is_wanted current me pid (suc n) r ≡ false) same out) in
        subst (λ r. Scanned t (suc n) flag r) (sym (scan_unwanted n flag t p at out))
          (skip n (unwanted t ends_wait (suc n) out_of) (unwanted t runs_on (suc n) out_of)
            (ih flag))
  ]

  scan-Scanned :
      (n : ℕ) (flag : Bool) (t : TaskTable) → Scanned t n flag (scan current me pid o n flag t)
  unfolding scan
  scan-Scanned zero flag t =
      nothing (λ j q up low. absurd (omega arith)) (λ j q up low. absurd (omega arith))
  scan-Scanned (suc n) flag t = step n flag t (λ f. scan-Scanned n f t) (t (suc n)) refl

  abbrev pub asleep : TaskTable → Waited
  asleep t = sleeping (modify t current (λ q. record q { state = interruptible }))

  -- What one pass of `sys_waitpid` does. It returns for the highest wanted task that ends the wait:
  -- with the status 0x7f for a stopped one, with the exit code for a zombie, which is released; if
  -- there is none, it waits or returns 0 if some wanted task runs on, else it fails.
  pub data Outcome (t : TaskTable) : Waited → Type 0 where
    reports :
        (i : ℕ) (p : Task)
        → Child t 63 i p
        → p.state ≡ stopped
        → NoneOf ends_wait t i 63
        → o.wuntraced ≡ true
        → Outcome t (returned p.pid (some 127) t)
    reaps :
        (i : ℕ) (p : Task)
        → Child t 63 i p
        → p.state ≡ zombie
        → NoneOf ends_wait t i 63
        → Outcome t (returned p.pid (some p.exit_code) (reap current i p t))
    fails_for_none :
        NoneOf ends_wait t 0 63 → NoneOf runs_on t 0 63 → Outcome t (returned echild none t)
    polls :
        (i : ℕ) (p : Task)
        → Child t 63 i p
        → runs_on p.state ≡ true
        → NoneOf ends_wait t 0 63
        → o.wnohang ≡ true
        → Outcome t (returned (pos 0) none t)
    waits :
        (i : ℕ) (p : Task)
        → Child t 63 i p
        → runs_on p.state ≡ true
        → NoneOf ends_wait t 0 63
        → o.wnohang ≡ false
        → Outcome t (asleep t)

  finish : {t : TaskTable} {s : Scan} → Scanned t 63 false s → Outcome t (after_scan current o t s)
  unfolding after_scan
  finish {t} (at_stopped i p c e above u) =
      subst
        (λ x. Outcome t (with_child x (λ q. returned q.pid (some 127) t) (returned echild none t)))
        (sym c.wanted.0) (reports i p c e above u)
  finish {t} (at_zombie i p c e above) =
      subst
        (λ x. Outcome t (
          with_child x (λ q. returned q.pid (some q.exit_code) (reap current i q t))
            (returned echild none t)))
        (sym c.wanted.0) (reaps i p c e above)
  finish (nothing above below) = fails_for_none above below
  finish {t} (waiting i p c runs above) = elim (Bool-cases o.wnohang) [
    | inl poll ↦
        subst (λ b. Outcome t (if b then returned (pos 0) none t else asleep t)) (sym poll)
          (polls i p c runs above poll)
    | inr wait ↦
        subst (λ b. Outcome t (if b then returned (pos 0) none t else asleep t)) (sym wait)
          (waits i p c runs above wait)
  ]

-- One pass of `sys_waitpid` looks at the tasks 63 to 1 and takes the first child that `pid` selects
-- and that is a zombie or, with WUNTRACED, stopped: its pid is returned, with the exit code of a
-- zombie, which is removed and whose times are added to the caller's, or 0x7f for a stopped one. With
-- no such child, it sleeps (or returns 0 with WNOHANG) exactly if some selected child is neither
-- stopped nor a zombie; else it returns -ECHILD.
pub sys_waitpid_lem :
    (current : ℕ) (me : Task) (pid : ℤ) (o : Options) (t : TaskTable)
    → Outcome current me pid o t (sys_waitpid current me pid o t)
unfolding sys_waitpid
sys_waitpid_lem current me pid o t =
    finish current me pid o (scan-Scanned current me pid o 63 false t)
