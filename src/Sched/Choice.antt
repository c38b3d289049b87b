-- ===== src/Sched/Choice.antt =====
-- Which task `schedule` (kernel/sched.c) chooses, and that its loop ends.
use mathlib.Core.Option
use native.Mathlib.Decide.{dec_lt}
use liha_linux.Base.{
  ◌&&◌, ◌<◌, ◌==◌, ==_pos, Bool-cases, Option, ap, arith, false, if◌then◌else◌, inl, inr, leb, ltb,
  none, refl, some, subst, suc, sym, true, zero, ℕ, ◌∙◌, ◌≡◌, ◌≤◌, ◌⊎◌,
}
use liha_linux.Task.{for_tasks, for_tasks_lem, is_running, Task, TaskTable}
use liha_linux.Sched.{settle, refill, choose, above, consider, select, candidate}

-- No running task among 1 to `n` has a counter above `c`.
abbrev pub NoneAbove : TaskTable → ℕ → Option ℕ → Type 0
NoneAbove t n c =
    (j : ℕ) (p : Task)
    → 1 ≤ j
    → j ≤ n
    → t j ≡ some p
    → is_running p.state ≡ true
    → above c p.counter ≡ false

-- Task `i` is a running task with the largest counter among the running tasks 1 to `n`.
pub record Best (t : TaskTable) (n i : ℕ) (p : Task) : Type 0 where
  pub in_range : (1 ≤ i) × (i ≤ n)
  pub there : t i ≡ some p
  pub runs : is_running p.state ≡ true
  pub largest : NoneAbove t n (some p.counter)

above_same : (a : ℕ) → above (some a) a ≡ false
above_same a = ground arith

above_other :
    (c : Option ℕ) (a b : ℕ) → above c a ≡ true → above c b ≡ false → above (some a) b ≡ false
above_other none a b p q = cc
above_other (some c) a b p q = ground arith

above_trans :
    (c : Option ℕ) (a b : ℕ) → above c a ≡ true → above (some a) b ≡ true → above c b ≡ true
above_trans none a b p q = refl
above_trans (some c) a b p q = ground arith

above_asym : (a b : ℕ) → above (some a) b ≡ true → above (some b) a ≡ false
above_asym a b p = ground arith

some_eq : (p q : Task) → some p ≡ some q → p ≡ q
some_eq p q e = cc

abbrev NotAbove : Option Task → Option ℕ → Type 0
NotAbove o c = (p : Task) → o ≡ some p → is_running p.state ≡ true → above c p.counter ≡ false

extend :
    (t : TaskTable) (n : ℕ) (c : Option ℕ)
    → NoneAbove t n c
    → NotAbove (t (suc n)) c
    → NoneAbove t (suc n) c
extend t n c below here j p lo hi at runs = elim (Bool-cases (j == suc n)) [
  | inl last ↦ let e : j ≡ suc n = ground arith in here p (ap t (sym e) ∙ at) runs
  | inr before ↦ below j p lo (ground arith) at runs
]

consider_lem :
    (o : Option Task) (i : ℕ) (c : Option ℕ) (next : ℕ)
    → ((consider o i c next ≡ (c, next)) × NotAbove o c)
      ⊎ ((p : Task) × (o ≡ some p)
          × (consider o i c next ≡ (some p.counter, i))
          × (is_running p.state ≡ true)
          × (above c p.counter ≡ true))
unfolding consider
consider_lem none i c next = inl (refl, λ p e. cc)
consider_lem (some p) i c next = elim (Bool-cases (candidate c p)) [
  | inl best ↦ inr (p, refl, rw best, ground arith, ground arith)
  | inr other ↦ inl (
    rw other,
    λ q e runs.
        let same : p ≡ q = some_eq p q e in
        subst (λ r. above c r.counter ≡ false) same
          (passed p c other (subst (λ r. is_running r.state ≡ true) (sym same) runs)),
  )
]
  where
    passed :
        (p : Task) (c : Option ℕ)
        → candidate c p ≡ false
        → is_running p.state ≡ true
        → above c p.counter ≡ false
    passed p c other runs = ground arith

abbrev Selected : TaskTable → ℕ → Option ℕ → ℕ → Option ℕ × ℕ → Type 0
Selected t n c next out =
    ((out ≡ (c, next)) × NoneAbove t n c)
    ⊎ ((i : ℕ) × (p : Task) × (out ≡ (some p.counter, i))
        × Best t n i p
        × (above c p.counter ≡ true))

-- `select` from `c` and `next` keeps them if no running task is above `c`; else it takes the best.
select_lem :
    (n : ℕ) (t : TaskTable) (c : Option ℕ) (next : ℕ) → Selected t n c next (select n t c next)
unfolding select
select_lem zero t c next = inl (refl, λ j p lo hi. absurd (omega arith))
select_lem (suc n) t c next = elim (consider_lem (t (suc n)) (suc n) c next) [
  | inl (e, here) ↦
      subst (λ r. Selected t (suc n) c next (select n t r.0 r.1)) (sym e)
        (elim (select_lem n t c next) [
          | inl (f, below) ↦ inl (f, extend t n c below here)
          | inr (i, p, f, best, ab) ↦ inr (
            i,
            p,
            f,
            record {
              in_range = omega (arith, best.in_range);
              there = best.there;
              runs = best.runs;
              largest =
                  extend t n (some p.counter) best.largest
                    (λ q at runs. above_other c p.counter q.counter ab (here q at runs));
            },
            ab,
          )
        ])
  | inr (p, at, e, runs, ab) ↦
      subst (λ r. Selected t (suc n) c next (select n t r.0 r.1)) (sym e)
        (elim (select_lem n t (some p.counter) (suc n)) [
          | inl (f, below) ↦ inr (
            suc n,
            p,
            f,
            record {
              in_range = omega arith;
              there = at;
              runs = runs;
              largest = extend t n (some p.counter) below (λ q at' _.
                  subst (λ r. above (some p.counter) r.counter ≡ false) (some_eq p q (sym at ∙ at'))
                    (above_same p.counter));
            },
            ab,
          )
          | inr (i, q, f, best, ab') ↦ inr (
            i,
            q,
            f,
            record {
              in_range = omega (arith, best.in_range);
              there = best.there;
              runs = best.runs;
              largest = extend t n (some q.counter) best.largest (λ (r : Task) at' _.
                  subst (λ r. above (some q.counter) r.counter ≡ false) (some_eq p r (sym at ∙ at'))
                    (above_asym p.counter q.counter ab'));
            },
            above_trans c p.counter q.counter ab ab',
          )
        ])
]

abbrev pub refilled : TaskTable → TaskTable
refilled t = for_tasks 63 refill t

-- What `choose` returns: the idle task, the best task that has a time slice left, or, when all
-- slices are used up, the best task after a refill.
pub data Chosen (t : TaskTable) : ℕ × TaskTable → Type 0 where
  idle : NoneAbove t 63 none → Chosen t (0, t)
  best : (i : ℕ) (p : Task) → Best t 63 i p → 0 < p.counter → Chosen t (i, t)
  refreshed :
      (i j : ℕ) (p q : Task)
      → Best t 63 j q
      → q.counter ≡ 0
      → Best (refilled t) 63 i p
      → 0 < p.counter
      → Chosen t (i, refilled t)

abbrev pub HasPriority : TaskTable → Type 0
HasPriority t = (j : ℕ) (p : Task) → t j ≡ some p → 0 < p.priority

refilled_at :
    (t : TaskTable) (j : ℕ) (p : Task)
    → (1 ≤ j) × (j ≤ 63)
    → t j ≡ some p
    → refilled t j ≡ some (refill p)
refilled_at t j p inside at =
    let here : (ltb 0 j && leb j 63) ≡ true = ground arith in
    for_tasks_lem 63 refill t j
    ∙ ap (λ b. if b then Option.map refill (t j) else t j) here
    ∙ ap (Option.map refill) at

-- A table with a running task that has a time slice is chosen from at once.
choose_now :
    (fuel : ℕ) (t : TaskTable) (i : ℕ) (p : Task)
    → select 63 t none 0 ≡ (some p.counter, i)
    → 0 < p.counter
    → choose (suc fuel) t ≡ some (i, t)
unfolding choose
choose_now fuel t i p e some_left =
    ap (settle (choose fuel (refilled t)) t) e ∙ rw (==_pos p.counter some_left) refl

choose_idle :
    (fuel : ℕ) (t : TaskTable) → select 63 t none 0 ≡ (none, 0) → choose (suc fuel) t ≡ some (0, t)
unfolding choose
choose_idle fuel t e = ap (settle (choose fuel (refilled t)) t) e

choose_again :
    (fuel : ℕ) (t : TaskTable) (i n : ℕ)
    → select 63 t none 0 ≡ (some n, i)
    → n ≡ 0
    → choose (suc fuel) t ≡ choose fuel (refilled t)
unfolding choose
choose_again fuel t i n e z =
    let done : (n == 0) ≡ true = ground arith in
    ap (settle (choose fuel (refilled t)) t) e ∙ rw done refl

-- Where every task has a positive priority, two rounds are enough.
pub choose-Chosen :
    (fuel : ℕ) (t : TaskTable)
    → HasPriority t
    → (out : ℕ × TaskTable) × (choose (suc (suc fuel)) t ≡ some out) × Chosen t out
unfolding refill
choose-Chosen fuel t prio = elim (select_lem 63 t none 0) [
  | inl (e, below) ↦ ((0, t), choose_idle (suc fuel) t e, idle below)
  | inr (j, q, e, top, _) ↦ elim (dec_lt 0 q.counter) [
    | yes left ↦ ((j, t), choose_now (suc fuel) t j q e left, best j q top left)
    | no spent ↦
        let zero_left : q.counter ≡ 0 = omega arith in
        let at = refilled_at t j q top.in_range top.there in
        elim (select_lem 63 (refilled t) none 0) [
          | inl (_, below) ↦
              let clash : true ≡ false =
                below j (refill q) top.in_range.0 top.in_range.1 at top.runs in
              cc clash
          | inr (i, p, f, new, _) ↦
              let fresh : 0 < p.counter =
                (let notless = new.largest j (refill q) top.in_range.0 top.in_range.1 at top.runs in
                  let pos = prio j q top.there in ground arith) in
              (
                (i, refilled t),
                choose_again (suc fuel) t j q.counter e zero_left
                    ∙ choose_now fuel (refilled t) i p f fresh,
                refreshed i j p q top zero_left new fresh,
              )
        ]
  ]
]
