-- ===== src/Sched/Priority.antt =====
-- Changes of the table of tasks (kernel/sched.c) that keep every priority above 0.
use mathlib.Core.Option
use liha_linux.Base.{
  ◌&&◌, ◌<◌, ◌==◌, Bool, Bool-cases, Option, ap, arith, false, if◌then◌else◌, inl, inr, leb, ltb,
  none, refl, some, subst, sym, true, update, update_ne, update_self, ℕ, ◌∙◌, ◌≡◌, ◌≢◌,
}
use liha_linux.Task.{for_tasks, for_tasks_lem, Task, TaskTable, modify}
use liha_linux.Sched.Choice.{HasPriority}

abbrev pub Keeps : (Task → Task) → Type 0
Keeps f = (p : Task) → 0 < p.priority → 0 < (f p).priority

abbrev pub Positive : Option Task → Type 0
Positive o = (p : Task) → o ≡ some p → 0 < p.priority

map-Positive :
    (f : Task → Task) → Keeps f → (o : Option Task) → Positive o → Positive (Option.map f o)
map-Positive f keeps none pos_o p e = cc
map-Positive f keeps (some q) pos_o p e =
    let same : f q ≡ p = cc in subst (λ r. 0 < r.priority) same (keeps q (pos_o q refl))

pub modify-HasPriority :
    (f : Task → Task)
    → Keeps f
    → (t : TaskTable) (i : ℕ) → HasPriority t
    → HasPriority (modify t i f)
modify-HasPriority f keeps t i prio j p at = elim (Bool-cases (j == i)) [
  | inl same ↦
      let e : j ≡ i = ground arith in
      map-Positive f keeps (t i) (prio i) p
        (sym (ap (update t i (Option.map f (t i))) e ∙ update_self t i (Option.map f (t i))) ∙ at)
  | inr other ↦
      let ne : j ≢ i = ground arith in prio j p (sym (update_ne t i j (Option.map f (t i)) ne) ∙ at)
]

if-Positive :
    (f : Task → Task)
    → Keeps f
    → (b : Bool) (o : Option Task) → Positive o
    → Positive (if b then Option.map f o else o)
if-Positive f keeps true o pos_o = map-Positive f keeps o pos_o
if-Positive f keeps false o pos_o = pos_o

pub for_tasks-HasPriority :
    (f : Task → Task) → Keeps f → (t : TaskTable) → HasPriority t → HasPriority (for_tasks 63 f t)
for_tasks-HasPriority f keeps t prio j p at =
    if-Positive f keeps (ltb 0 j && leb j 63) (t j) (prio j) p (sym (for_tasks_lem 63 f t j) ∙ at)
