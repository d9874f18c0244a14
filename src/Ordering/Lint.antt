-- ===== src/Ordering/Lint.antt =====
-- A plan without an issue is what the schedulers need, and the other way round.
use dev_team.Prelude.{
  ltb, ℕ, ◌≤◌, String, ◌≡◌, refl, ◌≢◌, ◌↔◌, true, false, not, ◌&&◌, List, [], ◌∷◌, ◌++◌, arith,
  eq_iff, if◌then◌else◌, all, All, is_empty, elem, distinct, length,
}
use mathlib.Core.List.{cons≢nil}
use dev_team.Models.{Task, Plan, ids}
use dev_team.Ordering.{
  Sorted, ordered, cycle, out_of_fuel, topological_order, tasks_in_cycle, too_many_tasks,
  max_plan_tasks, duplicate_issues, dependency_issues, task_issues, all_task_issues, cycle_issues,
  lint_tasks, lint_plan,
}
use dev_team.Ordering.Agreement.{cycle_ids, tasks_in_cycle-topological_order}
use dev_team.Ordering.Loop.{topological_order-ne-out_of_fuel}
use dev_team.Ordering.Cycles.{topological_order-Deadlocked}

-- A list is empty exactly when both of its parts are.
append-eq-nil {ℓ} : {A : Type ℓ} (xs ys : List A) → (xs ++ ys ≡ []) ↔ ((xs ≡ []) × (ys ≡ []))
append-eq-nil [] ys = (λ e. (refl, e), λ p. p.1)
append-eq-nil (x ∷ xs) ys = (λ e. cc, λ p. cc)

append₄-eq-nil {ℓ} :
    {A : Type ℓ} (xs ys zs ws : List A)
    → (xs ++ (ys ++ (zs ++ ws)) ≡ []) ↔ ((xs ≡ []) × (ys ≡ []) × (zs ≡ []) × (ws ≡ []))
append₄-eq-nil [] [] [] ws = (λ e. (refl, refl, refl, e), λ p. p.3)
append₄-eq-nil (x ∷ xs) ys zs ws = (λ e. cc, λ p. cc)
append₄-eq-nil [] (y ∷ ys) zs ws = (λ e. cc, λ p. cc)
append₄-eq-nil [] [] (z ∷ zs) ws = (λ e. cc, λ p. cc)

distinct_of_both :
    (xs : List String) → (distinct xs && all (λ y. not (elem y [])) xs) ≡ true → distinct xs ≡ true
distinct_of_both xs h = ground arith

pub all-unseen-cons :
    (x : String) (seen ys : List String)
    → all (λ y. not (elem y (x ∷ seen))) ys ≡ (not (elem x ys) && all (λ y. not (elem y seen)) ys)
unfolding all elem
all-unseen-cons x seen [] = refl
all-unseen-cons x seen (y ∷ ys) = ground (arith, all-unseen-cons x seen ys, eq_iff x y, eq_iff y x)

pub all-unseen-nil : (ys : List String) → all (λ y. not (elem y [])) ys ≡ true
unfolding all elem
all-unseen-nil [] = refl
all-unseen-nil (y ∷ ys) = all-unseen-nil ys

duplicate_issues_iff :
    (seen : List String) (tasks : List Task)
    → (duplicate_issues seen tasks ≡ [])
      ↔ ((distinct (ids tasks) && all (λ y. not (elem y seen)) (ids tasks)) ≡ true)
unfolding duplicate_issues distinct all
duplicate_issues_iff seen [] = (λ _. refl, λ _. refl)
duplicate_issues_iff seen (t ∷ ts) =
    let (there, back) = duplicate_issues_iff (t.id ∷ seen) ts in
    ground (arith, all-unseen-cons t.id seen (ids ts))

-- Each dependency is on a task of the plan, and not on the task itself.
abbrev pub GoodDependencies : List String → String → List String → Type 0
GoodDependencies known tid deps = All (λ dep. (dep ≢ tid) × (elem dep known ≡ true)) deps

dependency_issues_iff :
    (known : List String) (tid : String) (deps : List String)
    → (dependency_issues known tid deps ≡ []) ↔ GoodDependencies known tid deps
unfolding dependency_issues
dependency_issues_iff known tid [] = (λ _. tt, λ _. refl)
dependency_issues_iff known tid (dep ∷ deps) =
    let (there, back) = dependency_issues_iff known tid deps in ground (arith, eq_iff dep tid)

-- What the linter asks of one task.
abbrev pub GoodTask : List String → Task → Type 0
GoodTask known t =
    (is_empty t.acceptance_criteria ≡ false) × GoodDependencies known t.id t.dependencies

task_issues_iff : (known : List String) (t : Task) → (task_issues known t ≡ []) ↔ GoodTask known t
unfolding task_issues
task_issues_iff known t =
    let (there, back) = dependency_issues_iff known t.id t.dependencies in ground arith

all_task_issues_iff :
    (known : List String) (tasks : List Task)
    → (all_task_issues known tasks ≡ []) ↔ All (GoodTask known) tasks
unfolding all_task_issues
all_task_issues_iff known [] = (λ _. tt, λ _. refl)
all_task_issues_iff known (t ∷ ts) =
    let (one, one') = task_issues_iff known t in
    let (more, more') = all_task_issues_iff known ts in
    let (split, join) = append-eq-nil (task_issues known t) (all_task_issues known ts) in
    (λ e. (one (split e).0, more (split e).1), λ h. join (one' h.0, more' h.1))

-- A plan that the schedulers can run.
pub record IsClean (tasks : List Task) : Type 0 where
  pub some_tasks : tasks ≢ []
  pub few : length tasks ≤ max_plan_tasks
  pub unique : distinct (ids tasks) ≡ true
  pub good : All (GoodTask (ids tasks)) tasks
  pub sorted : (out : List Task) × (topological_order tasks ≡ ordered out)

-- A cycle error names some task, so its message is not left out.
sorted_iff :
    (r : Sorted)
    → r ≢ out_of_fuel
    → ((l : List String) → r ≡ cycle l → l ≢ [])
    → (cycle_issues (cycle_ids r) ≡ []) ↔ ((out : List Task) × (r ≡ ordered out))
unfolding cycle_issues
sorted_iff (ordered out) total named = (λ _. (out, refl), λ _. refl)
sorted_iff (cycle []) total named = absurd (named [] refl refl)
sorted_iff (cycle (x ∷ xs)) total named = (λ e. cc, λ (out, e). cc)
sorted_iff out_of_fuel total named = absurd (total refl)

cycle_issues_iff :
    (tasks : List Task)
    → (cycle_issues (tasks_in_cycle tasks (ids tasks)) ≡ [])
      ↔ ((out : List Task) × (topological_order tasks ≡ ordered out))
cycle_issues_iff tasks = rw (tasks_in_cycle-topological_order tasks) (
    sorted_iff (topological_order tasks) (topological_order-ne-out_of_fuel tasks)
      (λ l e. (topological_order-Deadlocked tasks l e).0))

size_issues_iff :
    (n : ℕ)
    → ((if ltb max_plan_tasks n then too_many_tasks n ∷ [] else []) ≡ []) ↔ (n ≤ max_plan_tasks)
size_issues_iff n = ground arith

lint_tasks_iff : (tasks : List Task) → (lint_tasks tasks ≡ []) ↔ IsClean tasks
unfolding lint_tasks
lint_tasks_iff [] = (λ e. cc, λ clean. absurd (clean.some_tasks refl))
lint_tasks_iff (t ∷ ts) =
    let tasks = t ∷ ts in
    let known = ids tasks in
    let (few, few') = size_issues_iff (length tasks) in
    let (once, once') = duplicate_issues_iff [] tasks in
    let (good, good') = all_task_issues_iff known tasks in
    let (sorts, sorts') = cycle_issues_iff tasks in
    (
      λ e.
          let (a, b, c, d) = (append₄-eq-nil _ _ _ _).0 e in
          record {
            some_tasks = λ none_given. cons≢nil none_given;
            few = few a;
            unique = distinct_of_both (ids tasks) (once b);
            good = good c;
            sorted = sorts d;
          },
      λ clean. (append₄-eq-nil _ _ _ _).1 (
        few' clean.few,
        once' (rw (clean.unique, all-unseen-nil known)),
        good' clean.good,
        sorts' clean.sorted,
      ),
    )

-- The linter finds no issue exactly in a plan of one to `MAX_PLAN_TASKS` tasks with distinct ids,
-- each with acceptance criteria and with dependencies on other tasks of the plan only, which
-- `topological_order` can sort.
pub lint_plan_iff : (plan : Plan) → (lint_plan plan ≡ []) ↔ IsClean plan.tasks
unfolding lint_plan
lint_plan_iff plan = lint_tasks_iff plan.tasks
