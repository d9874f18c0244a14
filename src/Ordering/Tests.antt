-- ===== src/Ordering/Tests.antt =====
-- Small plans, and the theorems about the planner at them.
use mathlib.Core.Bool.{false≢true}
use mathlib.Core.Path.{subst}
use mathlib.Core.List.{Perm}
use dev_team.Prelude.{
  ℕ, ◌<◌, String, ◌≡◌, refl, ◌↔◌, true, false, List, [], ◌∷◌, arith, elem, filter, all, distinct,
  eq_iff, ◌==◌, ◌||◌, sym, Bool-cases, inl, inr,
}
use dev_team.Prelude.Dict.{get, set, has}
use dev_team.Models.{Task, pending, Plan, ids}
use dev_team.Ordering.{
  ordered, cycle, dict_from, real_deps, deps_map, deps_of, is_ready, order_loop, topological_order,
  cycle_loop, tasks_in_cycle, self_dependency, unknown_dependency, dependency_cycle, duplicate_id,
  duplicate_issues, dependency_issues, task_issues, all_task_issues, cycle_issues, lint_tasks,
  lint_plan,
}
use dev_team.Ordering.Order.{Precedes, topological_order-perm, topological_order-Precedes}
use dev_team.Ordering.Cycles.{Deadlocked, IsRanked, topological_order-Deadlocked}
use dev_team.Ordering.Agreement.{cycle_ids, tasks_in_cycle-topological_order}
use dev_team.Ordering.Lint.{IsClean, lint_plan_iff}

abbrev pub task : String → List String → Task
task name deps = record {
  id = name;
  title = "t";
  description = "d";
  acceptance_criteria = "works" ∷ [];
  dependencies = deps;
  status = pending;
}

abbrev pub build : Task
build = task "build" ("design" ∷ "build" ∷ "elsewhere" ∷ [])

abbrev pub design : Task
design = task "design" []

abbrev pub ship : Task
ship = task "ship" ("build" ∷ "design" ∷ [])

abbrev pub given : List Task
given = ship ∷ build ∷ design ∷ []

abbrev pub sorted : List Task
sorted = design ∷ build ∷ ship ∷ []

abbrev pub loop : List Task
loop = design ∷ task "a" ("b" ∷ []) ∷ task "b" ("a" ∷ "design" ∷ []) ∷ []

pub topological_order-given : topological_order given ≡ ordered sorted
unfolding topological_order order_loop is_ready deps_of deps_map real_deps dict_from get set has
    elem filter all
topological_order-given = refl

topological_order-loop : topological_order loop ≡ cycle ("a" ∷ "b" ∷ [])
unfolding topological_order order_loop is_ready deps_of deps_map real_deps dict_from get set has
    elem filter all
topological_order-loop = refl

given-distinct : distinct (ids given) ≡ true
unfolding distinct elem
given-distinct = refl

topological_order-perm_example : Perm sorted given
topological_order-perm_example = topological_order-perm given sorted topological_order-given

topological_order-Precedes_example : Precedes (ids given) [] sorted
topological_order-Precedes_example =
    topological_order-Precedes given sorted given-distinct topological_order-given

topological_order-Deadlocked_example : Deadlocked (deps_map loop) ("a" ∷ "b" ∷ [])
topological_order-Deadlocked_example =
    topological_order-Deadlocked loop ("a" ∷ "b" ∷ []) topological_order-loop

rank : String → ℕ
rank name = elim (name == "ship") [
  | true ↦ 2
  | false ↦ elim (name == "build") [ true ↦ 1 | false ↦ 0 ]
]

rank_at : (name dep : String) (n : ℕ) → (name == dep) ≡ true → rank name < n → rank dep < n
rank_at name dep n e h = subst (λ k. rank k < n) ((eq_iff name dep).0 e) h

ship_unlike :
    (dep : String)
    → ("ship" == dep) ≡ true
    → (("design" == dep || ("build" == dep || ("elsewhere" == dep || false))) ≡ true)
    → ⊥
ship_unlike dep e h = false≢true (
    subst (λ k. ("design" == k || ("build" == k || ("elsewhere" == k || false))) ≡ true)
      (sym ((eq_iff "ship" dep).0 e)) h)

given-IsRanked : IsRanked rank given
unfolding rank elem
given-IsRanked = (
  λ dep m k d. elim (Bool-cases ("build" == dep)) [
    | inl e ↦ rank_at "build" dep 2 e (omega arith)
    | inr e ↦ rank_at "design" dep 2 (ground arith) (omega arith)
  ],
  (
    λ dep m k d.
        rank_at "design" dep 1
          (ground (arith, ship_unlike dep, eq_iff dep "build", eq_iff "build" dep)) (omega arith),
    (λ dep m k d. cc, tt),
  ),
)

tasks_in_cycle-topological_order_example :
    tasks_in_cycle loop (ids loop) ≡ cycle_ids (topological_order loop)
tasks_in_cycle-topological_order_example = tasks_in_cycle-topological_order loop

abbrev pub good_plan : Plan
good_plan = record { summary = "s"; tasks = ship ∷ task "build" ("design" ∷ []) ∷ design ∷ [] }

pub lint_plan-good_plan : lint_plan good_plan ≡ []
unfolding lint_plan lint_tasks duplicate_issues all_task_issues task_issues dependency_issues
    cycle_issues tasks_in_cycle cycle_loop dict_from is_ready deps_of real_deps get set has elem
    filter all
lint_plan-good_plan = refl

-- `good_plan` with its second task split.
abbrev pub halved : Plan
halved = record {
  summary = "s";
  tasks =
      task "ship" ("design-2" ∷ "half" ∷ "design" ∷ [])
      ∷ task "design-2" []
      ∷ task "half" ("design-2" ∷ [])
      ∷ design
      ∷ [];
}

pub lint_plan-halved : lint_plan halved ≡ []
unfolding lint_plan lint_tasks duplicate_issues all_task_issues task_issues dependency_issues
    cycle_issues tasks_in_cycle cycle_loop dict_from is_ready deps_of real_deps get set has elem
    filter all
lint_plan-halved = refl

lint_plan_issues :
    lint_plan (record { summary = "s"; tasks = build ∷ build ∷ loop })
    ≡ duplicate_id "build"
      ∷ self_dependency "build"
      ∷ unknown_dependency "build" "elsewhere"
      ∷ self_dependency "build"
      ∷ unknown_dependency "build" "elsewhere"
      ∷ dependency_cycle ("a" ∷ "b" ∷ [])
      ∷ []
unfolding lint_plan lint_tasks duplicate_issues all_task_issues task_issues dependency_issues
    cycle_issues tasks_in_cycle cycle_loop dict_from is_ready deps_of real_deps get set has elem
    filter all
lint_plan_issues = refl

lint_plan_iff_example : (lint_plan good_plan ≡ []) ↔ IsClean good_plan.tasks
lint_plan_iff_example = lint_plan_iff good_plan
