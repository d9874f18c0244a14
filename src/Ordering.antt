-- ===== src/Ordering.antt =====
-- src/dev_team/ordering.py: the topological order of a plan's tasks, the tasks that lie on or
-- behind a dependency cycle, and the linter of plans. Fuel: each round of either loop takes at
-- least one task off the list, so the length of the list is enough. A message of the linter is
-- its case and what it names; the wording is left out.
pub mod Loop
pub mod Lookup
pub mod Order
pub mod Cycles
pub mod Agreement
pub mod Deadlock
pub mod Lint
pub mod Tests
use dev_team.Prelude.{
  ℕ, zero, suc, String, Bool, true, false, not, ◌&&◌, none, some, List, [], ◌∷◌, ◌++◌, ◌==◌, ltb,
  if◌then◌else◌, length, is_empty, filter, all, elem, map,
}
use dev_team.Prelude.Dict.{Dict, get, has, set}
use dev_team.Models.{Task, Plan, ids}

-- `{t.id: f(t) for t in tasks}`, added to a dict.
unfoldable pub dict_from {ℓ} : {V : Type ℓ} → (Task → V) → Dict V → List Task → Dict V
dict_from f d [] = d
dict_from f d (t ∷ ts) = dict_from f (set d t.id (f t)) ts

-- A task's dependencies on known ids other than its own.
unfoldable pub real_deps : (String → Bool) → Task → List String
real_deps known t = filter (λ dep. known dep && not (dep == t.id)) t.dependencies

unfoldable pub deps_map : List Task → Dict (List String)
unfolding dict_from real_deps
deps_map tasks =
    let by_id = dict_from (λ t. t) [] tasks in dict_from (real_deps (has by_id)) [] tasks

-- `deps[tid]`, of a key that is there.
unfoldable pub deps_of : Dict (List String) → String → List String
deps_of deps tid = elim (get deps tid) [ none ↦ [] | some l ↦ l ]

-- `all(d in resolved for d in deps[tid])`
pub is_ready : Dict (List String) → List String → String → Bool
is_ready deps resolved tid = all (λ d. elem d resolved) (deps_of deps tid)

-- What `topological_order` returns, or the ids of its DependencyCycleError.
pub data Sorted : Type 0 where
  ordered : List Task → Sorted
  cycle : List String → Sorted
  out_of_fuel : Sorted

abbrev ready_tasks : Dict (List String) → List String → List Task → List Task
ready_tasks deps resolved = filter (λ t. is_ready deps resolved t.id)

-- The object identities `ready_ids` pick out of `remaining` the tasks that were found ready.
abbrev waiting_tasks : Dict (List String) → List String → List Task → List Task
waiting_tasks deps resolved = filter (λ t. not (is_ready deps resolved t.id))

-- The `while` loop of `topological_order`.
order_loop : ℕ → Dict (List String) → List Task → List String → List Task → Sorted
order_loop fuel deps placed resolved [] = ordered placed
order_loop zero deps placed resolved (t ∷ ts) = out_of_fuel
order_loop (suc fuel) deps placed resolved (t ∷ ts) =
    let ready = ready_tasks deps resolved (t ∷ ts) in
    let rest =
      order_loop fuel deps (placed ++ ready) (resolved ++ ids ready)
        (waiting_tasks deps resolved (t ∷ ts)) in
    if is_empty ready then cycle (ids (t ∷ ts)) else rest

pub topological_order : List Task → Sorted
topological_order tasks = order_loop (length tasks) (deps_map tasks) [] [] tasks

-- The `while True` loop of `_tasks_in_cycle`. With fuel for each id that remains, the loop has
-- no id left when the fuel is gone, and the code returns that empty list.
cycle_loop : ℕ → Dict (List String) → List String → List String → List String
cycle_loop zero deps resolved remaining = remaining
cycle_loop (suc fuel) deps resolved remaining =
    let ready = filter (is_ready deps resolved) remaining in
    let resolved' = resolved ++ ready in
    let rest =
      cycle_loop fuel deps resolved' (filter (λ tid. not (elem tid resolved')) remaining) in
    if is_empty ready then remaining else rest

pub tasks_in_cycle : List Task → List String → List String
tasks_in_cycle tasks known =
    cycle_loop (length tasks) (dict_from (real_deps (λ dep. elem dep known)) [] tasks) []
      (ids tasks)

pub data Issue : Type 0 where
  no_tasks : Issue
  too_many_tasks : ℕ → Issue
  duplicate_id no_criteria self_dependency : String → Issue
  unknown_dependency : String → String → Issue
  dependency_cycle : List String → Issue

abbrev max_plan_tasks : ℕ
max_plan_tasks = 12

-- The loop over `seen`.
duplicate_issues : List String → List Task → List Issue
duplicate_issues seen [] = []
duplicate_issues seen (t ∷ ts) =
    let rest = duplicate_issues (t.id ∷ seen) ts in
    if elem t.id seen then duplicate_id t.id ∷ rest else rest

dependency_issues : List String → String → List String → List Issue
dependency_issues known tid [] = []
dependency_issues known tid (dep ∷ deps) =
    let rest = dependency_issues known tid deps in
    if dep == tid
    then self_dependency tid ∷ rest
    else if not (elem dep known)
    then unknown_dependency tid dep ∷ rest
    else rest

task_issues : List String → Task → List Issue
task_issues known t =
    (if is_empty t.acceptance_criteria then no_criteria t.id ∷ [] else [])
    ++ dependency_issues known t.id t.dependencies

all_task_issues : List String → List Task → List Issue
all_task_issues known [] = []
all_task_issues known (t ∷ ts) = task_issues known t ++ all_task_issues known ts

cycle_issues : List String → List Issue
cycle_issues cyclic = if is_empty cyclic then [] else dependency_cycle cyclic ∷ []

pub lint_tasks : List Task → List Issue
lint_tasks [] = no_tasks ∷ []
lint_tasks (t ∷ ts) =
    let tasks = t ∷ ts in
    (if ltb max_plan_tasks (length tasks) then too_many_tasks (length tasks) ∷ [] else [])
    ++ (duplicate_issues [] tasks
        ++ (all_task_issues (ids tasks) tasks ++ cycle_issues (tasks_in_cycle tasks (ids tasks))))

pub lint_plan : Plan → List Issue
lint_plan plan = lint_tasks plan.tasks
