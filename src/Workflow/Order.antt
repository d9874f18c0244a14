-- ===== src/Workflow/Order.antt =====
-- What the loop over the tasks returns: a result for each task, in dependency order.
use mathlib.Core.List.{Perm}
use mathlib.Core.List.Perm
use mathlib.Core.Path.{ap₂}
use Prim.Native.Nat.{◌*◌}
use native.Mathlib.Nat.{suc-mul}
use dev_team.Prelude.{
  ℕ, ◌≤◌, ◌<◌, ◌≡◌, refl, ap, sym, ◌∙◌, ◌⊎◌, inl, inr, String, Bool, true, false, List, [], ◌∷◌,
  Option, none, arith, all, All, elem, is_empty, length, perm-length, Bool-cases,
}
use dev_team.Models.{TaskStatus, done, failed, Task, Plan, ids, Design, TaskResult, succeeded}
use dev_team.Budget.{exhausted}
use dev_team.Ordering.{Sorted, ordered, cycle, out_of_fuel, real_deps, topological_order}
use dev_team.Ordering.Order.{topological_order-perm}
use dev_team.Ordering.Loop.{topological_order-ne-out_of_fuel}
use dev_team.Replies.{Python}
use dev_team.Agents.{
  Reply, Prompt, RunState, Raised, over_budget, response_error, runner_raised, dependency_cycle,
  run_aborted, unanswered, Outcome, ok, raised, continue, set_status,
}
use dev_team.Agents.Posts.{FromAgents, Grown, Grown-refl, Runs, Runs-bind, Runs-exhaustion}
use dev_team.Workflow.{
  TeamConfig, task_result, no_draft, fail_over_budget, unmet_deps, done_after, try_task,
  task_or_skip, tasks_loop, order_of, develop_tasks,
}
use dev_team.Workflow.Reports.{
  result_ids, in_order, IsEnded, IsExcused, AllExcused, unmet-real, succeeded_done,
  succeeded_failed, in_order-cons, Reported,
}
use dev_team.Workflow.Attempts.{
  IsPassed, passes, no_review, Settled, attempts_allowed, calls_allowed, develop_task-Settled,
}

-- The exceptions that pass the loop: those of agents, but for the budget error.
abbrev pub PassesTasks : Raised → RunState → Type 0
PassesTasks (response_error r t) w = Unit
PassesTasks runner_raised w = Unit
PassesTasks _ w = ⊥

-- Calls and spending are not touched by an assignment.
Grown-set :
    (n : ℕ) (u v : RunState) (statuses : List (String × TaskStatus))
    → Grown n u v
    → Grown n u (record v { statuses = statuses })
Grown-set n u v statuses g = record {
  calls_from = g.calls_from;
  calls_to = g.calls_to;
  spending = g.spending;
  exhaustion = g.exhaustion;
}

-- The exceptions that pass `_develop_tasks`, for a plan's tasks.
abbrev pub PassesPlan : List Task → Raised → RunState → Type 0
PassesPlan tasks (response_error r t) w = Unit
PassesPlan tasks runner_raised w = Unit
PassesPlan tasks (dependency_cycle l) w = topological_order tasks ≡ cycle l
PassesPlan tasks _ w = ⊥

module _ (py : Python) (runner : ℕ → Prompt → Option Reply) (json_retries : ℕ) (config : TeamConfig)
    (design : Design) where
  abbrev Tried : Task → Bool → TaskResult → RunState → Type 0
  Tried task free r w =
      ((r.task ≡ record task { status = done }) × IsPassed config r × (free ≡ true))
      ⊎ ((r.task ≡ record task { status = failed })
          × (passes config r.review r.test_report ≡ false)
          × ((r.attempts ≡ attempts_allowed config)
              ⊎ ((free ≡ false) ⊎ (exhausted w.budget ≡ true))))

  caught-Tried :
      (task : Task) (free : Bool) (w : RunState) (r : Outcome TaskResult × RunState)
      → free ≡ true
      → Runs FromAgents
          (calls_allowed json_retries config)
          (Settled config (attempts_allowed config) w.statuses task)
          w
          r
      → Runs PassesTasks
          (calls_allowed json_retries config)
          (Tried task free)
          w
          (fail_over_budget task r)
  unfolding fail_over_budget set_status task_result no_draft
  caught-Tried task free w (ok r, v) f h = (done_or_failed h.0.ending, h.1)
    where
      done_or_failed :
          ((r.task ≡ record task { status = done })
              × IsPassed config r
              × (0 < r.attempts)
              × (r.attempts ≤ attempts_allowed config))
            ⊎ ((r.task ≡ record task { status = failed })
                × (r.attempts ≡ attempts_allowed config)
                × (passes config r.review r.test_report ≡ false))
          → Tried task free r v
      done_or_failed (inl d) = inl (d.0, d.1, f)
      done_or_failed (inr (e, all_made, bad)) = inr (e, bad, inl all_made)
  caught-Tried task free w (raised (over_budget e), v) f h =
      (inr (refl, no_review config none, inr (inr h.0)), Grown-set _ w v _ h.1)
  caught-Tried task free w (raised (response_error x t), v) f h = (tt, h.1)
  caught-Tried task free w (raised runner_raised, v) f h = (tt, h.1)
  caught-Tried task free w (raised (dependency_cycle l), v) f h = elim h.0 [ ]
  caught-Tried task free w (raised run_aborted, v) f h = elim h.0 [ ]
  caught-Tried task free w (raised unanswered, v) f h = elim h.0 [ ]

  try_task-Tried :
      (task : Task) (free skip : Bool) (w : RunState)
      → (skip ≡ false → free ≡ true)
      → (skip ≡ true → (free ≡ false) ⊎ (exhausted w.budget ≡ true))
      → Runs PassesTasks
          (calls_allowed json_retries config)
          (Tried task free)
          w
          (try_task py runner json_retries config task design skip w)
  unfolding try_task set_status task_result no_draft
  try_task-Tried task free true w f g =
      (inr (refl, no_review config none, inr (g refl)), Grown-set _ w w _ (Grown-refl _ w))
  try_task-Tried task free false w f g =
      caught-Tried task free w _ (f refl)
        (develop_task-Settled py runner json_retries config task design w)

  task_or_skip-Tried :
      (task : Task) (unmet : List String) (w : RunState)
      → Runs PassesTasks
          (calls_allowed json_retries config)
          (Tried task (is_empty unmet))
          w
          (task_or_skip py runner json_retries config task design unmet w)
  unfolding task_or_skip
  task_or_skip-Tried task unmet w =
      try_task-Tried task (is_empty unmet) _ w (λ e. ground arith)
        (λ e. elim (Bool-cases (is_empty unmet)) [
          | inr some_unmet ↦ inl some_unmet
          | inl free ↦ inr (ground (arith, e, free))
        ])

  module _ (known_ids : List String) where
    abbrev is_known : String → Bool
    is_known dep = elem dep known_ids

    -- What the loop makes of some tasks, with some done before them.
    abbrev Listed : List String → List Task → List TaskResult → RunState → Type 0
    Listed done_ids tasks results w =
        (result_ids results ≡ ids tasks)
        × (in_order is_known done_ids results ≡ true)
        × All (IsEnded config) results
        × AllExcused is_known config done_ids results w

    Listed-cons :
        (done_ids : List String) (t : Task) (ts : List Task) (r : TaskResult) (rs : List TaskResult)
        (v w : RunState)
        → Tried t (is_empty (unmet_deps known_ids done_ids t)) r v
        → (exhausted v.budget ≡ true → exhausted w.budget ≡ true)
        → Listed (done_after r done_ids) ts rs w
        → Listed done_ids (t ∷ ts) (r ∷ rs) w
    unfolding in_order done_after unmet_deps real_deps succeeded
    Listed-cons done_ids t ts r rs v w (inl (e, passed, free)) later (same, order, ended, excused) =
        let ready : all (λ dep. elem dep done_ids) (real_deps is_known r.task) ≡ true =
          ap (λ u. all (λ dep. elem dep done_ids) (real_deps is_known u)) e
          ∙ (sym (unmet-real known_ids done_ids t.dependencies t.id) ∙ free) in
        let success : succeeded r ≡ true = succeeded_done r (ap (λ u. u.status) e) in
        (
          ap₂ (λ u l. u.id ∷ l) e same,
          in_order-cons is_known done_ids r rs true success (ground (arith, ready))
              (rw success at order),
          (inl (ap (λ u. u.status) e, passed), ended),
          (inl success, excused),
        )
    Listed-cons done_ids t ts r rs v w (inr (e, bad, why)) later (same, order, ended, excused) =
        let failure : succeeded r ≡ false = succeeded_failed r (ap (λ u. u.status) e) in
        (
          ap₂ (λ u l. u.id ∷ l) e same,
          in_order-cons is_known done_ids r rs false failure refl (rw failure at order),
          (inr (ap (λ u. u.status) e, bad), ended),
          (inr (excuse why), excused),
        )
      where
        excuse :
            (r.attempts ≡ attempts_allowed config)
              ⊎ ((is_empty (unmet_deps known_ids done_ids t) ≡ false) ⊎ (exhausted v.budget ≡ true))
            → IsExcused is_known config done_ids r w
        excuse (inl all_made) = inl all_made
        excuse (inr (inr over)) = inr (inr (later over))
        excuse (inr (inl unmet)) = inr (
            inl (
              ap (λ u. all (λ dep. elem dep done_ids) (real_deps is_known u)) e
              ∙ (sym (unmet-real known_ids done_ids t.dependencies t.id) ∙ unmet)))

    tasks_loop-Listed :
        (done_ids : List String) (tasks : List Task) (w : RunState)
        → Runs PassesTasks
            (length tasks * calls_allowed json_retries config)
            (Listed done_ids tasks)
            w
            (tasks_loop py runner json_retries config design known_ids done_ids tasks w)
    unfolding tasks_loop in_order
    tasks_loop-Listed done_ids [] w = ((refl, refl, tt, tt), Grown-refl _ w)
    tasks_loop-Listed done_ids (t ∷ ts) w =
        let n : ℕ = calls_allowed json_retries config in
        Runs-bind PassesTasks (Tried t (is_empty (unmet_deps known_ids done_ids t)))
          (Listed done_ids (t ∷ ts)) n (length ts * n) _ w _ _
          (omega (arith, suc-mul (length ts) n))
          (task_or_skip-Tried t (unmet_deps known_ids done_ids t) w)
          λ r v tried.
            Runs-bind PassesTasks
              (λ rs u.
                Listed (done_after r done_ids) ts rs u
                × (exhausted v.budget ≡ true → exhausted u.budget ≡ true))
              (Listed done_ids (t ∷ ts)) (length ts * n) 0 (length ts * n) v _ _ (omega arith)
              (Runs-exhaustion PassesTasks _ _ v _ (tasks_loop-Listed (done_after r done_ids) ts v))
              λ rs u listed.
                (Listed-cons done_ids t ts r rs v u tried listed.1 listed.0, Grown-refl 0 u)

  ordered-Reported :
      (tasks out : List Task) (w : RunState) (r : Outcome (List TaskResult) × RunState)
      → Perm out tasks
      → Runs PassesTasks
          (length tasks * calls_allowed json_retries config)
          (Listed (ids tasks) [] out)
          w
          r
      → Runs
          (PassesPlan tasks)
          (length tasks * calls_allowed json_retries config)
          (Reported config tasks)
          w
          r
  ordered-Reported tasks out w (ok rs, v) perm h =
      ((rw h.0.0 (Perm.map (λ t. t.id) perm), h.0.1, h.0.2, h.0.3), h.1)
  ordered-Reported tasks out w (raised (response_error r t), v) perm h = (tt, h.1)
  ordered-Reported tasks out w (raised runner_raised, v) perm h = (tt, h.1)
  ordered-Reported tasks out w (raised (over_budget e), v) perm h = elim h.0 [ ]
  ordered-Reported tasks out w (raised (dependency_cycle l), v) perm h = elim h.0 [ ]
  ordered-Reported tasks out w (raised run_aborted, v) perm h = elim h.0 [ ]
  ordered-Reported tasks out w (raised unanswered, v) perm h = elim h.0 [ ]

  -- Developing the tasks of a plan makes no more calls of the model than each of them is allowed,
  -- and ends with results, or with an exception of the agents other than the budget error, or with
  -- the cycle that rules an order of the tasks out. There is one result for each task of the plan.
  -- Each is done, its last review approving and its last test report clearing the bar, or failed,
  -- one of them missing or not doing so. One that failed counts exactly the attempts allowed, or
  -- some of its dependencies on other tasks of the plan is not done in the results before it, or
  -- the budget is exhausted in the end; one that is done stands behind results that are done for
  -- all of those dependencies.
  pub develop_tasks-Reported :
      (plan : Plan) (w : RunState)
      → Runs
          (PassesPlan plan.tasks)
          (length plan.tasks * calls_allowed json_retries config)
          (Reported config plan.tasks)
          w
          (develop_tasks py runner json_retries config plan design w)
  unfolding develop_tasks order_of
  develop_tasks-Reported plan w = sorted (topological_order plan.tasks) refl
    where
      sorted :
          (s : Sorted)
          → topological_order plan.tasks ≡ s
          → Runs
              (PassesPlan plan.tasks)
              (length plan.tasks * calls_allowed json_retries config)
              (Reported config plan.tasks)
              w
              (continue
                (tasks_loop py runner json_retries config design (ids plan.tasks) [])
                (order_of s w))
      sorted (ordered out) e =
          let perm = topological_order-perm plan.tasks out e in
          ordered-Reported plan.tasks out w _ perm
            (rw (← perm-length perm) (tasks_loop-Listed (ids plan.tasks) [] out w))
      sorted (cycle l) e = (e, Grown-refl _ w)
      sorted out_of_fuel e = absurd (topological_order-ne-out_of_fuel plan.tasks e)
