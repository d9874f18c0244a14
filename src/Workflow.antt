-- ===== src/Workflow.antt =====
-- src/dev_team/workflow.py, with TeamConfig of src/dev_team/config.py: plan, design, then implement,
-- review and test each task in dependency order, and deploy. An exception is a value of the outcome.
-- The answers of a person at plan review are a list; a question after its end is never answered. A
-- task's result holds the task with its last status; the plan keeps its tasks as they were parsed.
pub mod Attempts
pub mod Statuses
pub mod Reports
pub mod Order
pub mod Ceiling
pub mod Tests
use Prim.Native.String.{◌++◌ as ◌<>◌}
use dev_team.Prelude.{
  ℕ, zero, suc, ◌*◌, String, Bool, true, false, not, ◌&&◌, ◌||◌, Option, none, some, List, [], ◌∷◌,
  ◌==◌, if◌then◌else◌, filter, elem, is_empty,
}
use dev_team.Prelude.Int.{ℤ, pos, negsuc, pos_part, le}
use dev_team.Prelude.Dict.{Dict}
use dev_team.Models.{
  TaskStatus, in_progress, in_review, changes_requested, testing, done, failed, major, Task, Plan,
  ids, FeatureRequest, Design, Implementation, ReviewComment, Review, TestReport, DeploymentPlan,
  TaskResult, succeeded, ProjectResult,
}
use dev_team.Ordering.{Sorted, ordered, cycle, out_of_fuel, topological_order}
use dev_team.Budget.{Budget, exhausted, spent}
use dev_team.Replies.{Python}
use dev_team.Agents.{
  Reply, Prompt, RunState, Raised, over_budget, response_error, runner_raised, dependency_cycle,
  run_aborted, unanswered, Outcome, ok, raised, M, ◌>>=◌, ◌>>◌, continue, return, raise, set_status,
  create_plan, make_design, implement, review, test, plan_deployment,
}

pub record TeamConfig : Type 0 where
  pub model : Option String
  pub role_models : Dict String
  pub max_task_attempts : ℤ
  pub min_coverage : ℤ
  pub working_dir : Option String
  pub permission_mode : String
  pub max_turns : Option ℤ

-- 100.0, in the unit
unfoldable pub hundred : Python → ℤ
hundred py = pos (100 * pos_part py.one)

unfoldable pub turns_allowed : Option ℤ → Bool
turns_allowed none = true
turns_allowed (some n) = le (pos 1) n

-- Whether `__post_init__` lets a configuration pass, or raises ValueError.
unfoldable pub is_valid_config : Python → TeamConfig → Bool
unfolding hundred turns_allowed
is_valid_config py c =
    le (pos 1) c.max_task_attempts
    && (le (pos 0) c.min_coverage && le c.min_coverage (hundred py) && turns_allowed c.max_turns)

-- What the loop of `_develop_task` keeps of its last attempt.
pub record Draft : Type 0 where
  pub implementation : Option Implementation
  pub review : Option Review
  pub test_report : Option TestReport

unfoldable pub task_result : Task → TaskStatus → ℕ → Draft → TaskResult
task_result task status attempts draft = record {
  task = record task { status = status };
  attempts = attempts;
  implementation = draft.implementation;
  review = draft.review;
  test_report = draft.test_report;
}

unfoldable pub no_draft : Draft
no_draft = record { implementation = none; review = none; test_report = none }

-- A person's answer to a question.
pub record Answer : Type 0 where
  pub choice : String
  pub text : String

-- What `run` has when it stops.
pub record Progress : Type 0 where
  pub plan : Option Plan
  pub design : Option Design
  pub task_results : List TaskResult
  pub deployment : Option DeploymentPlan

unfoldable pub nothing_done : Progress
nothing_done = record { plan = none; design = none; task_results = []; deployment = none }

unfoldable pub no_design : Design
no_design = record {
  overview = "";
  components = [];
  tech_stack = [];
  risks = [];
  alternatives = [];
  rationale = "";
}

unfoldable pub plan_or : Option Plan → Plan
plan_or none = record { summary = ""; tasks = [] }
plan_or (some plan) = plan

unfoldable pub design_or : Option Design → Design
unfolding no_design
design_or none = no_design
design_or (some design) = design

-- The `except BudgetExceededError` of `run`, around one of its steps and what follows it.
unfoldable pub after_stage :
    {A : Type 0} → Progress → (A → M Progress) → Outcome A × RunState → Outcome Progress × RunState
after_stage p next (ok a, w) = next a w
after_stage p next (raised (over_budget e), w) = (ok p, w)
after_stage p next (raised e, w) = (raised e, w)

abbrev stage : {A : Type 0} → Progress → M A → (A → M Progress) → M Progress
stage p step next w = after_stage p next (step w)

-- The `except BudgetExceededError` of `_develop_tasks`.
unfoldable pub fail_over_budget :
    Task → Outcome TaskResult × RunState → Outcome TaskResult × RunState
unfolding set_status task_result no_draft
fail_over_budget task (raised (over_budget e), w) =
    (set_status task.id failed >> return (task_result task failed 0 no_draft)) w
fail_over_budget task r = r

unfoldable pub order_of : Sorted → M (List Task)
order_of (ordered tasks) = return tasks
order_of (cycle l) = raise (dependency_cycle l)
order_of out_of_fuel = raise (dependency_cycle [])

-- A dependency that gates a task, and is not done.
unfoldable pub unmet_deps : List String → List String → Task → List String
unmet_deps known_ids done_ids task =
    filter (λ dep. elem dep known_ids && (not (dep == task.id) && not (elem dep done_ids)))
      task.dependencies

unfoldable pub tests_pass : TeamConfig → TestReport → Bool
tests_pass config report = report.passed && le config.min_coverage report.coverage

unfoldable pub feedback_from_tests : Python → TestReport → Review
feedback_from_tests py report = record {
  approved = false;
  summary =
      "Tests did not pass (coverage " <> (py.rounded report.coverage <> ("%). " <> report.summary));
  comments =
      record {
        severity = major;
        message = "Fix failing tests and reach the required coverage.";
        path = none;
      }
      ∷ [];
}

unfoldable pub done_after : TaskResult → List String → List String
done_after result done_ids = if succeeded result then result.task.id ∷ done_ids else done_ids

unfoldable pub project_result : FeatureRequest → Progress → M ProjectResult
unfolding plan_or design_or
project_result request p w = (
  ok (record {
    request = request;
    plan = plan_or p.plan;
    design = design_or p.design;
    task_results = p.task_results;
    deployment = p.deployment;
    cost_usd = spent w.budget;
  }),
  w,
)

module _ (py : Python) (runner : ℕ → Prompt → Option Reply) (json_retries : ℕ)
    (config : TeamConfig) where
  module _ (task : Task) (design : Design) where
    unfoldable pub after_test :
        (Option Review → Draft → M TaskResult) → ℕ → Draft → TestReport → Bool → M TaskResult
    after_test retry attempts draft report true = do
      set_status task.id done
      return (task_result task done attempts (record draft { test_report = some report }))
    after_test retry attempts draft report false = do
      set_status task.id changes_requested
      retry (some (feedback_from_tests py report)) (record draft { test_report = some report })

    unfoldable pub after_review :
        (Option Review → Draft → M TaskResult)
        → ℕ
        → Draft
        → Implementation
        → Review
        → Bool
        → M TaskResult
    unfolding after_test
    after_review retry attempts draft implementation verdict false = do
      set_status task.id changes_requested
      retry (some verdict) draft
    after_review retry attempts draft implementation verdict true = do
      set_status task.id testing
      report ← test py runner json_retries task implementation
      after_test retry attempts draft report (tests_pass config report)

    -- The loop of `_develop_task`, with the attempts that are left and those that were made.
    unfoldable pub attempt_loop : ℕ → ℕ → Option Review → Draft → M TaskResult
    unfolding after_review set_status
    attempt_loop zero attempts feedback draft = do
      set_status task.id failed
      return (task_result task failed attempts draft)
    attempt_loop (suc left) attempts feedback draft = do
      set_status task.id in_progress
      implementation ← implement py runner json_retries task design feedback
      set_status task.id in_review
      verdict ← review py runner json_retries task implementation
      after_review (attempt_loop left (suc attempts)) (suc attempts)
          (record draft { implementation = some implementation; review = some verdict })
          implementation verdict verdict.approved

    unfoldable pub develop_task : M TaskResult
    unfolding attempt_loop no_draft
    develop_task = attempt_loop (pos_part config.max_task_attempts) 0 none no_draft

    unfoldable pub try_task : Bool → M TaskResult
    unfolding fail_over_budget
    try_task true w = (set_status task.id failed >> return (task_result task failed 0 no_draft)) w
    try_task false w = fail_over_budget task (develop_task w)

    -- One round of the loop of `_develop_tasks`: it skips on an unmet dependency or an exhausted
    -- budget.
    unfoldable pub task_or_skip : List String → M TaskResult
    unfolding try_task
    task_or_skip unmet w = try_task (not (is_empty unmet) || exhausted w.budget) w

  unfoldable pub tasks_loop : Design → List String → List String → List Task → M (List TaskResult)
  unfolding task_or_skip done_after
  tasks_loop design known_ids done_ids [] = return []
  tasks_loop design known_ids done_ids (task ∷ rest) = do
    result ← task_or_skip task design (unmet_deps known_ids done_ids task)
    results ← tasks_loop design known_ids (done_after result done_ids) rest
    return (result ∷ results)

  unfoldable pub develop_tasks : Plan → Design → M (List TaskResult)
  unfolding tasks_loop order_of
  develop_tasks plan design = do
    order ← order_of (topological_order plan.tasks)
    tasks_loop design (ids plan.tasks) [] order

  module _ (request : FeatureRequest) where
    abbrev or_revise : String → String
    or_revise text = if text == "" then "Revise the plan." else text

    unfoldable pub judge_plan : (Plan → M Plan) → Plan → Answer → M Plan
    judge_plan rest plan answer =
        if answer.choice == "approve"
        then return plan
        else if answer.choice == "abort"
        then raise run_aborted
        else create_plan py runner json_retries request (some (or_revise answer.text)) >>= rest

    -- The loop of `_reviewed_plan`, on the answers that are to come.
    unfoldable pub review_loop : List Answer → Plan → M Plan
    unfolding judge_plan
    review_loop [] plan = raise unanswered
    review_loop (answer ∷ answers) plan = judge_plan (review_loop answers) plan answer

    -- `none` is a run without an interaction channel.
    unfoldable pub reviewed_plan : Option (List Answer) → Plan → M Plan
    unfolding review_loop
    reviewed_plan none plan = return plan
    reviewed_plan (some answers) plan = review_loop answers plan

    unfoldable pub deployed : Progress → Design → M Progress
    deployed p design =
        stage p (plan_deployment py runner json_retries request design)
          λ deployment. return (record p { deployment = some deployment })

    unfoldable pub developed : Progress → Plan → Design → M Progress
    unfolding deployed
    developed p plan design =
        stage p (develop_tasks plan design)
          λ results. deployed (record p { task_results = results }) design

    unfoldable pub designed : Progress → Plan → M Progress
    unfolding developed
    designed p plan =
        stage p (make_design py runner json_retries request plan)
          λ design. developed (record p { design = some design }) plan design

    unfoldable pub planned : Option (List Answer) → Progress → Plan → M Progress
    unfolding designed
    planned interaction p plan =
        stage p (reviewed_plan interaction plan)
          λ plan'. designed (record p { plan = some plan' }) plan'

    -- The `try` block of `run`.
    unfoldable pub stages : Option (List Answer) → M Progress
    unfolding planned nothing_done
    stages interaction =
        stage nothing_done (create_plan py runner json_retries request none)
          λ plan. planned interaction (record nothing_done { plan = some plan }) plan

    unfoldable pub run : Option (List Answer) → M ProjectResult
    unfolding stages project_result
    run interaction = stages interaction >>= project_result request
