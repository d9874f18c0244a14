-- ===== src/Workflow/Tests.antt =====
-- Tasks and runs at concrete replies.
use Prim.Native.Nat.{◌*◌}
use dev_team.Prelude.{
  ℕ, ◌≡◌, refl, String, true, Option, none, some, List, [], ◌∷◌, if◌then◌else◌, eqb, map, filter,
  elem, length,
}
use dev_team.Prelude.Int.{pos, pos_part, le}
use dev_team.Models.{
  Task, Plan, pending, in_progress, in_review, changes_requested, testing, failed, done, succeeded,
  blocking_comments,
}
use dev_team.Budget.{
  run_call, admit, after_inner, settle, record_usage, enforce, check, exhausted, reached, spent,
  effective_limit, reduced, total_cost, meter_record, usage, sum_cost, or_zero,
}
use dev_team.Replies.Tests.{python}
use dev_team.Replies.Parse.{review_from_dict, test_report_from_dict, implementation_from_dict}
use dev_team.Replies.Extract.{extract_json}
use dev_team.Replies.{as_bool, as_float, as_str, as_obj_list, as_dict}
use dev_team.Agents.Tests.{says, request, world_with}
use dev_team.Agents.{
  Reply, Prompt, plan_prompt, review_prompt, test_prompt, implement, review, test, ask_json,
}
use dev_team.Agents.Posts.{FromAgents, Runs}
use dev_team.Workflow.{
  TeamConfig, develop_task, tasks_loop, develop_tasks, run, no_design, is_valid_config, tests_pass,
  unmet_deps,
}
use dev_team.Workflow.Attempts.{Settled, attempts_allowed, calls_allowed, develop_task-Settled}
use dev_team.Workflow.Order.{PassesPlan, develop_tasks-Reported}
use dev_team.Workflow.Reports.{Reported}
use dev_team.Workflow.Ceiling.{Ran, run-Ran}

abbrev config : TeamConfig
config = record {
  model = none;
  role_models = [];
  max_task_attempts = pos 2;
  min_coverage = pos 100;
  working_dir = none;
  permission_mode = "acceptEdits";
  max_turns = some (pos 50);
}

config_valid : is_valid_config python config ≡ true
unfolding is_valid_config le pos_part
config_valid = refl

-- A model whose first review has no approval, and that does all else well.
reply_to : ℕ → Prompt → Option Reply
reply_to n (plan_prompt r f) = says "{plan}"
reply_to n (review_prompt t i) = if eqb n 1 then says "{}" else says "{ok}"
reply_to n (test_prompt t i) = says "{pass}"
reply_to n other = says "{}"

abbrev task : String → List String → Task
task tid deps = record {
  id = tid;
  title = tid;
  description = "";
  acceptance_criteria = [];
  dependencies = deps;
  status = pending;
}

second_attempt :
    map
      (λ p. p.1)
      (develop_task python reply_to 1 config (task "T1" []) no_design (world_with none)).1.statuses
    ≡ in_progress ∷ in_review ∷ changes_requested ∷ in_progress ∷ in_review ∷ testing ∷ done ∷ []
unfolding develop_task run_call admit after_inner settle record_usage enforce check exhausted
    reached spent effective_limit reduced total_cost meter_record usage sum_cost or_zero pos_part le
    implement review test ask_json extract_json as_bool as_float as_str as_obj_list as_dict
    review_from_dict test_report_from_dict implementation_from_dict filter elem blocking_comments
    tests_pass reply_to
second_attempt = refl

-- The budget of 5 is passed by the second call, at a cost of 3 each; the task behind is skipped.
stopped_and_skipped :
    (tasks_loop python reply_to 1 config no_design
      ("T1" ∷ "T2" ∷ [])
      []
      (task "T1" [] ∷ task "T2" ("T1" ∷ []) ∷ [])
      (world_with (some 5))).1.statuses
    ≡ ("T1", in_progress) ∷ ("T1", in_review) ∷ ("T1", failed) ∷ ("T2", failed) ∷ []
unfolding tasks_loop develop_task unmet_deps run_call admit after_inner settle record_usage enforce
    check exhausted reached spent effective_limit reduced total_cost meter_record usage sum_cost
    or_zero pos_part le implement review test ask_json extract_json as_bool as_float as_str
    as_obj_list as_dict review_from_dict test_report_from_dict implementation_from_dict filter elem
    blocking_comments succeeded reply_to
stopped_and_skipped = refl

develop_task-Settled_example :
    Runs FromAgents
      (calls_allowed 1 config)
      (Settled config (attempts_allowed config) (world_with none).statuses (task "T1" []))
      (world_with none)
      (develop_task python reply_to 1 config (task "T1" []) no_design (world_with none))
develop_task-Settled_example =
    develop_task-Settled python reply_to 1 config (task "T1" []) no_design (world_with none)

abbrev plan : Plan
plan = record { summary = ""; tasks = task "T2" ("T1" ∷ []) ∷ task "T1" [] ∷ [] }

develop_tasks-Reported_example :
    Runs
      (PassesPlan plan.tasks)
      (length plan.tasks * calls_allowed 1 config)
      (Reported config plan.tasks)
      (world_with (some 100))
      (develop_tasks python reply_to 1 config plan no_design (world_with (some 100)))
develop_tasks-Reported_example =
    develop_tasks-Reported python reply_to 1 config no_design plan (world_with (some 100))

run-Ran_example : Ran config request (
    run python reply_to 1 config request
      (some (record { choice = "approve"; text = "" } ∷ []))
      (world_with (some 9)))
run-Ran_example =
    run-Ran python reply_to 1 config request (some (record { choice = "approve"; text = "" } ∷ []))
      (world_with (some 9))
