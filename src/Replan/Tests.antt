-- ===== src/Replan/Tests.antt =====
-- Replans of a small plan, and the theorems about them.
use dev_team.Prelude.{
  ◌≡◌, ◌≢◌, refl, true, false, not, ◌&&◌, ◌||◌, List, [], ◌∷◌, ◌==◌, elem, distinct, filter, arith,
}
use dev_team.Prelude.Dict.{get, set}
use dev_team.Prelude.Decimal.{suffixed, str}
use dev_team.Models.{ids}
use dev_team.Ordering.Tests.{task, good_plan, halved, lint_plan-halved}
use dev_team.Scheduler.{ScheduledResult, results, schedule}
use dev_team.Scheduler.Deadlock.{IsRun}
use dev_team.Scheduler.Tests.{all_end, all_end-ends}
use dev_team.Replan.{
  Replan, split, required_replacements, is_count_right, probe, unique_id, assign_ids, lookup_or,
  without_repeats, rewire_all, rewire, build_replacement, splice, survivors, remap_of,
  replacement_ids_of, new_plan, replanned, linted, apply_replan,
}
use dev_team.Replan.Accepted.{
  distinct-new_plan, apply_replan-distinct, elem-apply_replan, apply_replan-schedule,
}

-- One replacement takes the id of a task of the plan, and the other depends on it.
abbrev halves : Replan
halves = record {
  action = split;
  failed_task_id = "build";
  replacements = task "design" ("build" ∷ []) ∷ task "half" ("design" ∷ []) ∷ [];
  rationale = "";
}

new_plan-halves : new_plan good_plan halves ≡ halved
unfolding new_plan splice build_replacement rewire rewire_all without_repeats lookup_or remap_of
    replacement_ids_of survivors assign_ids unique_id probe suffixed str get set elem filter
new_plan-halves = refl

apply_replan-halves : apply_replan good_plan halves ≡ replanned halved
unfolding apply_replan is_count_right required_replacements linted elem
apply_replan-halves = rw (new_plan-halves, lint_plan-halved) refl

good_plan-distinct : distinct (ids good_plan.tasks) ≡ true
unfolding distinct elem
good_plan-distinct = refl

halves-distinct : distinct (ids halves.replacements) ≡ true
unfolding distinct elem
halves-distinct = refl

distinct-new_plan_example : distinct (ids (new_plan good_plan halves).tasks) ≡ true
distinct-new_plan_example = distinct-new_plan good_plan halves good_plan-distinct halves-distinct

abbrev twins : Replan
twins = record {
  action = split;
  failed_task_id = "build";
  replacements = task "half" [] ∷ task "half" [] ∷ [];
  rationale = "";
}

twins-repeated : distinct (ids twins.replacements) ≡ false
unfolding distinct elem
twins-repeated = refl

apply_replan-distinct_example : apply_replan good_plan twins ≢ replanned halved
apply_replan-distinct_example = apply_replan-distinct good_plan halved twins twins-repeated

elem-apply_replan_example : elem "half" (ids halved.tasks) ≡ (
    (elem "half" (ids good_plan.tasks) && not ("half" == "build"))
    || elem "half" (replacement_ids_of good_plan halves))
elem-apply_replan_example = elem-apply_replan good_plan halved halves "half" apply_replan-halves

apply_replan-schedule_example :
    (l : List ScheduledResult) × (schedule halved.tasks 2 all_end ≡ results l)
    × IsRun halved.tasks l
apply_replan-schedule_example =
    apply_replan-schedule good_plan halved halves 2 all_end apply_replan-halves (omega arith)
      all_end-ends
