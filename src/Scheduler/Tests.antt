-- ===== src/Scheduler/Tests.antt =====
-- Small runs of the scheduler, and the theorems about it at them.
use dev_team.Prelude.{
  ◌≤◌, String, ◌≡◌, refl, true, false, none, List, [], ◌∷◌, arith, elem, filter, all, any, distinct,
  eq_refl, ◌==◌, map, is_empty, length,
}
use dev_team.Prelude.Dict.{get, set, has}
use dev_team.Models.{Task, ids}
use dev_team.Ordering.{deps_map, deps_of}
use dev_team.Ordering.Tests.{task, good_plan, lint_plan-good_plan}
use dev_team.Scheduler.{
  ScheduleStatus, done, failed, skipped, ScheduledResult, WorkerOutcome, returned, raised, State,
  initial, resolve, is_done, is_doomed, is_claimed, is_blocked, is_startable, cascade_one, cascade,
  launch_one, launch, verdict, error_of, finish_one, finish_all, launch_and_wait, after_cascade,
  turn, collect, collect_step, first_duplicate, run_loop, checked, schedule, results,
}
use dev_team.Scheduler.Invariant.{entry}
use dev_team.Scheduler.Deadlock.{IsRun, Returns}
use dev_team.Scheduler.Totality.{schedule-Returns}
use dev_team.Scheduler.Reach.{start, launches, waits, Reach-safe, lint_plan-schedule}

-- Each wait returns when all the tasks in flight have ended, all but `build` well.
abbrev pub verdict_of : String → WorkerOutcome
verdict_of name = elim (name == "build") [ true ↦ raised "E" | false ↦ returned true ]

abbrev pub all_end : State → List (String × WorkerOutcome)
all_end s = map (λ (t : Task). (t.id, verdict_of t.id)) s.in_flight

-- In such a wait some task that is in flight ends.
pub all_end-ends :
    (s : State)
    → is_empty s.in_flight ≡ false
    → any (λ c. elem c.0 (ids s.in_flight)) (all_end s) ≡ true
unfolding any elem
all_end-ends s busy = go s.in_flight busy
  where
    go :
        (l : List Task)
        → is_empty l ≡ false
        → any
            (λ (c : String × WorkerOutcome). elem c.0 (ids l))
            (map (λ (t : Task). (t.id, verdict_of t.id)) l)
          ≡ true
    go [] h = cc
    go (t ∷ ts) h = ground (arith, eq_refl t.id)

abbrev result : String → ScheduleStatus → ScheduledResult
result name status = record { task_id = name; status = status; error = none }

abbrev jobs : List Task
jobs =
    task "ship" ("build" ∷ [])
    ∷ task "build" ("design" ∷ [])
    ∷ task "design" []
    ∷ task "docs" []
    ∷ []

schedule-jobs :
    schedule jobs 1 all_end
    ≡ results (
        result "ship" skipped
        ∷ result "build" failed
        ∷ result "design" done
        ∷ result "docs" done
        ∷ [])
unfolding deps_map deps_of schedule checked run_loop turn after_cascade launch_and_wait collect
    collect_step first_duplicate finish_all finish_one error_of verdict launch launch_one cascade
    cascade_one is_claimed is_startable is_blocked is_done is_doomed resolve get set has elem filter
    all any
schedule-jobs = refl

jobs-distinct : distinct (ids jobs) ≡ true
unfolding distinct elem
jobs-distinct = refl

schedule-Returns_example : Returns jobs (schedule jobs 1 all_end)
schedule-Returns_example = schedule-Returns jobs 1 all_end (omega arith) jobs-distinct all_end-ends

lint_plan-schedule_example :
    (l : List ScheduledResult) × (schedule good_plan.tasks 2 all_end ≡ results l)
    × IsRun good_plan.tasks l
lint_plan-schedule_example =
    lint_plan-schedule good_plan 2 all_end lint_plan-good_plan (omega arith) all_end-ends

-- Two launches with one wait between them.
abbrev midway : State
midway =
    launch (deps_map jobs) 1 jobs
      (finish_all (("design", returned true) ∷ []) (launch (deps_map jobs) 1 jobs initial))

Reach-safe_example :
    (length midway.in_flight ≤ 1)
    × ((tid : String)
        → elem tid (ids midway.in_flight) ≡ true
        → (has midway.status tid ≡ false) × (is_startable (deps_map jobs) midway.status tid ≡ true))
    × (map entry midway.notified ≡ midway.status)
Reach-safe_example =
    Reach-safe jobs 1 (launches (waits (("design", returned true) ∷ []) (launches start)))
