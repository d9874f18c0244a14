-- ===== src/Scheduler/Reach.antt =====
-- The states that the scheduler can pass through, whatever the workers and the event loop do.
use dev_team.Prelude.{
  ℕ, ◌≤◌, String, ◌≡◌, refl, true, false, List, [], any, elem, map, length, is_empty,
}
use dev_team.Prelude.Dict.{has}
use dev_team.Models.{Task, Plan, ids, ids-All}
use dev_team.Ordering.{deps_map, lint_plan}
use dev_team.Ordering.Lint.{lint_plan_iff}
use dev_team.Ordering.Deadlock.{Deadlocked-unsorted}
use dev_team.Scheduler.{
  ScheduledResult, State, WorkerOutcome, Outcome, results, dependency_cycle, bad_concurrency,
  duplicate_task, key_error, out_of_fuel, initial, cascade, launch, finish_all, schedule,
  is_startable,
}
use dev_team.Scheduler.Invariant.{entry}
use dev_team.Scheduler.Steps.{Good, cascade-Good, launch-Good, finish_all-Good}
use dev_team.Scheduler.Deadlock.{IsRun, Returns}
use dev_team.Scheduler.Totality.{schedule-Returns, initial-Good}

-- A pass of skips, a pass of launches, and a wait in which any tasks end.
pub data Reach (tasks : List Task) (cap : ℕ) : State → Type 0 where
  start : Reach tasks cap initial
  skips :
      {s : State}
      → Reach tasks cap s
      → Reach tasks cap (cascade (deps_map tasks) tasks (s, false)).0
  launches : {s : State} → Reach tasks cap s → Reach tasks cap (launch (deps_map tasks) cap tasks s)
  waits :
      {s : State} (ended : List (String × WorkerOutcome))
      → Reach tasks cap s
      → Reach tasks cap (finish_all ended s)

Reach-Good :
    (tasks : List Task) (cap : ℕ) {s : State}
    → Reach tasks cap s
    → Good (deps_map tasks) (ids tasks) cap s
Reach-Good tasks cap start = initial-Good (deps_map tasks) (ids tasks) cap
Reach-Good tasks cap (skips r) =
    cascade-Good (deps_map tasks) (ids tasks) cap tasks (_, false) (ids-All tasks)
      (Reach-Good tasks cap r)
Reach-Good tasks cap (launches r) =
    launch-Good (deps_map tasks) (ids tasks) cap tasks _ (ids-All tasks) (Reach-Good tasks cap r)
Reach-Good tasks cap (waits ended r) =
    finish_all-Good (deps_map tasks) (ids tasks) cap ended _ (Reach-Good tasks cap r)

-- In every state that the scheduler can reach, no more tasks are in flight than allowed, each of
-- them has no status yet and all its dependencies done, and the listener has heard of exactly the
-- statuses that are set, once each and in the order in which they were set.
pub Reach-safe :
    (tasks : List Task) (cap : ℕ) {s : State}
    → Reach tasks cap s
    → (length s.in_flight ≤ cap)
      × ((tid : String)
          → elem tid (ids s.in_flight) ≡ true
          → (has s.status tid ≡ false) × (is_startable (deps_map tasks) s.status tid ≡ true))
      × (map entry s.notified ≡ s.status)
Reach-safe tasks cap r =
    let (v, _) = Reach-Good tasks cap r in
    (v.within, λ tid m. (v.flying_open tid m, v.flying_ready tid m), v.heard)

-- A plan in which the linter finds no issue is scheduled to its end: with room for a task, and
-- waits that return only when some task in flight has ended, `schedule` returns one result for
-- each task, and raises no error.
pub lint_plan-schedule :
    (plan : Plan) (max_concurrency : ℕ) (finished : State → List (String × WorkerOutcome))
    → lint_plan plan ≡ []
    → 1 ≤ max_concurrency
    → ((s : State)
        → is_empty s.in_flight ≡ false
        → any (λ c. elem c.0 (ids s.in_flight)) (finished s) ≡ true)
    → (l : List ScheduledResult) × (schedule plan.tasks max_concurrency finished ≡ results l)
      × IsRun plan.tasks l
lint_plan-schedule plan cap finished clean room ends =
    let ok = (lint_plan_iff plan).0 clean in
    let (out, e) = ok.sorted in
    go (λ l dead. Deadlocked-unsorted plan.tasks l out dead e) _
      (schedule-Returns plan.tasks cap finished room ok.unique ends) refl
  where
    go :
        ((l : List String) → ¬ (Returns plan.tasks (dependency_cycle l)))
        → (r : Outcome) → Returns plan.tasks r
        → schedule plan.tasks cap finished ≡ r
        → (l : List ScheduledResult) × (schedule plan.tasks cap finished ≡ results l)
          × IsRun plan.tasks l
    go no_cycle (results l) h e = (l, e, h)
    go no_cycle (dependency_cycle l) h e = absurd (no_cycle l h)
    go no_cycle bad_concurrency h e = absurd h
    go no_cycle (duplicate_task tid) h e = absurd h
    go no_cycle (key_error tid) h e = absurd h
    go no_cycle out_of_fuel h e = absurd h
