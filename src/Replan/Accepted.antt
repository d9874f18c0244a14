-- ===== src/Replan/Accepted.antt =====
-- What becomes of a plan that `apply_replan` of src/dev_team/replan.py changes.
use dev_team.Prelude.{
  ℕ, ◌≤◌, ◌≡◌, ◌≢◌, String, true, false, not, ◌&&◌, ◌||◌, List, [], ◌∷◌, ◌==◌, elem, elem-filter,
  any, is_empty, distinct, arith,
}
use dev_team.Models.{Plan, ids}
use dev_team.Ordering.{Issue, lint_plan}
use dev_team.Ordering.Lint.{lint_plan_iff}
use dev_team.Scheduler.{State, WorkerOutcome, ScheduledResult, results, schedule}
use dev_team.Scheduler.Deadlock.{IsRun}
use dev_team.Scheduler.Reach.{lint_plan-schedule}
use dev_team.Replan.{
  Replan, survivors, remap_of, replacement_ids_of, new_plan, replanned, linted, apply_replan,
}
use dev_team.Replan.Ids.{
  ids-new_plan, elem-splice_ids, distinct-splice_ids, distinct-splice_ids_inv, mapped-assign_ids,
  distinct-mapped_inv,
}

replanned-linted :
    (q p : Plan) (issues : List Issue) → linted q issues ≡ replanned p → (issues ≡ []) × (p ≡ q)
unfolding linted
replanned-linted q p [] e = ground arith
replanned-linted q p (i ∷ is) e = ground arith

-- The checks that a plan has passed when it is returned.
replanned_inv :
    (plan p : Plan) (decision : Replan)
    → apply_replan plan decision ≡ replanned p
    → (elem decision.failed_task_id (ids plan.tasks) ≡ true)
      × (lint_plan (new_plan plan decision) ≡ [])
      × (p ≡ new_plan plan decision)
unfolding apply_replan
replanned_inv plan p decision e =
    ground (arith, replanned-linted (new_plan plan decision) p (lint_plan (new_plan plan decision)))

-- With distinct ids in the plan and among the replacements, the changed plan has distinct ids,
-- however the replacements' ids clash with the plan's.
pub distinct-new_plan :
    (plan : Plan) (decision : Replan)
    → distinct (ids plan.tasks) ≡ true
    → distinct (ids decision.replacements) ≡ true
    → distinct (ids (new_plan plan decision).tasks) ≡ true
unfolding replacement_ids_of remap_of survivors
distinct-new_plan plan decision unique apart =
    let failed = decision.failed_task_id in
    let fresh = mapped-assign_ids (survivors plan failed) [] decision.replacements apart in
    rw (ids-new_plan plan decision) (
      distinct-splice_ids failed (replacement_ids_of plan decision) (ids plan.tasks) fresh.0 unique
        (λ x m.
          ground (arith, fresh.1 x m, elem-filter (λ tid. not (tid == failed)) x (ids plan.tasks))))

-- `apply_replan` never returns a plan where two replacements were given with the same id.
pub apply_replan-distinct :
    (plan p : Plan) (decision : Replan)
    → distinct (ids decision.replacements) ≡ false
    → apply_replan plan decision ≢ replanned p
unfolding replacement_ids_of
apply_replan-distinct plan p decision repeated e =
    let (there, clean, _) = replanned_inv plan p decision e in
    let unique = ((lint_plan_iff (new_plan plan decision)).0 clean).unique in
    absurd (
      ground (
        arith,
        repeated,
        distinct-mapped_inv (remap_of plan decision) decision.replacements (
            distinct-splice_ids_inv decision.failed_task_id (replacement_ids_of plan decision)
              (ids plan.tasks) there (rw (ids-new_plan plan decision) at unique)),
      ))

-- The ids of a plan that `apply_replan` returns are those of the given plan but the failed task's,
-- and the new ids of the replacements.
pub elem-apply_replan :
    (plan p : Plan) (decision : Replan) (x : String)
    → apply_replan plan decision ≡ replanned p
    → elem x (ids p.tasks) ≡ (
        (elem x (ids plan.tasks) && not (x == decision.failed_task_id))
        || elem x (replacement_ids_of plan decision))
elem-apply_replan plan p decision x e =
    let (there, clean, same) = replanned_inv plan p decision e in
    rw (same, ids-new_plan plan decision)
      (ground (
        arith,
        there,
        elem-splice_ids decision.failed_task_id x (replacement_ids_of plan decision)
            (ids plan.tasks),
      ))

-- A plan that `apply_replan` returns is scheduled to its end: with room for a task, and waits that
-- return only when some task in flight has ended, `schedule` returns one result for each of its
-- tasks.
pub apply_replan-schedule :
    (plan p : Plan) (decision : Replan) (max_concurrency : ℕ)
    (finished : State → List (String × WorkerOutcome))
    → apply_replan plan decision ≡ replanned p
    → 1 ≤ max_concurrency
    → ((s : State)
        → is_empty s.in_flight ≡ false
        → any (λ c. elem c.0 (ids s.in_flight)) (finished s) ≡ true)
    → (l : List ScheduledResult) × (schedule p.tasks max_concurrency finished ≡ results l)
      × IsRun p.tasks l
apply_replan-schedule plan p decision cap finished e room ends =
    let (there, clean, same) = replanned_inv plan p decision e in
    lint_plan-schedule p cap finished (rw same clean) room ends
