-- ===== src/Workflow/Reports.antt =====
-- What the loop over the tasks tells of each: done in dependency order, or failed, and why.
use mathlib.Core.List.{Perm}
use dev_team.Prelude.{
  ◌≡◌, refl, ◌⊎◌, inl, inr, String, Bool, true, false, not, ◌&&◌, ◌||◌, List, [], ◌∷◌, map, ◌==◌,
  arith, filter, all, All, elem, is_empty, if◌then◌else◌,
}
use dev_team.Models.{done, failed, Task, ids, TaskResult, succeeded}
use dev_team.Budget.{exhausted}
use dev_team.Ordering.{real_deps}
use dev_team.Agents.{RunState}
use dev_team.Workflow.{TeamConfig}
use dev_team.Workflow.Attempts.{IsPassed, passes, attempts_allowed}

abbrev pub result_ids : List TaskResult → List String
result_ids results = map (λ r. r.task.id) results

-- Read from the first result on, with the ids of the tasks that are done: each task that is done
-- depends, among known tasks other than itself, on tasks that were done before it.
unfoldable pub in_order : (String → Bool) → List String → List TaskResult → Bool
in_order known done_ids [] = true
in_order known done_ids (r ∷ rs) =
    (not (succeeded r) || all (λ dep. elem dep done_ids) (real_deps known r.task))
    && in_order known (if succeeded r then r.task.id ∷ done_ids else done_ids) rs

-- A result of a task that is done where its last review approves and its last test report clears the
-- bar, and that has failed where one of them does not.
abbrev pub IsEnded : TeamConfig → TaskResult → Type 0
IsEnded config r =
    ((r.task.status ≡ done) × IsPassed config r)
    ⊎ ((r.task.status ≡ failed) × (passes config r.review r.test_report ≡ false))

-- Why a task may fail, with some tasks done before it: all the attempts allowed were made; or one of
-- its dependencies on other known tasks is not done; or the budget is exhausted.
abbrev pub IsExcused : (String → Bool) → TeamConfig → List String → TaskResult → RunState → Type 0
IsExcused known config done_ids r w =
    (r.attempts ≡ attempts_allowed config)
    ⊎ ((all (λ dep. elem dep done_ids) (real_deps known r.task) ≡ false)
        ⊎ (exhausted w.budget ≡ true))

-- Read from the first result on, as `in_order` does: each task that is not done has its reason.
abbrev pub AllExcused :
    (String → Bool) → TeamConfig → List String → List TaskResult → RunState → Type 0
AllExcused known config done_ids [] w = Unit
AllExcused known config done_ids (r ∷ rs) w =
    ((succeeded r ≡ true) ⊎ IsExcused known config done_ids r w)
    × AllExcused known config (if succeeded r then r.task.id ∷ done_ids else done_ids) rs w

-- A reason stays one while an exhausted budget stays exhausted.
AllExcused-later :
    (known : String → Bool) (config : TeamConfig) (u v : RunState) (rs : List TaskResult)
    (done_ids : List String)
    → (exhausted u.budget ≡ true → exhausted v.budget ≡ true)
    → AllExcused known config done_ids rs u
    → AllExcused known config done_ids rs v
AllExcused-later known config u v [] done_ids later h = tt
AllExcused-later known config u v (r ∷ rs) done_ids later (inl d, h) =
    (inl d, AllExcused-later known config u v rs _ later h)
AllExcused-later known config u v (r ∷ rs) done_ids later (inr (inl all_made), h) =
    (inr (inl all_made), AllExcused-later known config u v rs _ later h)
AllExcused-later known config u v (r ∷ rs) done_ids later (inr (inr (inl unmet)), h) =
    (inr (inr (inl unmet)), AllExcused-later known config u v rs _ later h)
AllExcused-later known config u v (r ∷ rs) done_ids later (inr (inr (inr over)), h) =
    (inr (inr (inr (later over))), AllExcused-later known config u v rs _ later h)

-- No dependency is unmet exactly where all that count are done.
pub unmet-real :
    (known done_ids deps : List String) (tid : String)
    → is_empty
        (filter (λ dep. elem dep known && (not (dep == tid) && not (elem dep done_ids))) deps)
      ≡ all (λ dep. elem dep done_ids) (filter (λ dep. elem dep known && not (dep == tid)) deps)
unfolding filter all
unmet-real known done_ids [] tid = refl
unmet-real known done_ids (dep ∷ deps) tid = ground (arith, unmet-real known done_ids deps tid)

pub succeeded_done : (r : TaskResult) → r.task.status ≡ done → succeeded r ≡ true
unfolding succeeded
succeeded_done r e = rw e refl

pub succeeded_failed : (r : TaskResult) → r.task.status ≡ failed → succeeded r ≡ false
unfolding succeeded
succeeded_failed r e = rw e refl

pub in_order-cons :
    (known : String → Bool) (done_ids : List String) (r : TaskResult) (rs : List TaskResult)
    (b : Bool)
    → succeeded r ≡ b
    → (not b || all (λ dep. elem dep done_ids) (real_deps known r.task)) ≡ true
    → in_order known (if b then r.task.id ∷ done_ids else done_ids) rs ≡ true
    → in_order known done_ids (r ∷ rs) ≡ true
unfolding in_order
in_order-cons known done_ids r rs b e ready order = rw e (rw ready order)

-- A result for each task, the done ones in dependency order, each done or failed, and failed for one
-- of the three reasons.
abbrev pub Reported : TeamConfig → List Task → List TaskResult → RunState → Type 0
Reported config tasks results w =
    Perm (result_ids results) (ids tasks)
    × (in_order (λ dep. elem dep (ids tasks)) [] results ≡ true)
    × All (IsEnded config) results
    × AllExcused (λ dep. elem dep (ids tasks)) config [] results w

pub Reported-later :
    (config : TeamConfig) (tasks : List Task) (results : List TaskResult) (u v : RunState)
    → (exhausted u.budget ≡ true → exhausted v.budget ≡ true)
    → Reported config tasks results u
    → Reported config tasks results v
Reported-later config tasks results u v later (same, order, ended, excused) =
    (same, order, ended, AllExcused-later _ config u v results [] later excused)
