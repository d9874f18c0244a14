-- ===== src/Scheduler.antt =====
-- src/dev_team/scheduler.py: tasks run concurrently, as their dependencies allow. The coroutine's
-- state between two waits is a record; what the event loop and the workers do during a wait is
-- the parameter `finished`: from the state, the tasks that end before the wait returns, each with
-- what its worker did. Names of the source: `resolve`, `run_one` (here `finish_one`), the two `for`
-- loops (`cascade`, `launch`) and the `while` loop (`run_loop`, one round of it `turn`). Each round
-- gives at least one task its status, so one round more than there are tasks is fuel enough.
pub mod Invariant
pub mod Steps
pub mod Progress
pub mod Deadlock
pub mod Totality
pub mod Reach
pub mod Tests
use dev_team.Prelude.{
  ℕ, zero, suc, String, Bool, true, false, not, ◌&&◌, ◌||◌, Option, none, some, List, [], ◌∷◌, ◌++◌,
  ◌==◌, leb, if◌then◌else◌, length, is_empty, filter, all, any, elem,
}
use dev_team.Prelude.Dict.{Dict, get, has, set}
use dev_team.Models.{Task, ids}
use dev_team.Ordering.{deps_map, deps_of}

pub data ScheduleStatus : Type 0 where
  done failed skipped : ScheduleStatus

pub record ScheduledResult : Type 0 where
  pub task_id : String
  pub status : ScheduleStatus
  pub error : Option String

-- What `await worker(task)` gives: a verdict, or an exception with its rendering.
pub data WorkerOutcome : Type 0 where
  returned : Bool → WorkerOutcome
  raised : String → WorkerOutcome

pub record State : Type 0 where
  pub status : Dict ScheduleStatus
  pub started : List String
  pub in_flight : List Task
  pub notified : List ScheduledResult

abbrev pub initial : State
initial = record { status = []; started = []; in_flight = []; notified = [] }

-- `resolve`: the listener hears of every status that is set.
pub resolve : String → ScheduleStatus → Option String → State → State
resolve tid outcome error s = record s {
  status = set s.status tid outcome;
  notified = s.notified ++ record { task_id = tid; status = outcome; error = error } ∷ [];
}

pub is_done : Option ScheduleStatus → Bool
is_done (some done) = true
is_done _ = false

-- `status.get(d) in (FAILED, SKIPPED)`
pub is_doomed : Option ScheduleStatus → Bool
is_doomed (some failed) = true
is_doomed (some skipped) = true
is_doomed _ = false

-- `t.id in status or t.id in started`
pub is_claimed : State → String → Bool
is_claimed s tid = has s.status tid || elem tid s.started

module _ (deps : Dict (List String)) where
  pub is_blocked : Dict ScheduleStatus → String → Bool
  is_blocked status tid = any (λ d. is_doomed (get status d)) (deps_of deps tid)

  pub is_startable : Dict ScheduleStatus → String → Bool
  is_startable status tid = all (λ d. is_done (get status d)) (deps_of deps tid)

  -- One task of the cascade, with `newly_skipped`.
  pub cascade_one : Task → State × Bool → State × Bool
  cascade_one t (s, newly) =
      if is_claimed s t.id
      then (s, newly)
      else if is_blocked s.status t.id
      then (resolve t.id skipped none s, true)
      else (s, newly)

  pub cascade : List Task → State × Bool → State × Bool
  cascade [] acc = acc
  cascade (t ∷ ts) acc = cascade ts (cascade_one t acc)

  pub launch_one : Task → State → State
  launch_one t s =
      if is_claimed s t.id
      then s
      else if is_startable s.status t.id
      then record s { in_flight = s.in_flight ++ t ∷ []; started = t.id ∷ s.started }
      else s

  -- The loop breaks when the capacity is used up.
  pub launch : ℕ → List Task → State → State
  launch max_concurrency [] s = s
  launch max_concurrency (t ∷ ts) s =
      let rest = launch max_concurrency ts (launch_one t s) in
      if leb max_concurrency (length s.in_flight) then s else rest

pub verdict : WorkerOutcome → ScheduleStatus
verdict (returned true) = done
verdict (returned false) = failed
verdict (raised e) = failed

pub error_of : WorkerOutcome → Option String
error_of (returned ok) = none
error_of (raised e) = some e

-- The end of `run_one`, and of its asyncio task. Only a task that is in flight can end.
pub finish_one : String × WorkerOutcome → State → State
finish_one (tid, outcome) s =
    if elem tid (ids s.in_flight)
    then resolve tid (verdict outcome) (error_of outcome)
        (record s { in_flight = filter (λ t. not (t.id == tid)) s.in_flight })
    else s

pub finish_all : List (String × WorkerOutcome) → State → State
finish_all [] s = s
finish_all (c ∷ cs) s = finish_all cs (finish_one c s)

-- How a round of the `while` loop ends.
pub data Turn : Type 0 where
  go_on : State → Turn
  cycle_error : List String → Turn

module _ (tasks : List Task) (max_concurrency : ℕ)
    (finished : State → List (String × WorkerOutcome)) where
  -- The round from the launches on, with no task newly skipped.
  pub launch_and_wait : State → Turn
  launch_and_wait s =
      let s' = launch (deps_map tasks) max_concurrency tasks s in
      if is_empty s'.in_flight
      then cycle_error (filter (λ tid. not (is_claimed s' tid)) (ids tasks))
      else go_on (finish_all (finished s') s')

  after_cascade : State × Bool → Turn
  after_cascade (s, true) = go_on s
  after_cascade (s, false) = launch_and_wait s

  pub turn : State → Turn
  turn s = after_cascade (cascade (deps_map tasks) tasks (s, false))

-- What `schedule` returns or raises. `key_error` is `status[t.id]` of a task with no status.
pub data Outcome : Type 0 where
  results : List ScheduledResult → Outcome
  bad_concurrency : Outcome
  duplicate_task : String → Outcome
  dependency_cycle : List String → Outcome
  key_error : String → Outcome
  out_of_fuel : Outcome

collect_step : Task → Option ScheduleStatus → Outcome → Outcome
collect_step t none rest = key_error t.id
collect_step t (some st) (results l) =
    results (record { task_id = t.id; status = st; error = none } ∷ l)
collect_step t (some st) rest = rest

-- `[ScheduledResult(t.id, status[t.id]) for t in tasks]`
pub collect : Dict ScheduleStatus → List Task → Outcome
collect status [] = results []
collect status (t ∷ ts) = collect_step t (get status t.id) (collect status ts)

-- The id of the first task whose id an earlier task has.
pub first_duplicate : List String → List Task → Option String
first_duplicate seen [] = none
first_duplicate seen (t ∷ ts) =
    let rest = first_duplicate (t.id ∷ seen) ts in if elem t.id seen then some t.id else rest

module _ (tasks : List Task) (max_concurrency : ℕ)
    (finished : State → List (String × WorkerOutcome)) where
  pub run_loop : ℕ → State → Outcome
  run_loop zero s = out_of_fuel
  run_loop (suc fuel) s =
      if leb (length tasks) (length s.status)
      then collect s.status tasks
      else elim (turn tasks max_concurrency finished s) [
        | go_on s' ↦ run_loop fuel s'
        | cycle_error l ↦ dependency_cycle l
      ]

  checked : Option String → Outcome
  checked (some tid) = duplicate_task tid
  checked none = run_loop (suc (length tasks)) initial

  pub schedule : Outcome
  schedule = if leb 1 max_concurrency then checked (first_duplicate [] tasks) else bad_concurrency
