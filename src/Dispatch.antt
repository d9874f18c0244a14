-- ===== src/Dispatch.antt =====
-- src/dev_team/dispatch.py: the job queue of the dispatch service and its workers. `Dispatcher` is
-- the state that `_lock` and the queue guard; each operation below is one block that runs with the
-- lock, or one `put`, and Dispatch/Worker.antt composes them as the worker threads do. The key that
-- a repository is serialised by is any function of its name (`_repo_key`).
pub mod Worker
pub mod Exclusion
pub mod States
pub mod Lifecycle
pub mod Capacity
pub mod Parked
pub mod Transit
pub mod Home
pub mod Blocked
pub mod Stuck
pub mod Run
pub mod Tests
use dev_team.Prelude.{
  ℕ, zero, suc, ◌+◌, String, Bool, true, false, not, ◌&&◌, ◌||◌, Option, none, some, List, [], ◌∷◌,
  ◌++◌, ◌==◌, leb, if◌then◌else◌, length, is_empty, filter, elem,
}
use dev_team.Prelude.Int.{ℤ}
use dev_team.Prelude.Dict.{Dict, get, has, set, remove}

pub data JobState : Type 0 where
  queued running succeeded failed cancelled : JobState

pub data ItemStatus : Type 0 where
  todo in_progress done blocked declined : ItemStatus

pub record JobSpec : Type 0 where
  pub repo : String
  pub title : String
  pub description : String
  pub budget_usd : Option ℤ
  pub story_id : Option String

pub record JobRecord : Type 0 where
  pub spec : JobSpec
  pub state : JobState

-- `settled` holds the jobs whose completion event is set, `write_backs` the calls of
-- `_write_back_story`.
pub record Dispatcher : Type 0 where
  pub registry : Dict JobRecord
  pub order : List String
  pub queue : List String
  pub active_repos : List String
  pub deferred : Dict (List String)
  pub settled : List String
  pub write_backs : List (Option String × ItemStatus)

abbrev pub initial : Dispatcher
initial = record {
  registry = [];
  order = [];
  queue = [];
  active_repos = [];
  deferred = [];
  settled = [];
  write_backs = [];
}

abbrev pub is_queued : JobState → Bool
is_queued queued = true
is_queued _ = false

abbrev pub is_cancelled : JobState → Bool
is_cancelled cancelled = true
is_cancelled _ = false

unfoldable pub count_queued : Dict JobRecord → ℕ
count_queued [] = 0
count_queued ((job_id, r) ∷ rs) =
    if is_queued r.state then suc (count_queued rs) else count_queued rs

-- `submit` up to its `put`; `none` is QueueFull. The id is new, since its sequence number is.
unfoldable pub submit : ℕ → String → JobSpec → Dispatcher → Option (Dispatcher × ℕ)
submit queue_cap job_id spec d =
    let waiting = count_queued d.registry in
    if leb queue_cap waiting
    then none
    else some (
      record d {
        registry = set d.registry job_id (record { spec = spec; state = queued });
        order = d.order ++ job_id ∷ [];
      },
      waiting,
    )

-- `_queue.put`
unfoldable pub put : String → Dispatcher → Dispatcher
put job_id d = record d { queue = d.queue ++ job_id ∷ [] }

-- `_order.index`. A job that is missing, which the code would raise at, has the length.
pub position : List String → String → ℕ
position [] job_id = 0
position (j ∷ js) job_id = let rest = position js job_id in if j == job_id then 0 else suc rest

-- Behind all that are not behind it, so that the sort is stable.
insert_job : List String → String → List String → List String
insert_job order job_id [] = job_id ∷ []
insert_job order job_id (j ∷ js) =
    let rest = insert_job order job_id js in
    if leb (position order j) (position order job_id) then j ∷ rest else job_id ∷ j ∷ js

-- `bucket.sort(key=self._order.index)`
pub sort_jobs : List String → List String → List String → List String
sort_jobs order sorted [] = sorted
sort_jobs order sorted (j ∷ js) = sort_jobs order (insert_job order j sorted) js

-- A missing list and an empty one count the same.
abbrev pub or_nil : Option (List String) → List String
or_nil none = []
or_nil (some l) = l

-- `_deferred.get(repo_key)`
pub waiting_for : Dispatcher → String → List String
waiting_for d repo_key = or_nil (get d.deferred repo_key)

pub is_head_of_line : List String → String → Bool
is_head_of_line [] job_id = true
is_head_of_line (h ∷ l) job_id = h == job_id

park : String → String → Dispatcher → Dispatcher
park repo_key job_id d = record d {
  deferred = set d.deferred repo_key (sort_jobs d.order [] (waiting_for d repo_key ++ job_id ∷ []));
}

-- `waiting.pop(0)`, and the list itself where it is empty then.
drop_head : String → List String → Dict (List String) → Dict (List String)
drop_head repo_key [] deferred = deferred
drop_head repo_key (h ∷ []) deferred = remove deferred repo_key
drop_head repo_key (h ∷ j ∷ l) deferred = set deferred repo_key (j ∷ l)

-- The locked block of `_worker_loop`, and whether the worker goes on to execute the job.
pub claim : String → String → Dispatcher → Dispatcher × Bool
claim repo_key job_id d =
    let waiting = waiting_for d repo_key in
    if elem repo_key d.active_repos || not (is_head_of_line waiting job_id)
    then (park repo_key job_id d, false)
    else (
      record d {
        deferred = drop_head repo_key waiting d.deferred;
        active_repos = repo_key ∷ d.active_repos;
      },
      true,
    )

set_state : String → JobState → Option JobRecord → Dict JobRecord → Dict JobRecord
set_state job_id st none registry = registry
set_state job_id st (some r) registry = set registry job_id (record r { state = st })

write_back : Option JobRecord → ItemStatus → Dispatcher → Dispatcher
write_back none st d = d
write_back (some r) st d = record d { write_backs = d.write_backs ++ (r.spec.story_id, st) ∷ [] }

-- The first locked block of `_execute`; the job does not run where it was cancelled.
start_from : String → Option JobRecord → Dispatcher → Option Dispatcher
start_from job_id none d = none
start_from job_id (some r) d =
    if is_cancelled r.state
    then none
    else some (record d { registry = set_state job_id running (some r) d.registry })

pub start_job : String → Dispatcher → Option Dispatcher
start_job job_id d = start_from job_id (get d.registry job_id) d

-- How a job that runs ends: `run_job` raises, returns an outcome with or without success, or the
-- time limit stops it.
pub data Ending : Type 0 where
  raises times_out : Ending
  returns : Bool → Ending

pub ended_state : Ending → JobState
ended_state raises = failed
ended_state times_out = failed
ended_state (returns success) = succeeded

pub story_status : Ending → ItemStatus
story_status raises = blocked
story_status times_out = blocked
story_status (returns true) = done
story_status (returns false) = blocked

-- The rest of `_execute`, or `_fail_timed_out`.
pub end_job : String → Ending → Dispatcher → Dispatcher
end_job job_id e d =
    let r = get d.registry job_id in
    write_back r (story_status e) (record d {
      registry = set_state job_id (ended_state e) r d.registry;
      settled = job_id ∷ d.settled;
    })

pub first_of : List String → Option String
first_of [] = none
first_of (h ∷ l) = some h

-- `_release_repo` up to its `put`, and the job to put.
pub release_repo : String → Dispatcher → Dispatcher × Option String
release_repo repo_key d = (
  record d { active_repos = filter (λ k. not (k == repo_key)) d.active_repos },
  first_of (waiting_for d repo_key),
)

pub data CancelReply : Type 0 where
  unknown_job was_cancelled : CancelReply
  not_queued : JobState → CancelReply

cancel_from : String → Option JobRecord → Dispatcher → Dispatcher × CancelReply
cancel_from job_id none d = (d, unknown_job)
cancel_from job_id (some r) d =
    if is_queued r.state
    then (
      write_back (some r) todo (record d {
        registry = set_state job_id cancelled (some r) d.registry;
        settled = job_id ∷ d.settled;
      }),
      was_cancelled,
    )
    else (d, not_queued r.state)

pub cancel_job : String → Dispatcher → Dispatcher × CancelReply
cancel_job job_id d = cancel_from job_id (get d.registry job_id) d
