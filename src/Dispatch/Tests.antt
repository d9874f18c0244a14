-- ===== src/Dispatch/Tests.antt =====
-- The theorems about the dispatch service at states of a run.
use dev_team.Prelude.{
  String, true, false, none, [], ◌∷◌, ◌≡◌, refl, elem, any, is_empty, distinct, ◌≤◌,
}
use dev_team.Prelude.Dict.{get, has, set}
use dev_team.Dispatch.{
  count_queued, submit, put, waiting_for, write_back, set_state, cancel_job, cancel_from, queued,
  running, cancelled, succeeded, todo, done, is_cancelled,
}
use dev_team.Dispatch.Worker.{putting, executing, World, submits, puts, cancels, Reach, next}
use dev_team.Dispatch.Exclusion.{held, Reach-exclusive}
use dev_team.Dispatch.Lifecycle.{Steps, stay, go, Reach-cancelled, executes}
use dev_team.Dispatch.States.{job_is}
use dev_team.Dispatch.Capacity.{Reach-count_queued-le}
use dev_team.Dispatch.Stuck.{parked-Steps}
use dev_team.Dispatch.Run.{spec, same_key, job, world, w5, w8, w17, r5, r8, r17}

Reach-exclusive_example :
    (distinct (held w8.hands) ≡ true)
    × ((k : String) → elem k w8.dispatcher.active_repos ≡ elem k (held w8.hands))
Reach-exclusive_example = Reach-exclusive same_key 16 r8

Reach-count_queued-le_example : count_queued w8.dispatcher.registry ≤ 16
Reach-count_queued-le_example = Reach-count_queued-le same_key 16 r8

-- Job 2 is cancelled before it is put.
abbrev after_cancel : World
after_cancel =
    world (("1", job running) ∷ ("2", job cancelled) ∷ []) ("1" ∷ "2" ∷ []) [] ("o/r" ∷ []) []
      ("2" ∷ []) ((none, todo) ∷ []) (putting "2" ∷ executing "o/r" "1" ∷ [])

abbrev after_put : World
after_put =
    world (("1", job running) ∷ ("2", job cancelled) ∷ []) ("1" ∷ "2" ∷ []) ("2" ∷ []) ("o/r" ∷ [])
      [] ("2" ∷ []) ((none, todo) ∷ []) (executing "o/r" "1" ∷ [])

Reach-after_cancel : Reach same_key 16 after_cancel
unfolding cancel_job cancel_from write_back set_state get set
Reach-after_cancel = next r5 (cancels w5 "2")

Steps-after_put : Steps same_key 16 after_cancel after_put
unfolding put
Steps-after_put = go (puts after_cancel [] _ "2" refl) stay

after_cancel-cancelled : job_is is_cancelled after_cancel.dispatcher "2" ≡ true
unfolding get
after_cancel-cancelled = refl

Reach-cancelled_example :
    (job_is is_cancelled after_put.dispatcher "2" ≡ true)
    × (any (executes "2") after_put.hands ≡ false)
Reach-cancelled_example =
    Reach-cancelled same_key 16 "2" Reach-after_cancel after_cancel-cancelled Steps-after_put

-- One more job is submitted after the run.
abbrev after_run : World
after_run =
    world (("1", job succeeded) ∷ ("2", job queued) ∷ ("3", job queued) ∷ ("4", job queued) ∷ [])
      ("1" ∷ "2" ∷ "3" ∷ "4" ∷ []) [] [] (("o/r", "2" ∷ "3" ∷ "3" ∷ []) ∷ []) ("1" ∷ [])
      ((none, done) ∷ []) (putting "4" ∷ [])

Steps-after_run : Steps same_key 16 w17 after_run
unfolding submit count_queued set has
Steps-after_run = go (submits w17 _ "4" spec 2 refl refl) stay

w17-parked : is_empty (waiting_for w17.dispatcher "o/r") ≡ false
unfolding waiting_for get
w17-parked = refl

parked-Steps_example :
    (elem "o/r" (held after_run.hands) ≡ false)
    × (is_empty (waiting_for after_run.dispatcher "o/r") ≡ false)
parked-Steps_example = parked-Steps same_key "o/r" 16 r17 refl refl w17-parked Steps-after_run
