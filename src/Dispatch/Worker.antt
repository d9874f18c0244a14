-- ===== src/Dispatch/Worker.antt =====
-- src/dev_team/dispatch.py: the threads of the service. Between two of its blocks, a worker or a
-- request holds a job in hand; each step is one block of one thread, in any order, with any number
-- of workers.
use dev_team.Prelude.{String, true, false, Option, none, some, List, [], ◌∷◌, ◌++◌, ◌≡◌, ℕ}
use dev_team.Prelude.Dict.{get, has}
use dev_team.Dispatch.{
  Dispatcher, initial, JobSpec, JobRecord, submit, put, claim, start_job, Ending, end_job,
  release_repo, cancel_job,
}

-- A job about to be put in the queue; one that a worker took from it; and, with their repository,
-- one that was claimed, one that runs, and one that has ended.
pub data Hand : Type 0 where
  putting popped : String → Hand
  claimed executing : String → String → Hand
  leaving : String → Hand

pub record World : Type 0 where
  pub dispatcher : Dispatcher
  pub hands : List Hand

-- The head of the parked jobs, if there is one, is put in the queue again.
abbrev pub to_put : Option String → List Hand
to_put none = []
to_put (some job_id) = putting job_id ∷ []

module _ (key_of : String → String) (queue_cap : ℕ) where
  pub data Step : World → World → Type 0 where
    submits :
        (s : World) (d : Dispatcher) (job_id : String) (spec : JobSpec) (position : ℕ)
        → has s.dispatcher.registry job_id ≡ false
        → submit queue_cap job_id spec s.dispatcher ≡ some (d, position)
        → Step s (record { dispatcher = d; hands = putting job_id ∷ s.hands })
    puts :
        (s : World) (before after : List Hand) (job_id : String)
        → s.hands ≡ before ++ putting job_id ∷ after
        → Step s (record { dispatcher = put job_id s.dispatcher; hands = before ++ after })
    pops :
        (s : World) (job_id : String) (queue : List String)
        → s.dispatcher.queue ≡ job_id ∷ queue
        → Step s (record {
          dispatcher = record s.dispatcher { queue = queue };
          hands = popped job_id ∷ s.hands;
        })
    claims :
        (s : World) (d : Dispatcher) (before after : List Hand) (job_id : String) (r : JobRecord)
        → s.hands ≡ before ++ popped job_id ∷ after
        → get s.dispatcher.registry job_id ≡ some r
        → claim (key_of r.spec.repo) job_id s.dispatcher ≡ (d, true)
        → Step s (record {
          dispatcher = d;
          hands = before ++ claimed (key_of r.spec.repo) job_id ∷ after;
        })
    parks :
        (s : World) (d : Dispatcher) (before after : List Hand) (job_id : String) (r : JobRecord)
        → s.hands ≡ before ++ popped job_id ∷ after
        → get s.dispatcher.registry job_id ≡ some r
        → claim (key_of r.spec.repo) job_id s.dispatcher ≡ (d, false)
        → Step s (record { dispatcher = d; hands = before ++ after })
    starts :
        (s : World) (d : Dispatcher) (before after : List Hand) (repo_key job_id : String)
        → s.hands ≡ before ++ claimed repo_key job_id ∷ after
        → start_job job_id s.dispatcher ≡ some d
        → Step s (record { dispatcher = d; hands = before ++ executing repo_key job_id ∷ after })
    skips :
        (s : World) (before after : List Hand) (repo_key job_id : String)
        → s.hands ≡ before ++ claimed repo_key job_id ∷ after
        → start_job job_id s.dispatcher ≡ none
        → Step s (record s { hands = before ++ leaving repo_key ∷ after })
    ends :
        (s : World) (before after : List Hand) (repo_key job_id : String) (e : Ending)
        → s.hands ≡ before ++ executing repo_key job_id ∷ after
        → Step s (record {
          dispatcher = end_job job_id e s.dispatcher;
          hands = before ++ leaving repo_key ∷ after;
        })
    releases :
        (s : World) (before after : List Hand) (repo_key : String)
        → s.hands ≡ before ++ leaving repo_key ∷ after
        → Step s (record {
          dispatcher = (release_repo repo_key s.dispatcher).0;
          hands = to_put (release_repo repo_key s.dispatcher).1 ++ (before ++ after);
        })
    cancels :
        (s : World) (job_id : String)
        → Step s (record s { dispatcher = (cancel_job job_id s.dispatcher).0 })

  pub data Reach : World → Type 0 where
    start : Reach (record { dispatcher = initial; hands = [] })
    next : {s t : World} → Reach s → Step s t → Reach t
