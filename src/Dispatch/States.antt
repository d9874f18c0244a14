-- ===== src/Dispatch/States.antt =====
-- What the operations do to the states of the jobs.
use dev_team.Prelude.{
  ℕ, String, Bool, true, false, ◌&&◌, Option, none, some, ◌≡◌, refl, ◌==◌, if◌then◌else◌, arith,
  eq_iff,
}
use dev_team.Prelude.Dict.{Dict, get, has, get-set, get-none}
use dev_team.Dispatch.{
  Dispatcher, JobSpec, JobRecord, JobState, ItemStatus, queued, running, cancelled, is_queued,
  is_cancelled, submit, put, claim, park, start_job, start_from, set_state, end_job, Ending, raises,
  times_out, returns, ended_state, write_back, release_repo, cancel_job, cancel_from,
}

abbrev pub is_started : JobState → Bool
is_started queued = false
is_started cancelled = false
is_started _ = true

-- The job is registered, in a state that passes the test.
abbrev pub is_in : (JobState → Bool) → Option JobRecord → Bool
is_in p none = false
is_in p (some r) = p r.state

abbrev pub job_is : (JobState → Bool) → Dispatcher → String → Bool
job_is p d j = is_in p (get d.registry j)

pub job_is-submit :
    (p : JobState → Bool) (cap : ℕ) (i j : String) (spec : JobSpec) (d d' : Dispatcher) (n : ℕ)
    → submit cap i spec d ≡ some (d', n)
    → has d.registry i ≡ false
    → job_is p d j ≡ true
    → job_is p d' j ≡ true
unfolding submit
job_is-submit p cap i j spec d d' n h fresh m = ground (
  arith,
  get-set d.registry i j (record { spec = spec; state = queued }),
  get-none d.registry i fresh,
  eq_iff i j,
)

pub job_is-put :
    (p : JobState → Bool) (i j : String) (d : Dispatcher) → job_is p (put i d) j ≡ job_is p d j
unfolding put
job_is-put p i j d = refl

pub registry-claim :
    (k j : String) (d d' : Dispatcher) (b : Bool) → claim k j d ≡ (d', b) → d'.registry ≡ d.registry
unfolding claim park
registry-claim k j d d' b h = ground arith

pub registry-release : (k : String) (d : Dispatcher) → (release_repo k d).0.registry ≡ d.registry
unfolding release_repo
registry-release k d = refl

registry-write_back :
    (r : Option JobRecord) (st : ItemStatus) (d : Dispatcher)
    → (write_back r st d).registry ≡ d.registry
unfolding write_back
registry-write_back none st d = refl
registry-write_back (some r) st d = refl

get-set_state :
    (j i : String) (st : JobState) (r : Option JobRecord) (d : Dict JobRecord)
    → get d i ≡ r
    → (p : JobState → Bool)
    → is_in p (get (set_state i st r d) j)
      ≡ (if i == j then is_in (λ x. p st) r else is_in p (get d j))
unfolding set_state
get-set_state j i st none d e p = ground (arith, eq_iff i j)
get-set_state j i st (some r) d e p = ground (arith, get-set d i j (record r { state = st }))

-- The states of the jobs after a job was started, ended or cancelled.
pub job_is-start :
    (p : JobState → Bool) (i j : String) (d d' : Dispatcher)
    → start_job i d ≡ some d'
    → job_is p d' j ≡ (if i == j then p running else job_is p d j)
unfolding start_job start_from
job_is-start p i j d d' h = go (get d.registry i) refl h
  where
    go :
        (o : Option JobRecord)
        → get d.registry i ≡ o
        → start_from i o d ≡ some d'
        → job_is p d' j ≡ (if i == j then p running else job_is p d j)
    go none e h = cc
    go (some r) e h = ground (arith, get-set_state j i running (some r) d.registry e p)

pub start-not_cancelled :
    (i : String) (d d' : Dispatcher) → start_job i d ≡ some d' → job_is is_cancelled d i ≡ false
unfolding start_job start_from
start-not_cancelled i d d' h = ground arith

pub job_is-end :
    (p : JobState → Bool) (i j : String) (e : Ending) (d : Dispatcher)
    → job_is p (end_job i e d) j
      ≡ (if i == j then is_in (λ x. p (ended_state e)) (get d.registry i) else job_is p d j)
unfolding end_job
job_is-end p i j e d =
    rw (registry-write_back (get d.registry i))
      (get-set_state j i (ended_state e) (get d.registry i) d.registry refl p)

pub job_is-cancel :
    (p : JobState → Bool) (i j : String) (d : Dispatcher)
    → job_is p (cancel_job i d).0 j
      ≡ (if i == j && job_is is_queued d i then p cancelled else job_is p d j)
unfolding cancel_job cancel_from write_back
job_is-cancel p i j d = go (get d.registry i) refl
  where
    go :
        (o : Option JobRecord)
        → get d.registry i ≡ o
        → job_is p (cancel_from i o d).0 j
          ≡ (if i == j && is_in is_queued o then p cancelled else job_is p d j)
    go none e = ground arith
    go (some r) e = ground (arith, get-set_state j i cancelled (some r) d.registry e p)

-- A started job is registered, and neither queued nor cancelled.
pub started-facts :
    (o : Option JobRecord)
    → is_in is_started o ≡ true
    → (is_in is_queued o ≡ false)
      × (is_in is_cancelled o ≡ false)
      × ((e : Ending) → is_in (λ x. is_started (ended_state e)) o ≡ true)
unfolding ended_state
started-facts none h = cc
started-facts (some r) h = (ground arith, ground arith, ended)
  where
    ended : (e : Ending) → is_started (ended_state e) ≡ true
    ended raises = refl
    ended times_out = refl
    ended (returns b) = refl

pub cancelled-facts :
    (o : Option JobRecord)
    → is_in is_cancelled o ≡ true
    → (is_in is_queued o ≡ false) × (is_in is_started o ≡ false)
cancelled-facts none h = cc
cancelled-facts (some r) h = ground arith
