-- ===== src/Dispatch/Capacity.antt =====
-- The bound on the jobs that wait.
use dev_team.Prelude.{
  ℕ, suc, ◌≤◌, String, Bool, true, false, Option, none, some, [], ◌∷◌, ◌≡◌, refl, arith,
}
use dev_team.Prelude.Dict.{Dict, set, get}
use dev_team.Dispatch.{
  Dispatcher, JobSpec, JobRecord, JobState, queued, running, cancelled, is_queued, count_queued,
  submit, put, claim, park, start_job, start_from, set_state, end_job, Ending, raises, times_out,
  returns, ended_state, write_back, release_repo, cancel_job, cancel_from,
}
use dev_team.Dispatch.Worker.{
  World, submits, puts, pops, claims, parks, starts, skips, ends, releases, cancels, Reach, start,
  next,
}

abbrev waiting : Dispatcher → ℕ
waiting d = count_queued d.registry

count_queued-set-le :
    (d : Dict JobRecord) (j : String) (r : JobRecord)
    → is_queued r.state ≡ false
    → count_queued (set d j r) ≤ count_queued d
unfolding count_queued set
count_queued-set-le [] j r h = ground arith
count_queued-set-le ((i, q) ∷ d) j r h = ground (arith, count_queued-set-le d j r h)

count_queued-set-le_suc :
    (d : Dict JobRecord) (j : String) (r : JobRecord)
    → count_queued (set d j r) ≤ suc (count_queued d)
unfolding count_queued set
count_queued-set-le_suc [] j r = ground arith
count_queued-set-le_suc ((i, q) ∷ d) j r = ground (arith, count_queued-set-le_suc d j r)

count_queued-set_state-le :
    (d : Dict JobRecord) (j : String) (st : JobState) (r : Option JobRecord)
    → is_queued st ≡ false
    → count_queued (set_state j st r d) ≤ count_queued d
unfolding set_state
count_queued-set_state-le d j st none h = omega arith
count_queued-set_state-le d j st (some r) h = count_queued-set-le d j _ h

waiting-submit :
    (cap : ℕ) (j : String) (spec : JobSpec) (d d' : Dispatcher) (n : ℕ)
    → submit cap j spec d ≡ some (d', n)
    → waiting d' ≤ cap
unfolding submit
waiting-submit cap j spec d d' n h =
    ground (arith, count_queued-set-le_suc d.registry j (record { spec = spec; state = queued }))

waiting-put : (j : String) (d : Dispatcher) → waiting (put j d) ≡ waiting d
unfolding put
waiting-put j d = refl

waiting-claim :
    (k j : String) (d d' : Dispatcher) (b : Bool) → claim k j d ≡ (d', b) → waiting d' ≡ waiting d
unfolding claim park
waiting-claim k j d d' b h = ground arith

waiting-start_from :
    (j : String) (o : Option JobRecord) (d d' : Dispatcher)
    → start_from j o d ≡ some d'
    → waiting d' ≤ waiting d
unfolding start_from
waiting-start_from j none d d' h = cc
waiting-start_from j (some r) d d' h =
    ground (arith, count_queued-set_state-le d.registry j running (some r) refl)

waiting-start : (j : String) (d d' : Dispatcher) → start_job j d ≡ some d' → waiting d' ≤ waiting d
unfolding start_job
waiting-start j d d' h = waiting-start_from j (get d.registry j) d d' h

ended-not_queued : (e : Ending) → is_queued (ended_state e) ≡ false
unfolding ended_state
ended-not_queued raises = refl
ended-not_queued times_out = refl
ended-not_queued (returns b) = refl

waiting-write_back :
    (r : Option JobRecord) (st : _) (d : Dispatcher) → waiting (write_back r st d) ≡ waiting d
unfolding write_back
waiting-write_back none st d = refl
waiting-write_back (some r) st d = refl

waiting-end : (j : String) (e : Ending) (d : Dispatcher) → waiting (end_job j e d) ≤ waiting d
unfolding end_job
waiting-end j e d =
    rw (waiting-write_back (get d.registry j)) (
      count_queued-set_state-le d.registry j (ended_state e) (get d.registry j)
        (ended-not_queued e))

waiting-cancel_from :
    (j : String) (r : Option JobRecord) (d : Dispatcher) → waiting (cancel_from j r d).0 ≤ waiting d
unfolding cancel_from write_back
waiting-cancel_from j none d = omega arith
waiting-cancel_from j (some r) d =
    ground (arith, count_queued-set_state-le d.registry j cancelled (some r) refl)

waiting-cancel : (j : String) (d : Dispatcher) → waiting (cancel_job j d).0 ≤ waiting d
unfolding cancel_job
waiting-cancel j d = waiting-cancel_from j (get d.registry j) d

waiting-release : (k : String) (d : Dispatcher) → waiting (release_repo k d).0 ≡ waiting d
unfolding release_repo
waiting-release k d = refl

module _ (key_of : String → String) (queue_cap : ℕ) where
  -- In every state that the service can reach, at most `queue_cap` jobs are queued.
  pub Reach-count_queued-le :
      {s : World} → Reach key_of queue_cap s → count_queued s.dispatcher.registry ≤ queue_cap
  unfolding count_queued
  Reach-count_queued-le start = omega arith
  Reach-count_queued-le (next r (submits s d j spec n fresh e)) =
      waiting-submit queue_cap j spec s.dispatcher d n e
  Reach-count_queued-le (next r (puts s before after j e)) =
      omega (arith, waiting-put j s.dispatcher, Reach-count_queued-le r)
  Reach-count_queued-le (next r (pops s j queue e)) = Reach-count_queued-le r
  Reach-count_queued-le (next r (claims s d before after j q e found c)) =
      omega (arith, waiting-claim _ j s.dispatcher d true c, Reach-count_queued-le r)
  Reach-count_queued-le (next r (parks s d before after j q e found c)) =
      omega (arith, waiting-claim _ j s.dispatcher d false c, Reach-count_queued-le r)
  Reach-count_queued-le (next r (starts s d before after k j e st)) =
      omega (arith, waiting-start j s.dispatcher d st, Reach-count_queued-le r)
  Reach-count_queued-le (next r (skips s before after k j e st)) = Reach-count_queued-le r
  Reach-count_queued-le (next r (ends s before after k j o e)) =
      omega (arith, waiting-end j o s.dispatcher, Reach-count_queued-le r)
  Reach-count_queued-le (next r (releases s before after k e)) =
      omega (arith, waiting-release k s.dispatcher, Reach-count_queued-le r)
  Reach-count_queued-le (next r (cancels s j)) =
      omega (arith, waiting-cancel j s.dispatcher, Reach-count_queued-le r)
