-- ===== src/Dispatch/Parked.antt =====
-- What the operations do to the parked jobs and to the jobs' specs.
use dev_team.Prelude.{
  ℕ, String, true, false, ◌&&◌, ◌||◌, Option, none, some, List, [], ◌∷◌, ◌++◌, ◌≡◌, refl, ◌==◌,
  if◌then◌else◌, elem, elem-append, arith, eq_iff, eq_refl, is_empty,
}
use dev_team.Prelude.Dict.{Dict, get, get-set, get-remove}
use dev_team.Dispatch.{
  Dispatcher, JobSpec, JobRecord, JobState, ItemStatus, queued, running, cancelled, submit, claim,
  park, drop_head, is_head_of_line, waiting_for, or_nil, insert_job, sort_jobs, start_job,
  start_from, set_state, end_job, Ending, ended_state, write_back, cancel_job, cancel_from,
}

abbrev pub spec_of : Option JobRecord → Option JobSpec
spec_of none = none
spec_of (some r) = some r.spec

abbrev pub spec_in : Dispatcher → String → Option JobSpec
spec_in d j = spec_of (get d.registry j)

pub spec-submit :
    (cap : ℕ) (i j : String) (spec : JobSpec) (d d' : Dispatcher) (n : ℕ)
    → submit cap i spec d ≡ some (d', n)
    → spec_in d' j ≡ (if i == j then some spec else spec_in d j)
unfolding submit
spec-submit cap i j spec d d' n h =
    ground (arith, get-set d.registry i j (record { spec = spec; state = queued }), eq_iff i j)

spec_of-set_state :
    (j i : String) (st : JobState) (o : Option JobRecord) (d : Dict JobRecord)
    → get d i ≡ o
    → spec_of (get (set_state i st o d) j) ≡ spec_of (get d j)
unfolding set_state
spec_of-set_state j i st none d e = refl
spec_of-set_state j i st (some r) d e =
    ground (arith, get-set d i j (record r { state = st }), eq_iff i j)

pub spec-start :
    (i j : String) (d d' : Dispatcher)
    → start_job i d ≡ some d'
    → (spec_in d' j ≡ spec_in d j) × (d'.deferred ≡ d.deferred) × (d'.queue ≡ d.queue)
unfolding start_job start_from
spec-start i j d d' h = go (get d.registry i) refl h
  where
    go :
        (o : Option JobRecord)
        → get d.registry i ≡ o
        → start_from i o d ≡ some d'
        → (spec_in d' j ≡ spec_in d j) × (d'.deferred ≡ d.deferred) × (d'.queue ≡ d.queue)
    go none e h = cc
    go (some r) e h = ground (arith, spec_of-set_state j i running (some r) d.registry e)

write_back_facts :
    (o : Option JobRecord) (st : ItemStatus) (d : Dispatcher)
    → ((write_back o st d).registry ≡ d.registry)
      × ((write_back o st d).deferred ≡ d.deferred)
      × ((write_back o st d).queue ≡ d.queue)
unfolding write_back
write_back_facts none st d = (refl, refl, refl)
write_back_facts (some r) st d = (refl, refl, refl)

pub spec-end :
    (i j : String) (e : Ending) (d : Dispatcher)
    → (spec_in (end_job i e d) j ≡ spec_in d j)
      × ((end_job i e d).deferred ≡ d.deferred)
      × ((end_job i e d).queue ≡ d.queue)
unfolding end_job
spec-end i j e d =
    let (r, f, q) = write_back_facts (get d.registry i) _ _ in
    (rw r (spec_of-set_state j i (ended_state e) (get d.registry i) d.registry refl), f, q)

pub spec-cancel :
    (i j : String) (d : Dispatcher)
    → (spec_in (cancel_job i d).0 j ≡ spec_in d j)
      × ((cancel_job i d).0.deferred ≡ d.deferred)
      × ((cancel_job i d).0.queue ≡ d.queue)
unfolding cancel_job cancel_from write_back
spec-cancel i j d = go (get d.registry i) refl
  where
    go :
        (o : Option JobRecord)
        → get d.registry i ≡ o
        → (spec_in (cancel_from i o d).0 j ≡ spec_in d j)
          × ((cancel_from i o d).0.deferred ≡ d.deferred)
          × ((cancel_from i o d).0.queue ≡ d.queue)
    go none e = (refl, refl, refl)
    go (some r) e = ground (arith, spec_of-set_state j i cancelled (some r) d.registry e)

elem-insert_job :
    (order : List String) (i j : String) (l : List String)
    → elem j (insert_job order i l) ≡ (i == j || elem j l)
unfolding elem insert_job
elem-insert_job order i j [] = refl
elem-insert_job order i j (x ∷ l) = ground (arith, elem-insert_job order i j l)

pub elem-sort_jobs :
    (order : List String) (j : String) (sorted l : List String)
    → elem j (sort_jobs order sorted l) ≡ (elem j sorted || elem j l)
unfolding elem sort_jobs
elem-sort_jobs order j sorted [] = ground arith
elem-sort_jobs order j sorted (x ∷ l) =
    ground (
      arith,
      elem-sort_jobs order j (insert_job order x sorted) l,
      elem-insert_job order x j sorted,
    )

abbrev tail : List String → List String
tail [] = []
tail (x ∷ l) = l

waiting-drop_head :
    (k k' : String) (l : List String) (deferred : Dict (List String))
    → or_nil (get deferred k) ≡ l
    → or_nil (get (drop_head k l deferred) k')
      ≡ (if k == k' then tail l else or_nil (get deferred k'))
unfolding drop_head
waiting-drop_head k k' [] deferred e = ground (arith, eq_iff k k')
waiting-drop_head k k' (h ∷ []) deferred e = ground (arith, get-remove deferred k k')
waiting-drop_head k k' (h ∷ i ∷ l) deferred e = ground (arith, get-set deferred k k' (i ∷ l))

elem-tail : (x : String) (l : List String) → elem x (tail l) ≡ true → elem x l ≡ true
unfolding elem
elem-tail x [] m = m
elem-tail x (y ∷ l) m = ground arith

is_empty-elem : (x : String) (l : List String) → elem x l ≡ true → is_empty l ≡ false
unfolding elem
is_empty-elem x [] m = cc
is_empty-elem x (y ∷ l) m = refl

-- The block that claims a job takes it from the head of its repository's list.
pub claim_facts :
    (k i : String) (d d' : Dispatcher)
    → claim k i d ≡ (d', true)
    → (is_head_of_line (waiting_for d k) i ≡ true)
      × (d'.queue ≡ d.queue)
      × ((k' : String)
          → waiting_for d' k' ≡ (if k == k' then tail (waiting_for d k) else waiting_for d k'))
unfolding claim waiting_for
claim_facts k i d d' h = (
  ground arith,
  ground arith,
  λ k'. ground (arith, waiting-drop_head k k' (or_nil (get d.deferred k)) d.deferred refl),
)

-- The block that parks a job puts it in its repository's list.
pub park_facts :
    (k i : String) (d d' : Dispatcher)
    → claim k i d ≡ (d', false)
    → (d'.queue ≡ d.queue)
      × ((k' : String)
          → waiting_for d' k' ≡ (
              if k == k'
              then sort_jobs d.order [] (waiting_for d k ++ i ∷ [])
              else waiting_for d k'))
unfolding claim park waiting_for
park_facts k i d d' h = (
  ground arith,
  λ k'.
      ground (
        arith,
        get-set d.deferred k k' (sort_jobs d.order [] (or_nil (get d.deferred k) ++ i ∷ [])),
      ),
)

pub elem-claim :
    (k i k' x : String) (d d' : Dispatcher)
    → claim k i d ≡ (d', true)
    → elem x (waiting_for d' k') ≡ true
    → elem x (waiting_for d k') ≡ true
elem-claim k i k' x d d' h m =
    ground (arith, (claim_facts k i d d' h).2 k', elem-tail x (waiting_for d k), eq_iff k k')

pub elem-park :
    (k i k' x : String) (d d' : Dispatcher)
    → claim k i d ≡ (d', false)
    → elem x (waiting_for d' k') ≡ (elem x (waiting_for d k') || (k == k' && (i == x)))
unfolding elem
elem-park k i k' x d d' h = ground (
  arith,
  (park_facts k i d d' h).1 k',
  elem-sort_jobs d.order x [] (waiting_for d k ++ i ∷ []),
  elem-append x (waiting_for d k) (i ∷ []),
  eq_iff k k',
)

pub not_empty-park :
    (k i k' : String) (d d' : Dispatcher)
    → claim k i d ≡ (d', false)
    → is_empty (waiting_for d k') ≡ false
    → is_empty (waiting_for d' k') ≡ false
not_empty-park k i k' d d' h m = ground (
  arith,
  (park_facts k i d d' h).1 k',
  elem-park k i k' i d d' h,
  eq_refl i,
  is_empty-elem i (waiting_for d' k'),
)
