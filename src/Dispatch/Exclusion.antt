-- ===== src/Dispatch/Exclusion.antt =====
-- Two jobs of one repository never run at the same time.
use dev_team.Prelude.{
  ℕ, String, true, false, not, ◌&&◌, ◌||◌, Option, none, some, List, [], ◌∷◌, ◌++◌, ◌≡◌, refl, ap,
  ◌∙◌, ◌==◌, elem, distinct, elem-filter, arith, eq_iff,
}
use dev_team.Dispatch.{
  Dispatcher, JobSpec, submit, put, claim, park, start_job, start_from, end_job, Ending, write_back,
  release_repo, cancel_job, cancel_from,
}
use dev_team.Dispatch.Worker.{
  Hand, putting, popped, claimed, executing, leaving, World, to_put, Step, submits, puts, pops,
  claims, parks, starts, skips, ends, releases, cancels, Reach, start, next,
}

-- The repositories of the jobs that workers have claimed and not yet left.
abbrev pub held : List Hand → List String
held [] = []
held (putting job_id ∷ hs) = held hs
held (popped job_id ∷ hs) = held hs
held (claimed repo_key job_id ∷ hs) = repo_key ∷ held hs
held (executing repo_key job_id ∷ hs) = repo_key ∷ held hs
held (leaving repo_key ∷ hs) = repo_key ∷ held hs

pub held-append : (xs ys : List Hand) → held (xs ++ ys) ≡ held xs ++ held ys
held-append [] ys = refl
held-append (putting j ∷ xs) ys = held-append xs ys
held-append (popped j ∷ xs) ys = held-append xs ys
held-append (claimed k j ∷ xs) ys = ap (λ l. k ∷ l) (held-append xs ys)
held-append (executing k j ∷ xs) ys = ap (λ l. k ∷ l) (held-append xs ys)
held-append (leaving k ∷ xs) ys = ap (λ l. k ∷ l) (held-append xs ys)

-- A repository in the middle of a list of them.
pub elem-middle :
    (j k : String) (xs ys : List String) → elem j (xs ++ k ∷ ys) ≡ (k == j || elem j (xs ++ ys))
unfolding elem
elem-middle j k [] ys = refl
elem-middle j k (x ∷ xs) ys = ground (arith, elem-middle j k xs ys)

pub distinct-middle :
    (k : String) (xs ys : List String)
    → distinct (xs ++ k ∷ ys) ≡ (not (elem k (xs ++ ys)) && distinct (xs ++ ys))
unfolding distinct elem
distinct-middle k [] ys = refl
distinct-middle k (x ∷ xs) ys =
    ground (arith, distinct-middle k xs ys, elem-middle x k xs ys, eq_iff x k, eq_iff k x)

-- What each operation does to the set of active repositories.
pub active-submit :
    (cap : ℕ) (j : String) (spec : JobSpec) (d d' : Dispatcher) (n : ℕ)
    → submit cap j spec d ≡ some (d', n)
    → d'.active_repos ≡ d.active_repos
unfolding submit
active-submit cap j spec d d' n h = ground arith

pub active-put : (j : String) (d : Dispatcher) → (put j d).active_repos ≡ d.active_repos
unfolding put
active-put j d = refl

pub active-claim :
    (k j : String) (d d' : Dispatcher)
    → claim k j d ≡ (d', true)
    → (elem k d.active_repos ≡ false) × (d'.active_repos ≡ k ∷ d.active_repos)
unfolding claim
active-claim k j d d' h = ground arith

pub active-park :
    (k j : String) (d d' : Dispatcher)
    → claim k j d ≡ (d', false)
    → d'.active_repos ≡ d.active_repos
unfolding claim park
active-park k j d d' h = ground arith

pub active-start :
    (j : String) (d d' : Dispatcher) → start_job j d ≡ some d' → d'.active_repos ≡ d.active_repos
unfolding start_job start_from
active-start j d d' h = ground arith

pub active-end :
    (j : String) (e : Ending) (d : Dispatcher) → (end_job j e d).active_repos ≡ d.active_repos
unfolding end_job write_back
active-end j e d = ground arith

pub active-cancel : (j : String) (d : Dispatcher) → (cancel_job j d).0.active_repos ≡ d.active_repos
unfolding cancel_job cancel_from write_back
active-cancel j d = ground arith

record IsExclusive (d : Dispatcher) (hands : List Hand) : Type 0 where
  solo : distinct (held hands) ≡ true
  agrees : (k : String) → elem k d.active_repos ≡ elem k (held hands)

-- Only the active repositories and the held ones matter.
IsExclusive-of_eq :
    {d d' : Dispatcher} {hs hs' : List Hand}
    → d'.active_repos ≡ d.active_repos
    → held hs' ≡ held hs
    → IsExclusive d hs
    → IsExclusive d' hs'
IsExclusive-of_eq a h v = record { solo = rw h v.solo; agrees = λ k. rw (a, h) (v.agrees k) }

pub held-middle :
    (before after : List Hand) (h : Hand)
    → held (before ++ h ∷ after) ≡ held before ++ (held (h ∷ []) ++ held after)
held-middle before after h =
    held-append before (h ∷ after) ∙ ap (λ l. held before ++ l) (held-append (h ∷ []) after)

-- A hand in the middle that holds nothing, and one that holds as much as another.
pub held-free :
    (before after : List Hand) (h : Hand)
    → held (h ∷ []) ≡ []
    → held (before ++ after) ≡ held (before ++ h ∷ after)
held-free before after h e = rw (held-middle before after h, e) (held-append before after)

pub held-kept :
    (before after : List Hand) (h h' : Hand)
    → held (h' ∷ []) ≡ held (h ∷ [])
    → held (before ++ h' ∷ after) ≡ held (before ++ h ∷ after)
held-kept before after h h' e = rw (held-middle before after h, held-middle before after h', e) refl

-- A hand that comes to hold a repository which is not active.
IsExclusive-claim :
    {d d' : Dispatcher} (k : String) (before after : List Hand) (h h' : Hand)
    → elem k d.active_repos ≡ false
    → d'.active_repos ≡ k ∷ d.active_repos
    → held (h ∷ []) ≡ []
    → held (h' ∷ []) ≡ k ∷ []
    → IsExclusive d (before ++ h ∷ after)
    → IsExclusive d' (before ++ h' ∷ after)
unfolding elem
IsExclusive-claim {d} {d'} k before after h h' idle a free holds v = record {
  solo =
      rw (same', distinct-middle k (held before) (held after))
        (ground (arith, v.agrees k, v.solo, idle, same));
  agrees = λ j.
      rw (a, same', elem-middle j k (held before) (held after)) (ground (arith, v.agrees j, same));
}
  where
    same : held (before ++ h ∷ after) ≡ held before ++ held after
    same = rw (held-middle before after h, free) refl

    same' : held (before ++ h' ∷ after) ≡ held before ++ k ∷ held after
    same' = rw (held-middle before after h', holds) refl

-- A hand that lets a repository go, which is then not active.
IsExclusive-release :
    {d : Dispatcher} (k : String) (before after : List Hand)
    → IsExclusive d (before ++ leaving k ∷ after)
    → IsExclusive (release_repo k d).0 (before ++ after)
unfolding release_repo
IsExclusive-release {d} k before after v = record {
  solo = rw same (ground (arith, solo, distinct-middle k (held before) (held after)));
  agrees = λ j.
      rw (same, elem-filter (λ i. not (i == k)) j d.active_repos)
        (ground (
          arith,
          solo,
          agrees j,
          distinct-middle k (held before) (held after),
          elem-middle j k (held before) (held after),
          eq_iff j k,
          eq_iff k j,
        ));
}
  where
    same : held (before ++ after) ≡ held before ++ held after
    same = held-append before after

    solo : distinct (held before ++ k ∷ held after) ≡ true
    solo = rw (held-middle before after (leaving k)) at v.solo

    agrees : (j : String) → elem j d.active_repos ≡ elem j (held before ++ k ∷ held after)
    agrees j = rw (held-middle before after (leaving k)) at v.agrees j

pub held-to_put : (o : Option String) (hs : List Hand) → held (to_put o ++ hs) ≡ held hs
held-to_put none hs = refl
held-to_put (some j) hs = refl

module _ (key_of : String → String) (queue_cap : ℕ) where
  Step-IsExclusive :
      {s t : World}
      → Step key_of queue_cap s t
      → IsExclusive s.dispatcher s.hands
      → IsExclusive t.dispatcher t.hands
  Step-IsExclusive (submits s d j spec n fresh e) v =
      IsExclusive-of_eq (active-submit queue_cap j spec s.dispatcher d n e) refl v
  Step-IsExclusive (puts s before after j e) v =
      IsExclusive-of_eq (active-put j s.dispatcher) (held-free before after (putting j) refl)
        (rw e at v)
  Step-IsExclusive (pops s j queue e) v = IsExclusive-of_eq refl refl v
  Step-IsExclusive (claims s d before after j r e found c) v =
      let (idle, a) = active-claim (key_of r.spec.repo) j s.dispatcher d c in
      IsExclusive-claim (key_of r.spec.repo) before after (popped j) _ idle a refl refl (rw e at v)
  Step-IsExclusive (parks s d before after j r e found c) v =
      IsExclusive-of_eq (active-park (key_of r.spec.repo) j s.dispatcher d c)
        (held-free before after (popped j) refl) (rw e at v)
  Step-IsExclusive (starts s d before after k j e st) v =
      IsExclusive-of_eq (active-start j s.dispatcher d st)
        (held-kept before after (claimed k j) (executing k j) refl) (rw e at v)
  Step-IsExclusive (skips s before after k j e st) v =
      IsExclusive-of_eq refl (held-kept before after (claimed k j) (leaving k) refl) (rw e at v)
  Step-IsExclusive (ends s before after k j o e) v =
      IsExclusive-of_eq (active-end j o s.dispatcher)
        (held-kept before after (executing k j) (leaving k) refl) (rw e at v)
  Step-IsExclusive (releases s before after k e) v =
      IsExclusive-of_eq refl (held-to_put _ (before ++ after))
        (IsExclusive-release k before after (rw e at v))
  Step-IsExclusive (cancels s j) v = IsExclusive-of_eq (active-cancel j s.dispatcher) refl v

  Reach-IsExclusive : {s : World} → Reach key_of queue_cap s → IsExclusive s.dispatcher s.hands
  unfolding elem distinct
  Reach-IsExclusive start = record { solo = refl; agrees = λ k. refl }
  Reach-IsExclusive (next r st) = Step-IsExclusive st (Reach-IsExclusive r)

  -- In every state that the service can reach, no two workers hold jobs of one repository, from the
  -- claim of a job to the release of its repository, and the active repositories are those of the
  -- jobs that are held.
  pub Reach-exclusive :
      {s : World}
      → Reach key_of queue_cap s
      → (distinct (held s.hands) ≡ true)
        × ((k : String) → elem k s.dispatcher.active_repos ≡ elem k (held s.hands))
  Reach-exclusive r = let v = Reach-IsExclusive r in (v.solo, v.agrees)
