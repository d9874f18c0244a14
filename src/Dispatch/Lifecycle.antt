-- ===== src/Dispatch/Lifecycle.antt =====
-- A cancelled job never runs, and what runs was never cancelled.
use dev_team.Prelude.{
  ℕ, String, Bool, true, false, Option, none, some, List, ◌++◌, ◌≡◌, refl, ◌==◌, any, any-middle,
  arith, eq_iff, eq_refl,
}
use dev_team.Prelude.Dict.{get}
use dev_team.Dispatch.{Dispatcher, is_cancelled, release_repo}
use dev_team.Dispatch.Worker.{
  Hand, putting, popped, claimed, executing, leaving, to_put, World, Step, submits, puts, pops,
  claims, parks, starts, skips, ends, releases, cancels, Reach, start, next,
}
use dev_team.Dispatch.States.{
  is_started, job_is, job_is-submit, job_is-put, registry-claim, registry-release, job_is-start,
  start-not_cancelled, job_is-end, job_is-cancel, started-facts, cancelled-facts,
}

abbrev pub executes : String → Hand → Bool
executes j (executing k i) = i == j
executes j _ = false

executes-to_put :
    (o : Option String) (j : String) (hs : List Hand)
    → any (executes j) (to_put o ++ hs) ≡ any (executes j) hs
unfolding any
executes-to_put none j hs = refl
executes-to_put (some i) j hs = refl

-- What a worker executes was started, and not cancelled.
abbrev IsRunning : Dispatcher → List Hand → Type 0
IsRunning d hs = (j : String) → any (executes j) hs ≡ true → job_is is_started d j ≡ true

module _ (key_of : String → String) (queue_cap : ℕ) where
  Step-IsRunning :
      {s t : World}
      → Step key_of queue_cap s t
      → IsRunning s.dispatcher s.hands
      → IsRunning t.dispatcher t.hands
  unfolding any
  Step-IsRunning (submits s d i spec n fresh e) v j m =
      job_is-submit is_started queue_cap i j spec s.dispatcher d n e fresh (v j m)
  Step-IsRunning (puts s before after i e) v j m = ground (
    arith,
    rw e at v j,
    job_is-put is_started i j s.dispatcher,
    any-middle (executes j) before after (putting i),
  )
  Step-IsRunning (pops s i queue e) v j m = v j m
  Step-IsRunning (claims s d before after i r e found c) v j m =
      rw (registry-claim _ i s.dispatcher d true c) (
        ground (
          arith,
          rw e at v j,
          any-middle (executes j) before after (popped i),
          any-middle (executes j) before after (claimed (key_of r.spec.repo) i),
        ))
  Step-IsRunning (parks s d before after i r e found c) v j m =
      rw (registry-claim _ i s.dispatcher d false c)
        (ground (arith, rw e at v j, any-middle (executes j) before after (popped i)))
  Step-IsRunning (starts s d before after k i e st) v j m = ground (
    arith,
    rw e at v j,
    any-middle (executes j) before after (claimed k i),
    any-middle (executes j) before after (executing k i),
    job_is-start is_started i j s.dispatcher d st,
  )
  Step-IsRunning (skips s before after k i e st) v j m = ground (
    arith,
    rw e at v j,
    any-middle (executes j) before after (claimed k i),
    any-middle (executes j) before after (leaving k),
  )
  Step-IsRunning (ends s before after k i o e) v j m =
      let here : job_is is_started s.dispatcher i ≡ true =
        ground
          (arith, rw e at v i, any-middle (executes i) before after (executing k i), eq_refl i) in
      ground (
        arith,
        rw e at v j,
        any-middle (executes j) before after (executing k i),
        any-middle (executes j) before after (leaving k),
        job_is-end is_started i j o s.dispatcher,
        (started-facts (get s.dispatcher.registry i) here).2 o,
      )
  Step-IsRunning (releases s before after k e) v j m = ground (
    arith,
    rw e at v j,
    any-middle (executes j) before after (leaving k),
    executes-to_put (release_repo k s.dispatcher).1 j (before ++ after),
    registry-release k s.dispatcher,
  )
  Step-IsRunning (cancels s i) v j m = ground (
    arith,
    v j m,
    job_is-cancel is_started i j s.dispatcher,
    started-facts (get s.dispatcher.registry j),
    eq_iff i j,
  )

  Reach-IsRunning : {s : World} → Reach key_of queue_cap s → IsRunning s.dispatcher s.hands
  unfolding any
  Reach-IsRunning start j m = cc
  Reach-IsRunning (next r st) j m = Step-IsRunning st (Reach-IsRunning r) j m

  Step-cancelled :
      {s t : World}
      → Step key_of queue_cap s t
      → IsRunning s.dispatcher s.hands
      → (j : String) → job_is is_cancelled s.dispatcher j ≡ true
      → job_is is_cancelled t.dispatcher j ≡ true
  Step-cancelled (submits s d i spec n fresh e) v j m =
      job_is-submit is_cancelled queue_cap i j spec s.dispatcher d n e fresh m
  Step-cancelled (puts s before after i e) v j m = rw (job_is-put is_cancelled i j s.dispatcher) m
  Step-cancelled (pops s i queue e) v j m = m
  Step-cancelled (claims s d before after i r e found c) v j m =
      rw (registry-claim _ i s.dispatcher d true c) m
  Step-cancelled (parks s d before after i r e found c) v j m =
      rw (registry-claim _ i s.dispatcher d false c) m
  Step-cancelled (starts s d before after k i e st) v j m = ground (
    arith,
    m,
    job_is-start is_cancelled i j s.dispatcher d st,
    start-not_cancelled i s.dispatcher d st,
    eq_iff i j,
  )
  Step-cancelled (skips s before after k i e st) v j m = m
  Step-cancelled (ends s before after k i o e) v j m = ground (
    arith,
    m,
    rw e at v i,
    any-middle (executes i) before after (executing k i),
    job_is-end is_cancelled i j o s.dispatcher,
    cancelled-facts (get s.dispatcher.registry j),
    eq_refl i,
    eq_iff i j,
  )
  Step-cancelled (releases s before after k e) v j m = rw (registry-release k s.dispatcher) m
  Step-cancelled (cancels s i) v j m =
      ground (arith, m, job_is-cancel is_cancelled i j s.dispatcher)

  -- Any number of steps.
  pub data Steps : World → World → Type 0 where
    stay : {s : World} → Steps s s
    go : {s t u : World} → Step key_of queue_cap s t → Steps t u → Steps s u

  cancelled-Steps :
      {s t : World}
      → Steps s t
      → Reach key_of queue_cap s
      → (j : String) → job_is is_cancelled s.dispatcher j ≡ true
      → (job_is is_cancelled t.dispatcher j ≡ true) × Reach key_of queue_cap t
  cancelled-Steps stay r j m = (m, r)
  cancelled-Steps (go st more) r j m =
      cancelled-Steps more (next r st) j (Step-cancelled st (Reach-IsRunning r) j m)

  -- A job that is cancelled stays cancelled, whatever happens after, and no worker ever executes it.
  pub Reach-cancelled :
      {s t : World} (j : String)
      → Reach key_of queue_cap s
      → job_is is_cancelled s.dispatcher j ≡ true
      → Steps s t
      → (job_is is_cancelled t.dispatcher j ≡ true) × (any (executes j) t.hands ≡ false)
  Reach-cancelled {s} {t} j r m more =
      let (c, r') = cancelled-Steps more r j m in
      (c, ground (arith, Reach-IsRunning r' j, cancelled-facts (get t.dispatcher.registry j) c))
