-- ===== src/Dispatch/Stuck.antt =====
-- A repository whose parked jobs nobody will put in the queue again.
use dev_team.Prelude.{ℕ, String, false, [], ◌∷◌, ◌++◌, ◌≡◌, refl, elem, arith, is_empty}
use dev_team.Dispatch.{waiting_for, put, end_job, cancel_job}
use dev_team.Dispatch.Worker.{
  putting, popped, claimed, executing, leaving, World, Step, submits, puts, pops, claims, parks,
  starts, skips, ends, releases, cancels, Reach,
}
use dev_team.Dispatch.Exclusion.{
  held, held-free, held-kept, Reach-exclusive, active-submit, active-put, active-start, active-end,
  active-cancel,
}
use dev_team.Dispatch.Lifecycle.{Steps, stay, go}
use dev_team.Dispatch.Parked.{spec-submit, spec-start, spec-end, spec-cancel}
use dev_team.Dispatch.Transit.{
  times, hand_times, hand_times-middle, transit-put, waiting_for-of_eq, submit_facts, put_facts,
}
use dev_team.Dispatch.Home.{IsHome, Step-IsHome, Reach-IsHome, spec-found}
use dev_team.Dispatch.Blocked.{
  IsStuck, IsStuck-quiet, IsStuck-submit, IsStuck-claim, IsStuck-park, IsStuck-release,
}

module _ (key_of : String → String) (k : String) where
  module _ (queue_cap : ℕ) where
    Step-IsStuck :
        {s t : World}
        → Step key_of queue_cap s t
        → IsHome key_of s.dispatcher
        → IsStuck key_of k s.dispatcher s.hands
        → IsStuck key_of k t.dispatcher t.hands
    unfolding hand_times times
    Step-IsStuck (submits s d i spec n fresh e) home v =
        IsStuck-submit key_of k s.dispatcher d s.hands i spec home fresh
          (λ j. spec-submit queue_cap i j spec s.dispatcher d n e)
          (waiting_for-of_eq s.dispatcher d k (submit_facts queue_cap i spec s.dispatcher d n e).0)
          (submit_facts queue_cap i spec s.dispatcher d n e).1
          (active-submit queue_cap i spec s.dispatcher d n e) v
    Step-IsStuck (puts s before after i e) home v =
        IsStuck-quiet key_of k s.dispatcher (put i s.dispatcher) (before ++ putting i ∷ after)
          (before ++ after) (λ h. rw (active-put i s.dispatcher) h)
          (λ h. rw (held-free before after (putting i) refl) h)
          (waiting_for-of_eq _ _ k (put_facts i s.dispatcher).1)
          (λ j. rw ((put_facts i s.dispatcher).0) refl)
          (λ j. omega (arith, transit-put j i s.dispatcher before after)) (rw e at v)
    Step-IsStuck (pops s i queue e) home v =
        IsStuck-quiet key_of k s.dispatcher _ s.hands (popped i ∷ s.hands) (λ h. h) (λ h. h)
          (waiting_for-of_eq _ _ k refl) (λ j. refl) (λ j. rw e (ground arith)) v
    Step-IsStuck (claims s d before after i r e found c) home v =
        IsStuck-claim key_of k s.dispatcher d (key_of r.spec.repo) i before after c (rw e at v)
    Step-IsStuck (parks s d before after i r e found c) home v =
        IsStuck-park key_of k s.dispatcher d (key_of r.spec.repo) i before after
          (spec-found key_of s.dispatcher i r found) c (rw e at v)
    Step-IsStuck (starts s d before after k' i e st) home v =
        IsStuck-quiet key_of k s.dispatcher d (before ++ claimed k' i ∷ after)
          (before ++ executing k' i ∷ after) (λ h. rw (active-start i s.dispatcher d st) h)
          (λ h. rw (held-kept before after (claimed k' i) (executing k' i) refl) h)
          (waiting_for-of_eq _ _ k (spec-start i i s.dispatcher d st).1)
          (λ j. (spec-start i j s.dispatcher d st).0)
          (λ j. rw ((spec-start i i s.dispatcher d st).2) (
            omega (
              arith,
              hand_times-middle j before after (claimed k' i),
              hand_times-middle j before after (executing k' i),
            )))
          (rw e at v)
    Step-IsStuck (skips s before after k' i e st) home v =
        IsStuck-quiet key_of k s.dispatcher s.dispatcher (before ++ claimed k' i ∷ after)
          (before ++ leaving k' ∷ after) (λ h. h)
          (λ h. rw (held-kept before after (claimed k' i) (leaving k') refl) h) refl (λ j. refl)
          (λ j. omega (
            arith,
            hand_times-middle j before after (claimed k' i),
            hand_times-middle j before after (leaving k'),
          ))
          (rw e at v)
    Step-IsStuck (ends s before after k' i o e) home v =
        IsStuck-quiet key_of k s.dispatcher (end_job i o s.dispatcher)
          (before ++ executing k' i ∷ after) (before ++ leaving k' ∷ after)
          (λ h. rw (active-end i o s.dispatcher) h)
          (λ h. rw (held-kept before after (executing k' i) (leaving k') refl) h)
          (waiting_for-of_eq _ _ k (spec-end i i o s.dispatcher).1)
          (λ j. (spec-end i j o s.dispatcher).0)
          (λ j. rw ((spec-end i i o s.dispatcher).2) (
            omega (
              arith,
              hand_times-middle j before after (executing k' i),
              hand_times-middle j before after (leaving k'),
            )))
          (rw e at v)
    Step-IsStuck (releases s before after k' e) home v =
        IsStuck-release key_of k s.dispatcher k' before after home (rw e at v)
    Step-IsStuck (cancels s i) home v =
        IsStuck-quiet key_of k s.dispatcher (cancel_job i s.dispatcher).0 s.hands s.hands
          (λ h. rw (active-cancel i s.dispatcher) h) (λ h. h)
          (waiting_for-of_eq _ _ k (spec-cancel i i s.dispatcher).1)
          (λ j. (spec-cancel i j s.dispatcher).0)
          (λ j. rw ((spec-cancel i i s.dispatcher).2) (omega arith)) v

    Steps-IsStuck :
        {s t : World}
        → Steps key_of queue_cap s t
        → IsHome key_of s.dispatcher
        → IsStuck key_of k s.dispatcher s.hands
        → IsStuck key_of k t.dispatcher t.hands
    Steps-IsStuck stay home v = v
    Steps-IsStuck (go st more) home v =
        Steps-IsStuck more (Step-IsHome key_of queue_cap st home) (Step-IsStuck st home v)

    -- From a state that the service can reach, in which no worker or request holds a job and nothing
    -- is in the queue while a job of a repository is still parked, no worker ever holds a job of that
    -- repository again, whatever steps follow, and some job of it stays parked.
    pub parked-Steps :
        {s t : World}
        → Reach key_of queue_cap s
        → s.hands ≡ []
        → s.dispatcher.queue ≡ []
        → is_empty (waiting_for s.dispatcher k) ≡ false
        → Steps key_of queue_cap s t
        → (elem k (held t.hands) ≡ false) × (is_empty (waiting_for t.dispatcher k) ≡ false)
    unfolding hand_times times elem
    parked-Steps {s} {t} r rest queue waits more =
        let v = Steps-IsStuck more (Reach-IsHome key_of queue_cap r) still in (v.unheld, v.waits)
      where
        still : IsStuck key_of k s.dispatcher s.hands
        still = record {
          idle = rw ((Reach-exclusive key_of queue_cap r).1 k, rest) refl;
          unheld = rw rest refl;
          waits = waits;
          apart = λ j m. rw (rest, queue) refl;
          once = λ j m. rw (rest, queue) (omega arith);
          known = λ j m. rw (rest, queue) refl;
        }
