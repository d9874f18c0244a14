-- ===== src/Dispatch/Home.antt =====
-- A parked job waits in the list of its own repository.
use dev_team.Prelude.{
  ℕ, String, Bool, true, false, Option, none, some, ◌≡◌, refl, ◌==◌, if◌then◌else◌, elem, arith,
  eq_iff, eq_refl,
}
use dev_team.Prelude.Dict.{get, has}
use dev_team.Dispatch.{Dispatcher, JobSpec, JobRecord, waiting_for}
use dev_team.Dispatch.Worker.{
  World, Step, submits, puts, pops, claims, parks, starts, skips, ends, releases, cancels, Reach,
  start, next,
}
use dev_team.Dispatch.States.{registry-claim}
use dev_team.Dispatch.Parked.{
  spec_in, spec-submit, spec-start, spec-end, spec-cancel, elem-claim, elem-park,
}
use dev_team.Dispatch.Transit.{
  waiting_for-of_eq, spec-absent, submit_facts, put_facts, release_facts,
}

module _ (key_of : String → String) where
  abbrev pub keyed : String → Option JobSpec → Bool
  keyed k none = false
  keyed k (some spec) = key_of spec.repo == k

  pub keyed_unique :
      (k k' : String) (o : Option JobSpec) → keyed k o ≡ true → keyed k' o ≡ true → k' == k ≡ true
  keyed_unique k k' none h m = cc
  keyed_unique k k' (some spec) h m =
      ground (arith, eq_iff (key_of spec.repo) k, eq_iff (key_of spec.repo) k', eq_iff k' k)

  abbrev pub IsHome : Dispatcher → Type 0
  IsHome d = (k j : String) → elem j (waiting_for d k) ≡ true → keyed k (spec_in d j) ≡ true

  -- Only the specs and the parked jobs matter.
  pub IsHome-of_eq :
      (d d' : Dispatcher)
      → ((j : String) → spec_in d' j ≡ spec_in d j)
      → d'.deferred ≡ d.deferred
      → IsHome d
      → IsHome d'
  IsHome-of_eq d d' sp f v k j m = rw (sp j) (v k j (rw (waiting_for-of_eq d d' k f) at m))

  pub spec-found :
      (d : Dispatcher) (j : String) (r : JobRecord)
      → get d.registry j ≡ some r
      → keyed (key_of r.spec.repo) (spec_in d j) ≡ true
  spec-found d j r e = rw e (eq_refl (key_of r.spec.repo))

  pub IsHome-submit :
      (d d' : Dispatcher) (i : String) (spec : JobSpec)
      → has d.registry i ≡ false
      → ((j : String) → spec_in d' j ≡ (if i == j then some spec else spec_in d j))
      → d'.deferred ≡ d.deferred
      → IsHome d
      → IsHome d'
  IsHome-submit d d' i spec fresh sp f v k j m =
      ground (
        arith,
        sp j,
        spec-absent d i fresh,
        eq_iff i j,
        v k j (rw (waiting_for-of_eq d d' k f) at m),
      )

  module _ (queue_cap : ℕ) where
    pub Step-IsHome :
        {s t : World} → Step key_of queue_cap s t → IsHome s.dispatcher → IsHome t.dispatcher
    Step-IsHome (submits s d i spec n fresh e) v k j m =
        IsHome-submit s.dispatcher d i spec fresh
          (λ x. spec-submit queue_cap i x spec s.dispatcher d n e)
          (submit_facts queue_cap i spec s.dispatcher d n e).0 v k j m
    Step-IsHome (puts s before after i e) v k j m =
        IsHome-of_eq s.dispatcher _ (λ x. rw ((put_facts i s.dispatcher).0) refl)
          (put_facts i s.dispatcher).1 v k j m
    Step-IsHome (pops s i queue e) v k j m = IsHome-of_eq s.dispatcher _ (λ x. refl) refl v k j m
    Step-IsHome (claims s d before after i r e found c) v k j m =
        rw (registry-claim _ i s.dispatcher d true c)
          (v k j (elem-claim _ i k j s.dispatcher d c m))
    Step-IsHome (parks s d before after i r e found c) v k j m =
        rw (registry-claim _ i s.dispatcher d false c) (
          ground (
            arith,
            v k j,
            elem-park (key_of r.spec.repo) i k j s.dispatcher d c,
            spec-found s.dispatcher i r found,
            eq_iff i j,
            eq_iff (key_of r.spec.repo) k,
          ))
    Step-IsHome (starts s d before after k' i e st) v k j m =
        IsHome-of_eq s.dispatcher _ (λ x. (spec-start i x s.dispatcher d st).0)
          (spec-start i i s.dispatcher d st).1 v k j m
    Step-IsHome (skips s before after k' i e st) v k j m = v k j m
    Step-IsHome (ends s before after k' i o e) v k j m =
        IsHome-of_eq s.dispatcher _ (λ x. (spec-end i x o s.dispatcher).0)
          (spec-end i i o s.dispatcher).1 v k j m
    Step-IsHome (releases s before after i e) v k j m =
        IsHome-of_eq s.dispatcher _ (λ x. rw ((release_facts i s.dispatcher).0) refl)
          (release_facts i s.dispatcher).1 v k j m
    Step-IsHome (cancels s i) v k j m =
        IsHome-of_eq s.dispatcher _ (λ x. (spec-cancel i x s.dispatcher).0)
          (spec-cancel i i s.dispatcher).1 v k j m

    pub Reach-IsHome : {s : World} → Reach key_of queue_cap s → IsHome s.dispatcher
    unfolding waiting_for elem get
    Reach-IsHome start k j m = cc
    Reach-IsHome (next r st) k j m = Step-IsHome st (Reach-IsHome r) k j m
