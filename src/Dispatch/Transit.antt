-- ===== src/Dispatch/Transit.antt =====
-- The jobs on their way from a submission or a release to a worker's claim.
use dev_team.Prelude.{
  ℕ, suc, ◌+◌, String, false, not, none, some, List, [], ◌∷◌, ◌++◌, ◌≡◌, refl, ◌==◌, if◌then◌else◌,
  elem, elem-filter, arith,
}
use dev_team.Prelude.Dict.{has, get-none}
use dev_team.Dispatch.{Dispatcher, JobSpec, submit, put, waiting_for, release_repo, first_of}
use dev_team.Dispatch.Worker.{Hand, putting, popped, to_put}
use dev_team.Dispatch.Parked.{spec_in}

-- How often a job is in a list, and on its way to a worker's claim.
unfoldable pub times : String → List String → ℕ
times j [] = 0
times j (x ∷ l) = let rest = times j l in if x == j then suc rest else rest

abbrev pub in_hand : String → Hand → ℕ
in_hand j (putting i) = if i == j then 1 else 0
in_hand j (popped i) = if i == j then 1 else 0
in_hand j _ = 0

unfoldable pub hand_times : String → List Hand → ℕ
hand_times j [] = 0
hand_times j (h ∷ hs) = in_hand j h + hand_times j hs

abbrev pub transit : Dispatcher → List Hand → String → ℕ
transit d hs j = times j d.queue + hand_times j hs

pub times-append : (j : String) (xs ys : List String) → times j (xs ++ ys) ≡ times j xs + times j ys
unfolding times
times-append j [] ys = omega arith
times-append j (x ∷ xs) ys = ground (arith, times-append j xs ys)

pub hand_times-middle :
    (j : String) (xs ys : List Hand) (h : Hand)
    → hand_times j (xs ++ h ∷ ys) ≡ in_hand j h + hand_times j (xs ++ ys)
unfolding hand_times
hand_times-middle j [] ys h = refl
hand_times-middle j (x ∷ xs) ys h = omega (arith, hand_times-middle j xs ys h)

pub transit-put :
    (j i : String) (d : Dispatcher) (before after : List Hand)
    → transit (put i d) (before ++ after) j ≡ transit d (before ++ putting i ∷ after) j
unfolding put times
transit-put j i d before after =
    ground (arith, times-append j d.queue (i ∷ []), hand_times-middle j before after (putting i))

-- Only the head of the list, if any, is put.
pub hand_times-to_put :
    (j : String) (l : List String) (hs : List Hand)
    → elem j l ≡ false
    → hand_times j (to_put (first_of l) ++ hs) ≡ hand_times j hs
unfolding first_of elem hand_times
hand_times-to_put j [] hs h = refl
hand_times-to_put j (x ∷ l) hs h = ground arith

pub waiting_for-of_eq :
    (d d' : Dispatcher) (k : String) → d'.deferred ≡ d.deferred → waiting_for d' k ≡ waiting_for d k
unfolding waiting_for
waiting_for-of_eq d d' k e = rw e refl

pub spec-absent : (d : Dispatcher) (i : String) → has d.registry i ≡ false → spec_in d i ≡ none
spec-absent d i h = rw (get-none d.registry i h) refl

pub submit_facts :
    (cap : ℕ) (i : String) (spec : JobSpec) (d d' : Dispatcher) (n : ℕ)
    → submit cap i spec d ≡ some (d', n)
    → (d'.deferred ≡ d.deferred) × (d'.queue ≡ d.queue)
unfolding submit
submit_facts cap i spec d d' n h = ground arith

pub put_facts :
    (i : String) (d : Dispatcher)
    → ((put i d).registry ≡ d.registry) × ((put i d).deferred ≡ d.deferred)
unfolding put
put_facts i d = (refl, refl)

pub release_facts :
    (k : String) (d : Dispatcher)
    → ((release_repo k d).0.registry ≡ d.registry)
      × ((release_repo k d).0.deferred ≡ d.deferred)
      × ((release_repo k d).0.queue ≡ d.queue)
      × ((release_repo k d).1 ≡ first_of (waiting_for d k))
      × ((j : String)
          → elem j d.active_repos ≡ false
          → elem j (release_repo k d).0.active_repos ≡ false)
unfolding release_repo
release_facts k d = (
  refl,
  refl,
  refl,
  refl,
  λ j h. ground (arith, elem-filter (λ i. not (i == k)) j d.active_repos),
)
