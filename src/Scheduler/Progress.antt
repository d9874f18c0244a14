-- ===== src/Scheduler/Progress.antt =====
-- Each round of the scheduler's loop gives a task its status, or finds that none can have one.
use dev_team.Prelude.{
  ℕ, suc, ◌+◌, ◌≤◌, String, ◌≡◌, refl, Bool, true, false, none, List, [], ◌∷◌, ◌++◌, length,
  is_empty, any, elem, arith, All, length-append,
}
use dev_team.Prelude.Dict.{Dict, length-set, length-set-le}
use dev_team.Models.{Task, ids}
use dev_team.Scheduler.{
  skipped, WorkerOutcome, State, resolve, is_blocked, is_startable, is_claimed, cascade_one,
  cascade, launch_one, launch, verdict, finish_one, finish_all,
}
use dev_team.Scheduler.Invariant.{IsSound}

length_of_empty {ℓ} : {A : Type ℓ} (xs : List A) → is_empty xs ≡ true → length xs ≡ 0
length_of_empty [] h = refl
length_of_empty (x ∷ xs) h = cc

abbrev pub weight : Bool → ℕ
weight true = 1
weight false = 0

module _ (deps : Dict (List String)) where
  cascade_one-grows :
      (t : Task) (s : State) (newly : Bool)
      → length s.status + weight (cascade_one deps t (s, newly)).1
        ≤ length (cascade_one deps t (s, newly)).0.status + weight newly
  unfolding cascade_one is_claimed resolve
  cascade_one-grows t s newly =
      ground (arith, length-set s.status t.id skipped, length-set-le s.status t.id skipped)

  -- A pass that skips a task adds a status.
  pub cascade-grows :
      (ts : List Task) (acc : State × Bool)
      → length acc.0.status + weight (cascade deps ts acc).1
        ≤ length (cascade deps ts acc).0.status + weight acc.1
  unfolding cascade
  cascade-grows [] acc = omega arith
  cascade-grows (t ∷ ts) (s, newly) =
      omega (arith, cascade_one-grows t s newly, cascade-grows ts (cascade_one deps t (s, newly)))

  cascade-flag : (ts : List Task) (s : State) → (cascade deps ts (s, true)).1 ≡ true
  unfolding cascade cascade_one
  cascade-flag [] s = refl
  cascade-flag (t ∷ ts) s =
      ground (arith, cascade-flag ts s, cascade-flag ts (resolve t.id skipped none s))

  -- A pass that skips nothing leaves the state, in which no unclaimed task is blocked.
  pub cascade_idle :
      (ts : List Task) (s : State)
      → (cascade deps ts (s, false)).1 ≡ false
      → ((cascade deps ts (s, false)).0 ≡ s)
        × All (λ t. is_claimed s t.id ≡ false → is_blocked deps s.status t.id ≡ false) ts
  unfolding cascade cascade_one
  cascade_idle [] s h = (refl, tt)
  cascade_idle (t ∷ ts) s h =
      ground (arith, cascade-flag ts (resolve t.id skipped none s), cascade_idle ts s)

  module _ (cap : ℕ) where
    launch_one-grows :
        (t : Task) (s : State) → length s.in_flight ≤ length (launch_one deps t s).in_flight
    unfolding launch_one
    launch_one-grows t s = ground (arith, length-append s.in_flight (t ∷ []))

    launch-grows :
        (ts : List Task) (s : State) → length s.in_flight ≤ length (launch deps cap ts s).in_flight
    unfolding launch
    launch-grows [] s = omega arith
    launch-grows (t ∷ ts) s =
        ground (arith, launch_one-grows t s, launch-grows ts (launch_one deps t s))

    -- If nothing flies after the launches, none was made: no unclaimed task can be started.
    pub launch_idle :
        (ts : List Task) (s : State)
        → 1 ≤ cap
        → is_empty (launch deps cap ts s).in_flight ≡ true
        → (launch deps cap ts s ≡ s)
          × All (λ t. is_claimed s t.id ≡ false → is_startable deps s.status t.id ≡ false) ts
    unfolding launch launch_one
    launch_idle [] s room h = (refl, tt)
    launch_idle (t ∷ ts) s room h =
        let more : State = record s {
          in_flight = s.in_flight ++ t ∷ [];
          started = t.id ∷ s.started;
        } in
        ground (
          arith,
          length_of_empty s.in_flight,
          length_of_empty (launch deps cap ts more).in_flight,
          length-append s.in_flight (t ∷ []),
          launch-grows ts more,
          launch_idle ts s room,
        )

    -- The launches set no status.
    pub launch-status : (ts : List Task) (s : State) → (launch deps cap ts s).status ≡ s.status
    unfolding launch launch_one
    launch-status [] s = refl
    launch-status (t ∷ ts) s = ground (arith, launch-status ts (launch_one deps t s))

module _ (deps : Dict (List String)) (known : List String) (cap : ℕ) where
  finish_one-le :
      (c : String × WorkerOutcome) (s : State) → length s.status ≤ length (finish_one c s).status
  unfolding finish_one resolve
  finish_one-le (tid, outcome) s = ground (arith, length-set-le s.status tid (verdict outcome))

  finish_all-le :
      (cs : List (String × WorkerOutcome)) (s : State)
      → length s.status ≤ length (finish_all cs s).status
  unfolding finish_all
  finish_all-le [] s = omega arith
  finish_all-le (c ∷ cs) s = omega (arith, finish_one-le c s, finish_all-le cs (finish_one c s))

  -- A wait in which a task in flight ends adds a status.
  pub finish_all-grows :
      (cs : List (String × WorkerOutcome)) (s : State)
      → IsSound deps known cap s
      → any (λ c. elem c.0 (ids s.in_flight)) cs ≡ true
      → suc (length s.status) ≤ length (finish_all cs s).status
  unfolding finish_all finish_one resolve any
  finish_all-grows [] s v h = cc
  finish_all-grows ((tid, outcome) ∷ cs) s v h = ground (
    arith,
    v.flying_open tid,
    length-set s.status tid (verdict outcome),
    finish_all-grows cs s v,
    finish_all-le cs (finish_one (tid, outcome) s),
  )
