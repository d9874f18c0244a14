-- ===== src/Scheduler/Steps.antt =====
-- Each step of the scheduler keeps its state sound: the cascade of skips, the launches, and the
-- tasks that end during a wait.
use dev_team.Prelude.{
  ℕ, suc, ◌≤◌, String, ◌≡◌, Bool, true, false, not, ◌&&◌, ◌||◌, Option, none, List, [], ◌∷◌, ◌++◌,
  ◌==◌, eq_iff, eq_refl, leb, length, filter, elem, map-append, arith, All, Bool-cases, inl, inr,
  elem-append, length-append, length-filter-le,
}
use dev_team.Prelude.Dict.{Dict, has, has-set}
use dev_team.Models.{Task, ids}
use dev_team.Ordering.Cycles.{elem-ids-filter}
use dev_team.Scheduler.{
  ScheduleStatus, skipped, WorkerOutcome, returned, raised, State, resolve, is_blocked,
  is_startable, is_claimed, cascade_one, cascade, launch_one, launch, verdict, error_of, finish_one,
  finish_all,
}
use dev_team.Scheduler.Invariant.{IsSound, Tracked, Justified, resolve-IsSound}

-- An unclaimed task has no status and is not in flight.
unclaimed :
    {deps : Dict (List String)} {known : List String} {cap : ℕ} {s : State} (tid : String)
    → IsSound deps known cap s
    → is_claimed s tid ≡ false
    → (has s.status tid ≡ false)
      × (elem tid s.started ≡ false)
      × (elem tid (ids s.in_flight) ≡ false)
unfolding is_claimed
unclaimed {s} tid v h = (ground arith, ground arith, ground (arith, v.flying_started tid))

module _ (deps : Dict (List String)) (known : List String) (cap : ℕ) where
  abbrev pub Good : State → Type 0
  Good s = IsSound deps known cap s × Tracked s

  resolve-Tracked :
      (tid : String) (o : ScheduleStatus) (error : Option String) (s : State)
      → Tracked s
      → Tracked (resolve tid o error s)
  unfolding resolve
  resolve-Tracked tid o error s h j m = ground (arith, h j m, has-set s.status tid j o)

  cascade_one-Good :
      (t : Task) (s : State) (newly : Bool)
      → elem t.id known ≡ true
      → Good s
      → Good (cascade_one deps t (s, newly)).0
  unfolding cascade_one
  cascade_one-Good t s newly k (v, tracked) = elim (Bool-cases (is_claimed s t.id)) [
    | inl taken ↦ rw taken (v, tracked)
    | inr free ↦
        let (no_status, _, landed) = unclaimed t.id v free in
        elim (Bool-cases (is_blocked deps s.status t.id)) [
          | inl blocked ↦ rw free (
              rw blocked (
                resolve-IsSound deps s t.id skipped none no_status v landed k blocked,
                resolve-Tracked t.id skipped none s tracked,
              ))
          | inr clear ↦ rw free (rw clear (v, tracked))
        ]
  ]

  pub cascade-Good :
      (ts : List Task) (acc : State × Bool)
      → All (λ t. elem t.id known ≡ true) ts
      → Good acc.0
      → Good (cascade deps ts acc).0
  unfolding cascade
  cascade-Good [] acc k g = g
  cascade-Good (t ∷ ts) (s, newly) k g =
      cascade-Good ts (cascade_one deps t (s, newly)) k.1 (cascade_one-Good t s newly k.0 g)

  elem-ids-append_one :
      (j : String) (xs : List Task) (t : Task)
      → elem j (ids (xs ++ t ∷ [])) ≡ (elem j (ids xs) || t.id == j)
  unfolding elem
  elem-ids-append_one j xs t =
      rw map-append (rw (elem-append j (ids xs) (t.id ∷ [])) (ground arith))

  launched-Good :
      (t : Task) (s : State)
      → elem t.id known ≡ true
      → suc (length s.in_flight) ≤ cap
      → is_claimed s t.id ≡ false
      → is_startable deps s.status t.id ≡ true
      → Good s
      → Good (record s { in_flight = s.in_flight ++ t ∷ []; started = t.id ∷ s.started })
  unfolding elem
  launched-Good t s k room free startable (v, tracked) =
      let no_status = (unclaimed t.id v free).0 in
      let flying = λ (j : String). elem-ids-append_one j s.in_flight t in
      (
        record {
          keys_unique = v.keys_unique;
          keys_known = v.keys_known;
          flying_known = λ j h. ground (arith, v.flying_known j, flying j, eq_iff t.id j);
          flying_open = λ j h. ground (arith, v.flying_open j, flying j, eq_iff t.id j);
          flying_started = λ j h. ground (arith, v.flying_started j, flying j, eq_iff t.id j);
          flying_ready = λ j h. ground (arith, v.flying_ready j, flying j, eq_iff t.id j);
          within = ground (arith, length-append s.in_flight (t ∷ []));
          settled = v.settled;
          heard = v.heard;
        },
        λ j m. ground (arith, tracked j, flying j, eq_iff t.id j),
      )

  launch_one-Good :
      (t : Task) (s : State)
      → elem t.id known ≡ true
      → suc (length s.in_flight) ≤ cap
      → Good s
      → Good (launch_one deps t s)
  unfolding launch_one
  launch_one-Good t s k room g = elim (Bool-cases (is_claimed s t.id)) [
    | inl taken ↦ rw taken g
    | inr free ↦ elim (Bool-cases (is_startable deps s.status t.id)) [
      | inl startable ↦ rw free (rw startable (launched-Good t s k room free startable g))
      | inr waits ↦ rw free (rw waits g)
    ]
  ]

  pub launch-Good :
      (ts : List Task) (s : State)
      → All (λ t. elem t.id known ≡ true) ts
      → Good s
      → Good (launch deps cap ts s)
  unfolding launch
  launch-Good [] s k g = g
  launch-Good (t ∷ ts) s k g = elim (Bool-cases (leb cap (length s.in_flight))) [
    | inl full ↦ rw full g
    | inr room ↦
        rw room
          (launch-Good ts (launch_one deps t s) k.1 (launch_one-Good t s k.0 (ground arith) g))
  ]

  elem-ids-without :
      (j tid : String) (xs : List Task)
      → elem j (ids (filter (λ t. not (t.id == tid)) xs)) ≡ (elem j (ids xs) && not (j == tid))
  elem-ids-without j tid xs = elem-ids-filter (λ k. not (k == tid)) j xs

  -- A task that ends leaves the set of tasks in flight, and has its status.
  landed-Good :
      (tid : String) (outcome : WorkerOutcome) (s : State)
      → elem tid (ids s.in_flight) ≡ true
      → Good s
      → Good (
          resolve tid
            (verdict outcome)
            (error_of outcome)
            (record s { in_flight = filter (λ t. not (t.id == tid)) s.in_flight }))
  unfolding resolve verdict
  landed-Good tid outcome s m (v, tracked) =
      let flying = λ (j : String). elem-ids-without j tid s.in_flight in
      let aside : State = record s { in_flight = filter (λ t. not (t.id == tid)) s.in_flight } in
      (
        resolve-IsSound deps aside tid (verdict outcome) (error_of outcome) (v.flying_open tid m)
            (record {
              keys_unique = v.keys_unique;
              keys_known = v.keys_known;
              flying_known = λ j h. ground (arith, v.flying_known j, flying j);
              flying_open = λ j h. ground (arith, v.flying_open j, flying j);
              flying_started = λ j h. ground (arith, v.flying_started j, flying j);
              flying_ready = λ j h. ground (arith, v.flying_ready j, flying j);
              within =
                  omega (
                    arith,
                    v.within,
                    length-filter-le (λ (t : Task). not (t.id == tid)) s.in_flight,
                  );
              settled = v.settled;
              heard = v.heard;
            })
            (ground (arith, flying tid, eq_refl tid)) (v.flying_known tid m)
            (ran outcome (v.flying_ready tid m)),
        λ j h. ground (
          arith,
          tracked j,
          flying j,
          has-set s.status tid j (verdict outcome),
          eq_iff tid j,
          eq_iff j tid,
        ),
      )
    where
      ran :
          (o : WorkerOutcome)
          → is_startable deps s.status tid ≡ true
          → Justified deps s.status tid (verdict o)
      ran (returned true) h = h
      ran (returned false) h = h
      ran (raised e) h = h

  finish_one-Good : (c : String × WorkerOutcome) (s : State) → Good s → Good (finish_one c s)
  unfolding finish_one
  finish_one-Good (tid, outcome) s g = elim (Bool-cases (elem tid (ids s.in_flight))) [
    | inl flies ↦ rw flies (landed-Good tid outcome s flies g)
    | inr gone ↦ rw gone g
  ]

  pub finish_all-Good :
      (cs : List (String × WorkerOutcome)) (s : State) → Good s → Good (finish_all cs s)
  unfolding finish_all
  finish_all-Good [] s g = g
  finish_all-Good (c ∷ cs) s g = finish_all-Good cs (finish_one c s) (finish_one-Good c s g)
