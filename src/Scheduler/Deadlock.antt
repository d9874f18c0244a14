-- ===== src/Scheduler/Deadlock.antt =====
-- What the scheduler's loop ends with: the results when every task has its status, and a deadlock
-- when tasks are left and none can be skipped or started.
use dev_team.Prelude.{
  ℕ, ◌≤◌, ◌<◌, String, ◌≡◌, refl, true, false, not, Option, none, some, List, [], ◌∷◌, ap, eq_iff,
  eq_refl, if◌then◌else◌, length, is_empty, filter, elem, map, arith, All, distinct, Bool-cases,
  inl, inr, elem-filter, length-map, all_mono, any_mono, pigeonhole, length-le_of_elem, all-false,
  any-elem, All-map,
}
use dev_team.Models.{All-ids}
use dev_team.Ordering.Lookup.{elem-deps_of}
use dev_team.Prelude.Dict.{Dict, get, has, keys, has-keys, get-some, get-none}
use dev_team.Models.{Task, ids}
use dev_team.Ordering.{deps_map, deps_of}
use dev_team.Ordering.Cycles.{Deadlocked}
use dev_team.Scheduler.{
  ScheduleStatus, done, failed, skipped, ScheduledResult, State, Outcome, results, dependency_cycle,
  collect, collect_step, is_blocked, is_startable, is_done, is_doomed, is_claimed,
}
use dev_team.Scheduler.Invariant.{IsSound, Tracked, Justified, entry}
use dev_team.Scheduler.Steps.{Good}

-- A run's results: one for each task, in the order of the tasks, each justified by the others.
abbrev pub IsRun : List Task → List ScheduledResult → Type 0
IsRun tasks l =
    (map (λ r. r.task_id) l ≡ ids tasks)
    × All (λ r. Justified (deps_map tasks) (map entry l) r.task_id r.status) l

abbrev pub Returns : List Task → Outcome → Type 0
Returns tasks (results l) = IsRun tasks l
Returns tasks (dependency_cycle l) = Deadlocked (deps_map tasks) l
Returns tasks _ = ⊥

-- With a status for each task, the results are the tasks with their statuses.
collect_lem :
    (status : Dict ScheduleStatus) (ts : List Task)
    → ((tid : String) → elem tid (ids ts) ≡ true → has status tid ≡ true)
    → (l : List ScheduledResult) × (collect status ts ≡ results l)
      × (map (λ r. r.task_id) l ≡ ids ts)
      × ((k : String) → get (map entry l) k ≡ (if elem k (ids ts) then get status k else none))
      × All (λ r. get status r.task_id ≡ some r.status) l
unfolding collect collect_step elem get
collect_lem status [] h = ([], refl, refl, λ k. refl, tt)
collect_lem status (t ∷ ts) h =
    let (st, found) = get-some status t.id (h t.id (ground (arith, eq_refl t.id))) in
    let (l, e, names, same, own) = collect_lem status ts (λ k m. h k (ground arith)) in
    (
      record { task_id = t.id; status = st; error = none } ∷ l,
      rw (found, collect_step) (rw (e, collect_step)),
      ap (λ (ns : List String). t.id ∷ ns) names,
      λ k. ground (arith, same k, eq_iff t.id k),
      (found, own),
    )

Justified-cong :
    (deps : Dict (List String)) (d e : Dict ScheduleStatus) (tid : String) (st : ScheduleStatus)
    → ((k : String) → get d k ≡ get e k)
    → Justified deps d tid st
    → Justified deps e tid st
unfolding is_blocked is_startable
Justified-cong deps d e tid skipped same = any_mono _ _ (deps_of deps tid) (λ k h. rw (same k) at h)
Justified-cong deps d e tid done same = all_mono _ _ (deps_of deps tid) (λ k h. rw (same k) at h)
Justified-cong deps d e tid failed same = all_mono _ _ (deps_of deps tid) (λ k h. rw (same k) at h)

elem_of_empty : (xs : List Task) (tid : String) → is_empty xs ≡ true → elem tid (ids xs) ≡ false
unfolding elem
elem_of_empty [] tid h = refl
elem_of_empty (x ∷ xs) tid h = cc

module _ (tasks : List Task) (cap : ℕ) where
  pub collect-Returns :
      (s : State)
      → IsSound (deps_map tasks) (ids tasks) cap s
      → ((tid : String) → elem tid (ids tasks) ≡ true → has s.status tid ≡ true)
      → Returns tasks (collect s.status tasks)
  collect-Returns s v all_set =
      let (l, e, names, same, own) = collect_lem s.status tasks all_set in
      let agrees : (k : String) → get s.status k ≡ get (map entry l) k =
        λ k. ground (arith, same k, v.keys_known k, get-none s.status k) in
      rw e (
        names,
        All-map (λ r. get s.status r.task_id ≡ some r.status)
            (λ r. Justified (deps_map tasks) (map entry l) r.task_id r.status) l
            (λ r found.
              Justified-cong (deps_map tasks) s.status (map entry l) r.task_id r.status agrees
                (v.settled r.task_id r.status found))
            own,
      )

  -- When as many statuses are set as there are tasks, every task has one.
  pub all_settled :
      (s : State)
      → IsSound (deps_map tasks) (ids tasks) cap s
      → length tasks ≤ length s.status
      → (tid : String) → elem tid (ids tasks) ≡ true
      → has s.status tid ≡ true
  all_settled s v enough tid m = rw (has-keys s.status tid) (
      pigeonhole (keys s.status) (ids tasks) v.keys_unique
        (λ k h. v.keys_known k (rw (has-keys s.status k) h))
        (omega (
          arith,
          length-map (λ (t : Task). t.id) tasks,
          length-map (λ (p : String × ScheduleStatus). p.0) s.status,
        ))
        tid m)

  no_status_yet : (o : Option ScheduleStatus) → is_done o ≡ false → is_doomed o ≡ false → o ≡ none
  unfolding is_done is_doomed
  no_status_yet none h k = refl
  no_status_yet (some done) h k = cc
  no_status_yet (some failed) h k = cc
  no_status_yet (some skipped) h k = cc

  -- With nothing in flight, a claimed task has its status.
  claimed-has :
      (s : State) (tid : String)
      → Tracked s
      → is_empty s.in_flight ≡ true
      → is_claimed s tid ≡ true
      → has s.status tid ≡ true
  unfolding is_claimed
  claimed-has s tid tracked idle h = ground (arith, tracked tid, elem_of_empty s.in_flight tid)

  none-unclaimed :
      (s : State) (tid : String)
      → Tracked s
      → is_empty s.in_flight ≡ true
      → get s.status tid ≡ none
      → is_claimed s tid ≡ false
  none-unclaimed s tid tracked idle absent = elim (Bool-cases (is_claimed s tid)) [
    | inl taken ↦
        let (st, found) = get-some s.status tid (claimed-has s tid tracked idle taken) in cc
    | inr free ↦ free
  ]

  -- Nothing in flight, nothing to skip and nothing to start, and tasks are left: a cycle.
  pub idle-Deadlocked :
      (s : State)
      → Good (deps_map tasks) (ids tasks) cap s
      → distinct (ids tasks) ≡ true
      → length s.status < length tasks
      → is_empty s.in_flight ≡ true
      → All
          (λ t. is_claimed s t.id ≡ false → is_blocked (deps_map tasks) s.status t.id ≡ false)
          tasks
      → All
          (λ t. is_claimed s t.id ≡ false → is_startable (deps_map tasks) s.status t.id ≡ false)
          tasks
      → Deadlocked (deps_map tasks) (filter (λ tid. not (is_claimed s tid)) (ids tasks))
  unfolding is_blocked is_startable elem
  idle-Deadlocked s (v, tracked) unique left idle clear waits = (
    λ all_claimed. absurd (
        omega (
          arith,
          length-le_of_elem (ids tasks) (keys s.status) unique (λ k m.
              rw (← has-keys s.status k) (claimed-has s k tracked idle (claimed k m all_claimed))),
          length-map (λ (t : Task). t.id) tasks,
          length-map (λ (p : String × ScheduleStatus). p.0) s.status,
        )),
    λ tid m.
        let both = elem-filter (λ k. not (is_claimed s k)) tid (ids tasks) in
        let free : is_claimed s tid ≡ false = ground (arith, both) in
        let listed : elem tid (ids tasks) ≡ true = ground (arith, both) in
        let (d, needed, undone) =
          all-false (λ k. is_done (get s.status k)) (deps_of (deps_map tasks) tid)
            (All-ids _ tasks tid waits listed free) in
        let fine =
          any-elem (λ k. is_doomed (get s.status k)) d (deps_of (deps_map tasks) tid)
            (All-ids _ tasks tid clear listed free) needed in
        let open_dep =
          none-unclaimed s d tracked idle (no_status_yet (get s.status d) undone fine) in
        (
          d,
          needed,
          ground (
            arith,
            elem-filter (λ k. not (is_claimed s k)) d (ids tasks),
            elem-deps_of tasks tid d needed,
          ),
        ),
  )
    where
      claimed :
          (k : String)
          → elem k (ids tasks) ≡ true
          → filter (λ tid. not (is_claimed s tid)) (ids tasks) ≡ []
          → is_claimed s k ≡ true
      claimed k m e =
          ground (arith, elem-filter (λ j. not (is_claimed s j)) k (ids tasks), ap (elem k) e)
