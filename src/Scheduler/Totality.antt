-- ===== src/Scheduler/Totality.antt =====
-- `schedule` ends, with one result for each task or with a cycle error that names a cycle.
use dev_team.Prelude.{
  ℕ, zero, suc, ◌+◌, ◌≤◌, ◌<◌, String, ◌≡◌, refl, sym, ◌∙◌, Bool, true, false, not, none, List, [],
  ◌∷◌, ap, leb, leb→le, leb_of_le, length, is_empty, filter, all, any, elem, arith, All, distinct,
  Bool-cases, inl, inr, length-map, length-le_of_elem,
}
use mathlib.Core.Path.{subst}
use dev_team.Models.{ids-All}
use dev_team.Ordering.Lint.{all-unseen-cons, all-unseen-nil}
use dev_team.Prelude.Dict.{Dict, get, has, keys, has-keys}
use dev_team.Models.{Task, ids}
use dev_team.Ordering.{deps_map}
use dev_team.Ordering.Cycles.{Deadlocked}
use dev_team.Scheduler.{
  ScheduleStatus, WorkerOutcome, State, initial, dependency_cycle, run_loop, schedule,
  first_duplicate, is_blocked, is_claimed, Turn, go_on, cycle_error, turn, after_cascade,
  launch_and_wait, cascade, launch, checked,
}
use dev_team.Scheduler.Steps.{Good, cascade-Good, launch-Good, finish_all-Good}
use dev_team.Scheduler.Progress.{
  weight, cascade-grows, cascade_idle, launch_idle, launch-status, finish_all-grows,
}
use dev_team.Scheduler.Deadlock.{Returns, collect-Returns, all_settled, idle-Deadlocked}

module _ (tasks : List Task) (cap : ℕ) (finished : State → List (String × WorkerOutcome)) where
  -- A round from a sound state goes on with more statuses than before, or names a deadlock.
  abbrev Advances : State → Turn → Type 0
  Advances s (go_on s') =
      Good (deps_map tasks) (ids tasks) cap s' × (suc (length s.status) ≤ length s'.status)
  Advances s (cycle_error l) = Deadlocked (deps_map tasks) l

  module _ (room : 1 ≤ cap) (unique : distinct (ids tasks) ≡ true)
      (ends : (s : State)
        → is_empty s.in_flight ≡ false
        → any (λ c. elem c.0 (ids s.in_flight)) (finished s) ≡ true) where
    wait-Advances :
        (s : State)
        → Good (deps_map tasks) (ids tasks) cap s
        → length s.status < length tasks
        → All
            (λ t. is_claimed s t.id ≡ false → is_blocked (deps_map tasks) s.status t.id ≡ false)
            tasks
        → Advances s (launch_and_wait tasks cap finished s)
    unfolding launch_and_wait
    wait-Advances s g left clear =
        let s' = launch (deps_map tasks) cap tasks s in
        let g' = launch-Good (deps_map tasks) (ids tasks) cap tasks s (ids-All tasks) g in
        elim (Bool-cases (is_empty s'.in_flight)) [
          | inl idle ↦
              let (same, waits) = launch_idle (deps_map tasks) cap tasks s room idle in
              rw idle (
                subst
                  (λ x.
                    Deadlocked (deps_map tasks)
                      (filter (λ tid. not (is_claimed x tid)) (ids tasks)))
                  (sym same)
                  (idle-Deadlocked tasks cap s g unique left
                    (subst (λ (x : State). is_empty x.in_flight ≡ true) same idle) clear waits))
          | inr busy ↦ rw busy (
            finish_all-Good (deps_map tasks) (ids tasks) cap (finished s') s' g',
            omega (
              arith,
              ap (λ (d : Dict ScheduleStatus). length d)
                  (launch-status (deps_map tasks) cap tasks s),
              finish_all-grows (deps_map tasks) (ids tasks) cap (finished s') s' g'.0
                  (ends s' busy),
            ),
          )
        ]

    after_cascade-Advances :
        (s : State)
        → Good (deps_map tasks) (ids tasks) cap s
        → length s.status < length tasks
        → (acc : State × Bool) → cascade (deps_map tasks) tasks (s, false) ≡ acc
        → Advances s (after_cascade tasks cap finished acc)
    unfolding after_cascade
    after_cascade-Advances s g left (s', true) e = (
      subst (λ (acc : State × Bool). Good (deps_map tasks) (ids tasks) cap acc.0) e
          (cascade-Good (deps_map tasks) (ids tasks) cap tasks (s, false) (ids-All tasks) g),
      omega (
        arith,
        subst (λ (acc : State × Bool). length s.status + weight acc.1 ≤ length acc.0.status + 0) e
            (cascade-grows (deps_map tasks) tasks (s, false)),
      ),
    )
    after_cascade-Advances s g left (s', false) e =
        let (same, clear) =
          cascade_idle (deps_map tasks) tasks s (ap (λ (acc : State × Bool). acc.1) e) in
        subst (λ x. Advances s (launch_and_wait tasks cap finished x))
          (sym same ∙ ap (λ (acc : State × Bool). acc.0) e) (wait-Advances s g left clear)

    run_loop-Returns :
        (fuel : ℕ) (s : State)
        → Good (deps_map tasks) (ids tasks) cap s
        → length tasks < fuel + length s.status
        → Returns tasks (run_loop tasks cap finished fuel s)
    unfolding run_loop turn
    run_loop-Returns zero s (v, tracked) h = absurd (
        omega (
          arith,
          length-le_of_elem (keys s.status) (ids tasks) v.keys_unique
              (λ k m. v.keys_known k (rw (has-keys s.status k) m)),
          length-map (λ (t : Task). t.id) tasks,
          length-map (λ (p : String × ScheduleStatus). p.0) s.status,
        ))
    run_loop-Returns (suc fuel) s g h = elim (Bool-cases (leb (length tasks) (length s.status))) [
      | inl enough ↦
          rw enough
            (collect-Returns tasks cap s g.0 (all_settled tasks cap s g.0 (leb→le _ _ enough)))
      | inr more ↦ rw more (
          next (run_loop-Returns fuel) (turn tasks cap finished s)
            (after_cascade-Advances s g (ground arith) _ refl))
    ]
      where
        next :
            ((s' : State)
              → Good (deps_map tasks) (ids tasks) cap s'
              → length tasks < fuel + length s'.status
              → Returns tasks (run_loop tasks cap finished fuel s'))
            → (r : Turn) → Advances s r
            → Returns tasks (elim r [
              | go_on s' ↦ run_loop tasks cap finished fuel s'
              | cycle_error l ↦ dependency_cycle l
            ])
        next rest (go_on s') (g', more) = rest s' g' (omega arith)
        next rest (cycle_error l) dead = dead

first_duplicate-distinct :
    (seen : List String) (ts : List Task)
    → distinct (ids ts) ≡ true
    → all (λ k. not (elem k seen)) (ids ts) ≡ true
    → first_duplicate seen ts ≡ none
unfolding first_duplicate distinct all
first_duplicate-distinct seen [] d h = refl
first_duplicate-distinct seen (t ∷ ts) d h =
    ground (arith, first_duplicate-distinct (t.id ∷ seen) ts, all-unseen-cons t.id seen (ids ts))

pub initial-Good :
    (deps : Dict (List String)) (known : List String) (cap : ℕ) → Good deps known cap initial
unfolding has elem get distinct
initial-Good deps known cap = (
  record {
    keys_unique = refl;
    keys_known = λ k h. cc;
    flying_known = λ k h. cc;
    flying_open = λ k h. cc;
    flying_started = λ k h. cc;
    flying_ready = λ k h. cc;
    within = omega arith;
    settled = λ k st h. cc;
    heard = refl;
  },
  λ k h. cc,
)

-- With room for a task, distinct ids, and waits that return only when some task in flight has
-- ended, `schedule` returns, and either gives one result for each task, in the order of the tasks,
-- or raises the cycle error, which then names tasks that wait for one another. In the results a
-- task is done or failed only if all its dependencies are done, and skipped only if one of them
-- failed or was skipped.
pub schedule-Returns :
    (tasks : List Task) (max_concurrency : ℕ) (finished : State → List (String × WorkerOutcome))
    → 1 ≤ max_concurrency
    → distinct (ids tasks) ≡ true
    → ((s : State)
        → is_empty s.in_flight ≡ false
        → any (λ c. elem c.0 (ids s.in_flight)) (finished s) ≡ true)
    → Returns tasks (schedule tasks max_concurrency finished)
unfolding schedule checked
schedule-Returns tasks cap finished room unique ends = rw (leb_of_le 1 cap room) (
    rw (first_duplicate-distinct [] tasks unique (all-unseen-nil (ids tasks)), checked)
      (run_loop-Returns tasks cap finished room unique ends (suc (length tasks)) initial
        (initial-Good (deps_map tasks) (ids tasks) cap) (omega arith)))
