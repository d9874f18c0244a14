-- ===== src/Ordering/Agreement.antt =====
-- The two cycle detectors agree: `_tasks_in_cycle` finds the ids that `topological_order` names.
use dev_team.Prelude.{
  ℕ, zero, suc, ◌≤◌, String, ◌≡◌, refl, ◌∙◌, Bool, Bool-cases, inl, inr, true, false, not, List, [],
  ◌∷◌, ◌++◌, arith, if◌then◌else◌, filter, is_empty, eq_refl, elem, elem-append, elem-filter,
  length,
}
use dev_team.Prelude.Dict.{Dict}
use dev_team.Models.{Task, ids}
use dev_team.Ordering.{
  Sorted, cycle, is_ready, ready_tasks, waiting_tasks, real_deps, topological_order, order_loop,
  cycle_loop, tasks_in_cycle, dict_from,
}
use dev_team.Ordering.Lookup.{deps_map-real_deps}
use dev_team.Ordering.Cycles.{elem-ids-filter}
use dev_team.Ordering.Loop.{length-waiting_tasks-le}

-- The ids that the error names; none, if there is an order.
abbrev pub cycle_ids : Sorted → List String
cycle_ids (cycle l) = l
cycle_ids _ = []

ids-filter :
    (q : String → Bool) (xs : List Task) → filter q (ids xs) ≡ ids (filter (λ t. q t.id) xs)
unfolding filter
ids-filter q [] = refl
ids-filter q (x ∷ xs) = ground (arith, ids-filter q xs)

-- Where no id is resolved yet, the ids outside `resolved ++ ready` are those that are not ready.
filter-unresolved :
    (q : String → Bool) (resolved : List String) (remaining : List String) (xs : List String)
    → ((tid : String)
        → elem tid xs ≡ true
        → (elem tid resolved ≡ false) × (elem tid remaining ≡ true))
    → filter (λ tid. not (elem tid (resolved ++ filter q remaining))) xs
      ≡ filter (λ tid. not (q tid)) xs
unfolding filter elem
filter-unresolved q resolved remaining [] h = refl
filter-unresolved q resolved remaining (x ∷ xs) h = ground (
  arith,
  h x,
  eq_refl x,
  elem-append x resolved (filter q remaining),
  elem-filter q x remaining,
  filter-unresolved q resolved remaining xs (λ tid m. h tid (ground arith)),
)

is_empty-ids : (xs : List Task) → is_empty (ids xs) ≡ is_empty xs
is_empty-ids [] = refl
is_empty-ids (x ∷ xs) = refl

-- One round of `_tasks_in_cycle`, in terms of the tasks that are ready.
cycle_loop-suc :
    (fuel : ℕ) (deps : Dict (List String)) (resolved : List String) (remaining : List Task)
    → ((tid : String) → elem tid (ids remaining) ≡ true → elem tid resolved ≡ false)
    → cycle_loop (suc fuel) deps resolved (ids remaining) ≡ (
        if is_empty (ready_tasks deps resolved remaining)
        then ids remaining
        else cycle_loop fuel deps
            (resolved ++ ids (ready_tasks deps resolved remaining))
            (ids (waiting_tasks deps resolved remaining)))
unfolding cycle_loop
cycle_loop-suc fuel deps resolved remaining fresh =
    let q = is_ready deps resolved in
    rw (filter-unresolved q resolved (ids remaining) (ids remaining) (λ tid m. (fresh tid m, m))) (
      rw (ids-filter q remaining) (
        rw (ids-filter (λ tid. not (q tid)) remaining)
          (rw (is_empty-ids (ready_tasks deps resolved remaining)))))

-- What waits is not resolved after the round.
waiting-unresolved :
    (deps : Dict (List String)) (resolved : List String) (remaining : List Task)
    → ((tid : String) → elem tid (ids remaining) ≡ true → elem tid resolved ≡ false)
    → (tid : String) → elem tid (ids (waiting_tasks deps resolved remaining)) ≡ true
    → elem tid (resolved ++ ids (ready_tasks deps resolved remaining)) ≡ false
waiting-unresolved deps resolved remaining fresh tid m = ground (
  arith,
  elem-append tid resolved (ids (ready_tasks deps resolved remaining)),
  fresh tid,
  elem-ids-filter (is_ready deps resolved) tid remaining,
  elem-ids-filter (λ x. not (is_ready deps resolved x)) tid remaining,
)

cycle_loop-nil :
    (fuel : ℕ) (deps : Dict (List String)) (resolved : List String)
    → cycle_loop fuel deps resolved [] ≡ []
unfolding cycle_loop filter
cycle_loop-nil zero deps resolved = refl
cycle_loop-nil (suc fuel) deps resolved = refl

agree_loop :
    (fuel : ℕ) (deps : Dict (List String)) (placed : List Task) (resolved : List String)
    (remaining : List Task)
    → length remaining ≤ fuel
    → ((tid : String) → elem tid (ids remaining) ≡ true → elem tid resolved ≡ false)
    → cycle_loop fuel deps resolved (ids remaining)
      ≡ cycle_ids (order_loop fuel deps placed resolved remaining)
unfolding order_loop
agree_loop fuel deps placed resolved [] h fresh = cycle_loop-nil fuel deps resolved
agree_loop zero deps placed resolved (t ∷ ts) h fresh = absurd (omega arith)
agree_loop (suc fuel) deps placed resolved (t ∷ ts) h fresh =
    cycle_loop-suc fuel deps resolved (t ∷ ts) fresh
    ∙ elim (Bool-cases (is_empty (ready_tasks deps resolved (t ∷ ts)))) [
      | inl idle ↦ rw idle
      | inr busy ↦ rw busy (
          agree_loop fuel deps (placed ++ ready_tasks deps resolved (t ∷ ts))
            (resolved ++ ids (ready_tasks deps resolved (t ∷ ts)))
            (waiting_tasks deps resolved (t ∷ ts))
            (length-waiting_tasks-le deps resolved (t ∷ ts) fuel h busy)
            (waiting-unresolved deps resolved (t ∷ ts) fresh))
    ]

-- `_tasks_in_cycle` on the ids of the tasks is what the error of `topological_order` names, and
-- empty if there is no error.
pub tasks_in_cycle-topological_order :
    (tasks : List Task) → tasks_in_cycle tasks (ids tasks) ≡ cycle_ids (topological_order tasks)
unfolding tasks_in_cycle topological_order elem
tasks_in_cycle-topological_order tasks = rw (deps_map-real_deps tasks) (
    agree_loop (length tasks) (dict_from (real_deps (λ dep. elem dep (ids tasks))) [] tasks) [] []
      tasks (omega arith) (λ tid m. refl))
