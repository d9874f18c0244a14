-- ===== src/Ordering/Cycles.antt =====
-- DependencyCycleError is raised for cycles, and for nothing else.
use mathlib.Core.Path.{subst}
use dev_team.Prelude.{
  ℕ, zero, suc, ◌<◌, String, ◌≡◌, refl, ◌≢◌, Bool, true, false, not, ◌&&◌, ◌||◌, List, [], ◌∷◌,
  arith, eq_iff, filter, All, is_empty, eq_refl, elem, elem-append, all-false,
}
use dev_team.Prelude.Dict.{Dict}
use dev_team.Models.{Task, ids}
use dev_team.Ordering.{Sorted, cycle, is_ready, ready_tasks, deps_map, deps_of, topological_order}
use dev_team.Ordering.Loop.{LoopRule, topological_order_ind}
use dev_team.Ordering.Lookup.{deps_of_inv, elem-deps_of}

pub elem-ids-filter :
    (q : String → Bool) (tid : String) (xs : List Task)
    → elem tid (ids (filter (λ t. q t.id) xs)) ≡ (elem tid (ids xs) && q tid)
unfolding elem filter
elem-ids-filter q tid [] = refl
elem-ids-filter q tid (x ∷ xs) = ground (arith, elem-ids-filter q tid xs, eq_iff x.id tid)

none_passes :
    (q : String → Bool) (xs : List Task) (tid : String)
    → is_empty (filter (λ t. q t.id) xs) ≡ true
    → elem tid (ids xs) ≡ true
    → q tid ≡ false
unfolding elem filter
none_passes q [] tid h m = cc
none_passes q (x ∷ xs) tid h m = ground (arith, none_passes q xs tid, eq_iff x.id tid)

-- With no task ready, each task that remains depends on one that is not resolved.
unresolved_dependency :
    (deps : Dict (List String)) (resolved : List String) (remaining : List Task) (tid : String)
    → is_empty (ready_tasks deps resolved remaining) ≡ true
    → elem tid (ids remaining) ≡ true
    → (dep : String) × (elem dep (deps_of deps tid) ≡ true) × (elem dep resolved ≡ false)
unfolding is_ready
unresolved_dependency deps resolved remaining tid idle m =
    all-false (λ d. elem d resolved) (deps_of deps tid)
      (none_passes (is_ready deps resolved) remaining tid idle m)

-- `R` holds of the ids in the error, if there is one.
abbrev OnCycle : (List String → Type 0) → Sorted → Type 0
OnCycle R (cycle l) = R l
OnCycle R _ = Unit

-- Each of these tasks waits for one of them.
abbrev pub Deadlocked : Dict (List String) → List String → Type 0
Deadlocked deps l =
    (l ≢ [])
    × ((tid : String)
        → elem tid l ≡ true
        → (dep : String) × (elem dep (deps_of deps tid) ≡ true) × (elem dep l ≡ true))

-- The ids in the error are of tasks that wait for one another: there are some, and each depends
-- on a task among them.
pub topological_order-Deadlocked :
    (tasks : List Task) (l : List String)
    → topological_order tasks ≡ cycle l
    → Deadlocked (deps_map tasks) l
unfolding elem
topological_order-Deadlocked tasks l e =
    subst (OnCycle (Deadlocked deps)) e
      (topological_order_ind {Q = OnCycle (Deadlocked deps)} Inv tasks rule (λ tid known. rw known))
  where
    deps : Dict (List String)
    deps = deps_map tasks

    Inv : List Task → List String → List Task → Type 0
    Inv placed resolved remaining =
        (tid : String)
        → elem tid (ids tasks) ≡ true
        → (elem tid resolved || elem tid (ids remaining)) ≡ true

    rule : LoopRule deps Inv (OnCycle (Deadlocked deps))
    rule = record {
      settle = λ _ _ _. tt;
      halt = λ placed resolved t ts p idle. (
        λ none_left. cc,
        λ tid m.
            let (dep, needed, open_dep) = unresolved_dependency deps resolved (t ∷ ts) tid idle m in
            (dep, needed, ground (arith, p dep (elem-deps_of tasks tid dep needed))),
      );
      advance = λ placed resolved remaining p tid known. ground (
        arith,
        p tid known,
        elem-append tid resolved (ids (ready_tasks deps resolved remaining)),
        elem-ids-filter (is_ready deps resolved) tid remaining,
        elem-ids-filter (λ x. not (is_ready deps resolved x)) tid remaining,
      );
    }

-- `rank` puts each dependency that counts below the task that has it.
abbrev pub IsRanked : (String → ℕ) → List Task → Type 0
IsRanked rank tasks =
    All
      (λ t.
        (dep : String)
        → elem dep t.dependencies ≡ true
        → elem dep (ids tasks) ≡ true
        → dep ≢ t.id
        → rank dep < rank t.id)
      tasks

-- From one deadlocked task there would be ever lower ranks.
Deadlocked-unranked :
    (rank : String → ℕ) (deps : Dict (List String)) (l : List String)
    → Deadlocked deps l
    → ((tid dep : String) → elem dep (deps_of deps tid) ≡ true → rank dep < rank tid)
    → (n : ℕ) (tid : String) → elem tid l ≡ true
    → ¬ (rank tid < n)
Deadlocked-unranked rank deps l dead down zero tid m h = omega arith
Deadlocked-unranked rank deps l dead down (suc n) tid m h =
    let (dep, needed, waits) = dead.1 tid m in
    Deadlocked-unranked rank deps l dead down n dep waits (omega (arith, down tid dep needed))

-- Tasks that can be ranked, so that have no cycle, are sorted without an error.
pub topological_order-ne-cycle :
    (rank : String → ℕ) (tasks : List Task) (l : List String)
    → IsRanked rank tasks
    → topological_order tasks ≢ cycle l
unfolding elem
topological_order-ne-cycle rank tasks l ranked e = go l (topological_order-Deadlocked tasks l e)
  where
    go : (l : List String) → Deadlocked (deps_map tasks) l → ⊥
    go [] dead = dead.0 refl
    go (tid ∷ more) dead =
        Deadlocked-unranked rank (deps_map tasks) (tid ∷ more) dead
          (deps_of_inv (λ k dep. rank dep < rank k) tasks ranked) (suc (rank tid)) tid
          (ground (arith, eq_refl tid)) (omega arith)
