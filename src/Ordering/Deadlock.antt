-- ===== src/Ordering/Deadlock.antt =====
-- Tasks that wait for one another rule an order out.
use mathlib.Core.Path.{subst}
use mathlib.Core.Bool.{false≢true}
use dev_team.Prelude.{
  String, ◌≡◌, refl, ◌≢◌, true, false, not, ◌||◌, List, [], ◌∷◌, arith, eq_refl, elem, elem-append,
  all-elem, Bool-cases, inl, inr,
}
use dev_team.Models.{Task, ids}
use dev_team.Ordering.{Sorted, ordered, is_ready, ready_tasks, deps_map, deps_of, topological_order}
use dev_team.Ordering.Loop.{LoopRule, topological_order_ind}
use dev_team.Ordering.Lookup.{elem-deps_of}
use dev_team.Ordering.Cycles.{Deadlocked, elem-ids-filter}

abbrev NotOrdered : Sorted → Type 0
NotOrdered (ordered out) = ⊥
NotOrdered _ = Unit

module _ (tasks : List Task) (l : List String) (dead : Deadlocked (deps_map tasks) l) where
  -- Some deadlocked id is a task's.
  listed : (tid : String) × (elem tid l ≡ true) × (elem tid (ids tasks) ≡ true)
  unfolding elem
  listed = go l dead
    where
      go :
          (l : List String)
          → Deadlocked (deps_map tasks) l
          → (tid : String) × (elem tid l ≡ true) × (elem tid (ids tasks) ≡ true)
      go [] d = absurd (d.0 refl)
      go (x ∷ xs) d =
          let (dep, needed, waits) = d.1 x (ground (arith, eq_refl x)) in
          (dep, waits, elem-deps_of tasks x dep needed)

  -- No deadlocked task becomes ready while none is resolved.
  deadlocked-not_ready :
      (resolved : List String)
      → ((k : String) → elem k l ≡ true → elem k resolved ≡ false)
      → (k : String) → elem k l ≡ true
      → is_ready (deps_map tasks) resolved k ≡ false
  unfolding is_ready
  deadlocked-not_ready resolved none_resolved k m =
      elim (Bool-cases (is_ready (deps_map tasks) resolved k)) [
        | inl ready ↦
            let (dep, needed, waits) = dead.1 k m in
            let h = all-elem (λ d. elem d resolved) dep (deps_of (deps_map tasks) k) ready needed in
            ground (arith, none_resolved dep)
        | inr waits ↦ waits
      ]

  Deadlocked-NotOrdered : NotOrdered (topological_order tasks)
  unfolding elem
  Deadlocked-NotOrdered =
      topological_order_ind {Q = NotOrdered} Inv tasks rule (λ k m. ground arith, λ k m. refl)
    where
      Inv : List Task → List String → List Task → Type 0
      Inv placed resolved remaining =
          ((k : String)
            → elem k (ids tasks) ≡ true
            → (elem k resolved || elem k (ids remaining)) ≡ true)
          × ((k : String) → elem k l ≡ true → elem k resolved ≡ false)

      rule : LoopRule (deps_map tasks) Inv NotOrdered
      rule = record {
        settle = λ placed resolved p.
            let (tid, waits, known) = listed in
            absurd (false≢true (ground (arith, p.0 tid known, p.1 tid waits)));
        halt = λ _ _ _ _ _ _. tt;
        advance = λ placed resolved remaining p.
            let ready = λ (k : String).
              elem-append k resolved (ids (ready_tasks (deps_map tasks) resolved remaining)) in
            let found =
              λ (k : String). elem-ids-filter (is_ready (deps_map tasks) resolved) k remaining in
            (
              λ k m. ground (
                arith,
                p.0 k m,
                ready k,
                found k,
                elem-ids-filter (λ j. not (is_ready (deps_map tasks) resolved j)) k remaining,
              ),
              λ k m.
                  ground (arith, p.1 k m, ready k, found k, deadlocked-not_ready resolved p.1 k m),
            );
      }

-- Where tasks wait for one another, `topological_order` returns no order.
pub Deadlocked-unsorted :
    (tasks : List Task) (l : List String) (out : List Task)
    → Deadlocked (deps_map tasks) l
    → topological_order tasks ≢ ordered out
Deadlocked-unsorted tasks l out dead e = subst NotOrdered e (Deadlocked-NotOrdered tasks l dead)
