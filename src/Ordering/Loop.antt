-- ===== src/Ordering/Loop.antt =====
-- A proof rule for the loop of `topological_order`, and that the loop ends.
use dev_team.Prelude.{
  ℕ, zero, suc, ◌≤◌, String, ◌≡◌, ◌≢◌, true, false, List, [], ◌∷◌, ◌++◌, arith, inl, inr,
  Bool-cases, length, is_empty, length-filter-add-reject,
}
use dev_team.Prelude.Dict.{Dict}
use dev_team.Models.{Task, ids}
use dev_team.Ordering.{
  Sorted, ordered, cycle, out_of_fuel, is_ready, ready_tasks, waiting_tasks, order_loop, deps_map,
  topological_order,
}

-- What to show of an invariant `P placed resolved remaining` and a postcondition `Q`.
pub record LoopRule (deps : Dict (List String)) (P : List Task → List String → List Task → Type 0)
    (Q : Sorted → Type 0) : Type 0 where
  pub settle :
      (placed : List Task) (resolved : List String) → P placed resolved [] → Q (ordered placed)
  pub halt :
      (placed : List Task) (resolved : List String) (t : Task) (ts : List Task)
      → P placed resolved (t ∷ ts)
      → is_empty (ready_tasks deps resolved (t ∷ ts)) ≡ true
      → Q (cycle (ids (t ∷ ts)))
  pub advance :
      (placed : List Task) (resolved : List String) (remaining : List Task)
      → P placed resolved remaining
      → P
          (placed ++ ready_tasks deps resolved remaining)
          (resolved ++ ids (ready_tasks deps resolved remaining))
          (waiting_tasks deps resolved remaining)

pub length-waiting_tasks-le :
    (deps : Dict (List String)) (resolved : List String) (remaining : List Task) (n : ℕ)
    → length remaining ≤ suc n
    → is_empty (ready_tasks deps resolved remaining) ≡ false
    → length (waiting_tasks deps resolved remaining) ≤ n
length-waiting_tasks-le deps resolved remaining n h some_ready =
    grind (arith, length-filter-add-reject (λ (t : Task). is_ready deps resolved t.id) remaining)

module _ {deps : Dict (List String)} {P : List Task → List String → List Task → Type 0}
    {Q : Sorted → Type 0} (rule : LoopRule deps P Q) where
  open rule use {settle, halt, advance}

  order_loop_ind :
      (fuel : ℕ) (placed : List Task) (resolved : List String) (remaining : List Task)
      → length remaining ≤ fuel
      → P placed resolved remaining
      → Q (order_loop fuel deps placed resolved remaining)
  unfolding order_loop
  order_loop_ind zero placed resolved [] h p = settle placed resolved p
  order_loop_ind (suc fuel) placed resolved [] h p = settle placed resolved p
  order_loop_ind zero placed resolved (t ∷ ts) h p = absurd (omega arith)
  order_loop_ind (suc fuel) placed resolved (t ∷ ts) h p =
      elim (Bool-cases (is_empty (ready_tasks deps resolved (t ∷ ts)))) [
        | inl idle ↦ rw idle (halt placed resolved t ts p idle)
        | inr busy ↦ rw busy (
            order_loop_ind fuel _ _ _ (length-waiting_tasks-le deps resolved (t ∷ ts) fuel h busy)
              (advance placed resolved (t ∷ ts) p))
      ]

-- The postcondition of a sort holds if the invariant holds of the tasks as they are given.
pub topological_order_ind :
    {Q : Sorted → Type 0} (P : List Task → List String → List Task → Type 0) (tasks : List Task)
    → LoopRule (deps_map tasks) P Q
    → P [] [] tasks
    → Q (topological_order tasks)
unfolding topological_order
topological_order_ind P tasks rule p =
    order_loop_ind rule (length tasks) [] [] tasks (omega arith) p

-- Whatever the tasks, the loop ends within its fuel: with an order or with a cycle.
pub topological_order-ne-out_of_fuel : (tasks : List Task) → topological_order tasks ≢ out_of_fuel
topological_order-ne-out_of_fuel tasks =
    topological_order_ind {Q = λ r. r ≢ out_of_fuel} (λ _ _ _. Unit) tasks
      (record { settle = λ _ _ _ e. cc; halt = λ _ _ _ _ _ _ e. cc; advance = λ _ _ _ _. tt }) tt
