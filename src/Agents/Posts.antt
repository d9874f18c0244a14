-- ===== src/Agents/Posts.antt =====
-- What holds after a computation, however it ends, and the rule for two in a row.
use dev_team.Prelude.{ℕ, suc, ◌+◌, ◌≤◌, ◌≡◌, ap, String, true, Option, arith}
use dev_team.Models.{FeatureRequest, Task, Plan, Design, Implementation, Review}
use dev_team.Budget.{exhausted, spent}
use dev_team.Replies.{Python, Fields}
use dev_team.Agents.{
  Reply, Prompt, RunState, Raised, over_budget, response_error, runner_raised, dependency_cycle,
  run_aborted, unanswered, Outcome, ok, raised, M, ◌>>=◌, continue, return, ask_json, create_plan,
  make_design, implement, review, test, plan_deployment,
}
use dev_team.Agents.Retries.{Within, Ended, ask_json-Ended}

-- The exceptions that agents raise; the budget error, only where the budget is exhausted.
abbrev pub FromAgents : Raised → RunState → Type 0
FromAgents (over_budget e) w = exhausted w.budget ≡ true
FromAgents (response_error r t) w = Unit
FromAgents runner_raised w = Unit
FromAgents _ w = ⊥

-- No more calls of the model than some, no spending taken back, and an exhausted budget still
-- exhausted.
pub record Grown (most : ℕ) (w w' : RunState) : Type 0 where
  pub calls_from : w.calls ≤ w'.calls
  pub calls_to : w'.calls ≤ w.calls + most
  pub spending : spent w.budget ≤ spent w'.budget
  pub exhaustion : exhausted w.budget ≡ true → exhausted w'.budget ≡ true

pub Grown-refl : (n : ℕ) (w : RunState) → Grown n w w
Grown-refl n w = record {
  calls_from = omega arith;
  calls_to = omega arith;
  spending = omega arith;
  exhaustion = λ e. e;
}

pub Grown-trans :
    (m n k : ℕ) (u v w : RunState) → m + n ≤ k → Grown m u v → Grown n v w → Grown k u w
Grown-trans m n k u v w le a b = record {
  calls_from = omega (arith, a, b);
  calls_to = omega (arith, a, b);
  spending = omega (arith, a, b);
  exhaustion = λ e. b.exhaustion (a.exhaustion e);
}

-- A result with a property, or an exception with one, within some calls.
abbrev pub Runs :
    {A : Type 0}
    → (Raised → RunState → Type 0)
    → ℕ
    → (A → RunState → Type 0)
    → RunState
    → Outcome A × RunState
    → Type 0
Runs E most Q w (ok a, w') = Q a w' × Grown most w w'
Runs E most Q w (raised e, w') = E e w' × Grown most w w'

pub Runs-later :
    {B : Type 0} (E : Raised → RunState → Type 0) (Q : B → RunState → Type 0) (m n k : ℕ)
    (u v : RunState) (r : Outcome B × RunState)
    → m + n ≤ k
    → Grown m u v
    → Runs E n Q v r
    → Runs E k Q u r
Runs-later E Q m n k u v (ok b, w) le g h = (h.0, Grown-trans m n k u v w le g h.1)
Runs-later E Q m n k u v (raised e, w) le g h = (h.0, Grown-trans m n k u v w le g h.1)

pub Runs-bind :
    {A B : Type 0} (E : Raised → RunState → Type 0) (P : A → RunState → Type 0)
    (Q : B → RunState → Type 0) (m n k : ℕ) (u : RunState) (f : A → M B) (r : Outcome A × RunState)
    → m + n ≤ k
    → Runs E m P u r
    → ((a : A) (v : RunState) → P a v → Runs E n Q v (f a v))
    → Runs E k Q u (continue f r)
Runs-bind E P Q m n k u f (ok a, v) le h next =
    Runs-later E Q m n k u v (f a v) le h.1 (next a v h.0)
Runs-bind E P Q m n k u f (raised e, v) le h next = (
  h.0,
  record {
    calls_from = h.1.calls_from;
    calls_to = omega (arith, h.1.calls_to);
    spending = h.1.spending;
    exhaustion = h.1.exhaustion;
  },
)

-- An exhausted budget is exhausted after a computation too.
pub Runs-exhaustion :
    {A : Type 0} (E : Raised → RunState → Type 0) (n : ℕ) (Q : A → RunState → Type 0) (u : RunState)
    (r : Outcome A × RunState)
    → Runs E n Q u r
    → Runs E n (λ a v. Q a v × (exhausted u.budget ≡ true → exhausted v.budget ≡ true)) u r
Runs-exhaustion E n Q u (ok a, v) h = ((h.0, h.1.exhaustion), h.1)
Runs-exhaustion E n Q u (raised e, v) h = h

-- An assignment before a computation makes no call.
pub Runs-set :
    {B : Type 0} (E : Raised → RunState → Type 0) (Q : B → RunState → Type 0) (n : ℕ)
    (u v : RunState) (r : Outcome B × RunState)
    → v.calls ≡ u.calls
    → v.budget ≡ u.budget
    → Runs E n Q v r
    → Runs E n Q u r
Runs-set E Q n u v r c b = Runs-later E Q 0 n n u v r (omega arith) (record {
  calls_from = omega (arith, c);
  calls_to = omega (arith, c);
  spending = omega (arith, ap spent b);
  exhaustion = λ e. rw b e;
})

-- That a computation assigned no status.
abbrev pub Same : {A : Type 0} → RunState → A → RunState → Type 0
Same u a v = v.statuses ≡ u.statuses

grown : (n : ℕ) (w w' : RunState) → Within n w w' → Grown n w w'
grown n w w' h = record {
  calls_from = h.calls_from;
  calls_to = h.calls_to;
  spending = h.spending;
  exhaustion = h.exhaustion;
}

module _ (py : Python) (runner : ℕ → Prompt → Option Reply) (json_retries : ℕ) where
  Ended-Runs :
      (role : String) (u : RunState) (r : Outcome Fields × RunState)
      → Ended py runner (suc json_retries) role u r
      → Runs FromAgents (suc json_retries) (Same u) u r
  Ended-Runs role u (ok d, w) h = (h.2.statuses, grown _ u w h.2)
  Ended-Runs role u (raised (over_budget e), w) h = (h.0, grown _ u w h.1)
  Ended-Runs role u (raised runner_raised, w) h = (tt, grown _ u w h.1)
  Ended-Runs role u (raised (response_error x t), w) h = (tt, grown _ u w h.2)
  Ended-Runs role u (raised (dependency_cycle l), w) h = elim h [ ]
  Ended-Runs role u (raised run_aborted, w) h = elim h [ ]
  Ended-Runs role u (raised unanswered, w) h = elim h [ ]

  asked :
      {A : Type 0} (f : Fields → A) (role : String) (prompt : Prompt) (w : RunState)
      → Runs FromAgents
          (suc json_retries)
          (Same w)
          w
          ((ask_json py runner json_retries role prompt >>= λ d. return (f d)) w)
  asked f role prompt w =
      mapped (ask_json py runner json_retries role prompt w)
        (Ended-Runs role w _ (ask_json-Ended py runner json_retries role prompt w))
    where
      mapped :
          (r : Outcome Fields × RunState)
          → Runs FromAgents (suc json_retries) (Same w) w r
          → Runs FromAgents (suc json_retries) (Same w) w (continue (λ d. return (f d)) r)
      mapped (ok d, v) h = h
      mapped (raised e, v) h = h

  -- An agent's method makes as many calls as a question may, and assigns no status.
  abbrev Asks : {A : Type 0} → M A → Type 0
  Asks m = (w : RunState) → Runs FromAgents (suc json_retries) (Same w) w (m w)

  pub create_plan-Asks :
      (request : FeatureRequest) (feedback : Option String)
      → Asks (create_plan py runner json_retries request feedback)
  unfolding create_plan
  create_plan-Asks request feedback w = asked _ _ _ w

  pub make_design-Asks :
      (request : FeatureRequest) (plan : Plan)
      → Asks (make_design py runner json_retries request plan)
  unfolding make_design
  make_design-Asks request plan w = asked _ _ _ w

  pub implement-Asks :
      (task : Task) (design : Design) (feedback : Option Review)
      → Asks (implement py runner json_retries task design feedback)
  unfolding implement
  implement-Asks task design feedback w = asked _ _ _ w

  pub review-Asks :
      (task : Task) (implementation : Implementation)
      → Asks (review py runner json_retries task implementation)
  unfolding review
  review-Asks task implementation w = asked _ _ _ w

  pub test-Asks :
      (task : Task) (implementation : Implementation)
      → Asks (test py runner json_retries task implementation)
  unfolding test
  test-Asks task implementation w = asked _ _ _ w

  pub plan_deployment-Asks :
      (request : FeatureRequest) (design : Design)
      → Asks (plan_deployment py runner json_retries request design)
  unfolding plan_deployment
  plan_deployment-Asks request design w = asked _ _ _ w
