-- ===== src/Budget/Calls.antt =====
-- What one metered call does to the budget, on each of its ends, and what each role has spent.
use dev_team.Prelude.{
  ℕ, ◌+◌, ◌≤◌, ◌<◌, ◌≡◌, refl, String, true, false, Option, none, some, List, [], ◌∷◌, ltb, ◌==◌,
  eq_iff, arith, Bool-cases, inl, inr, ltb→lt, filter,
}
use dev_team.Prelude.Int.{pos_part}
use dev_team.Prelude.Dict.{Dict, get, set, get-set}
use dev_team.Budget.{
  AgentResult, UsageRecord, UsageMeter, sum_cost, or_zero, add_costs, cost_by_role, Budget,
  effective_limit, spent, exhausted, reached, check, record_usage, enforce, CallOutcome, answered,
  refused, overspent, call_raised, admit, after_inner, settle, run_call,
}
use dev_team.Budget.Ceiling.{spent-record_usage}

-- Not above the ceiling, if there is one.
abbrev pub Under : Option ℕ → ℕ → Type 0
Under none used = Unit
Under (some limit) used = used ≤ limit

-- How a call that was made with `inner` and ended in `o` leaves the budget `b`: what the outcome
-- tells, and what was spent.
abbrev pub Accounted : Budget → Option AgentResult → Budget × CallOutcome → Type 0
Accounted b inner (b', refused e) = (b' ≡ b) × (exhausted b ≡ true) × (e.spent ≡ spent b)
Accounted b inner (b', call_raised) = (b' ≡ b) × (inner ≡ none) × (exhausted b ≡ false)
Accounted b inner (b', answered r) =
    (inner ≡ some r)
    × (spent b' ≡ spent b + pos_part r.cost_usd)
    × Under (effective_limit b) (spent b')
    × (exhausted b ≡ false)
Accounted b inner (b', overspent e) =
    ((r : AgentResult) × (inner ≡ some r) × (e.spent ≡ spent b + pos_part r.cost_usd))
    × (spent b' ≡ e.spent)
    × (effective_limit b ≡ some e.limit)
    × (e.limit < e.spent)
    × (exhausted b ≡ false)

effective_limit-record_usage :
    (role : String) (r : AgentResult) (b : Budget)
    → effective_limit b ≡ effective_limit (record_usage role r b).0
unfolding record_usage effective_limit
effective_limit-record_usage role r b = refl

not_lt→le : (a b : ℕ) → ltb a b ≡ false → b ≤ a
not_lt→le a b h = ground arith

enforce-Accounted :
    (lim : Option ℕ) (b b' : Budget) (r : AgentResult) (e : UsageRecord)
    → effective_limit b ≡ lim
    → spent b' ≡ spent b + pos_part r.cost_usd
    → exhausted b ≡ false
    → Accounted b (some r) (settle r (b', enforce lim (spent b') e))
unfolding settle enforce
enforce-Accounted none b b' r e l sp room = (refl, sp, rw l tt, room)
enforce-Accounted (some limit) b b' r e l sp room = elim (Bool-cases (ltb limit (spent b'))) [
  | inl over ↦ rw over ((r, refl, sp), refl, l, ltb→lt _ _ over, room)
  | inr under ↦ rw under (refl, sp, rw l (not_lt→le limit (spent b') under), room)
]

admit-Accounted :
    (b : Budget) (role : String) (inner : Option AgentResult)
    → exhausted b ≡ false
    → Accounted b inner (admit none role inner b)
unfolding admit after_inner record_usage
admit-Accounted b role none room = (refl, refl, room)
admit-Accounted b role (some r) room =
    enforce-Accounted _ b _ r _ (effective_limit-record_usage role r b)
      (spent-record_usage role r b) room

-- One metered call: it is refused, with nothing spent, exactly where the ceiling was reached
-- before it, whatever the runner would do. Otherwise the runner is called: where it raises, nothing is
-- recorded; where it answers, its full cost is recorded, and the call fails with the budget error
-- exactly where spending has then passed the ceiling.
pub run_call-Accounted :
    (role : String) (inner : Option AgentResult) (b : Budget)
    → Accounted b inner (run_call role inner b)
unfolding run_call check admit
run_call-Accounted role inner b = elim (Bool-cases (exhausted b)) [
  | inl over ↦ rw over (refl, over, refl)
  | inr room ↦ rw room (admit-Accounted b role inner room)
]

-- Where a call fails with the budget error, the ceiling has been reached.
abbrev pub Stopped : Budget × CallOutcome → Type 0
Stopped (b', refused e) = exhausted b' ≡ true
Stopped (b', overspent e) = exhausted b' ≡ true
Stopped (b', answered r) = Unit
Stopped (b', call_raised) = Unit

enforce-Stopped :
    (lim : Option ℕ) (b' : Budget) (r : AgentResult) (e : UsageRecord)
    → effective_limit b' ≡ lim
    → Stopped (settle r (b', enforce lim (spent b') e))
unfolding settle enforce exhausted reached
enforce-Stopped none b' r e l = tt
enforce-Stopped (some limit) b' r e l = elim (Bool-cases (ltb limit (spent b'))) [
  | inl over ↦ rw over (rw l (ground arith))
  | inr under ↦ rw under tt
]

pub run_call-Stopped :
    (role : String) (inner : Option AgentResult) (b : Budget) → Stopped (run_call role inner b)
unfolding run_call check admit after_inner record_usage
run_call-Stopped role inner b = elim (Bool-cases (exhausted b)) [
  | inl over ↦ rw over over
  | inr room ↦ rw room (admitted inner)
]
  where
    admitted : (inner : Option AgentResult) → Stopped (admit none role inner b)
    admitted none = tt
    admitted (some r) = enforce-Stopped _ _ r _ refl

cost_of-add_costs :
    (role : String) (totals : Dict ℕ) (rs : List UsageRecord)
    → or_zero (get (add_costs totals rs) role)
      ≡ or_zero (get totals role) + sum_cost (filter (λ r. r.role == role) rs)
unfolding add_costs sum_cost filter or_zero
cost_of-add_costs role totals [] = omega arith
cost_of-add_costs role totals (r ∷ rs) = ground (
  arith,
  cost_of-add_costs role (set totals r.role (or_zero (get totals r.role) + r.cost_usd)) rs,
  get-set totals r.role role (or_zero (get totals r.role) + r.cost_usd),
  eq_iff r.role role,
)

-- What `cost_by_role` has at a role is the cost of that role's records, and of no other.
pub cost_by_role_lem :
    (m : UsageMeter) (role : String)
    → or_zero (get (cost_by_role m) role) ≡ sum_cost (filter (λ r. r.role == role) m.records)
unfolding cost_by_role or_zero get
cost_by_role_lem m role = omega (arith, cost_of-add_costs role [] m.records)
