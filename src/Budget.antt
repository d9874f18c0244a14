-- ===== src/Budget.antt =====
-- src/dev_team/budget.py: metered usage and an optional spending ceiling with a reserve. Costs are
-- natural numbers of a fixed small unit in place of floats of dollars; the numbers that the SDK or a
-- caller supplies may be negative, and are integers. An error carries what was spent and the limit.
pub mod Ceiling
pub mod Calls
pub mod Tests
use dev_team.Prelude.{
  ℕ, zero, suc, ◌+◌, ◌-◌, min, String, Bool, true, false, Option, none, some, List, [], ◌∷◌, ◌++◌,
  ltb, leb, if◌then◌else◌, length,
}
use dev_team.Prelude.Int.{ℤ, pos, negsuc, pos_part}
use dev_team.Prelude.Dict.{Dict, get, set}

-- The usage fields of the SDK's AgentResult.
pub record AgentResult : Type 0 where
  pub cost_usd : ℤ
  pub num_turns : ℤ

pub record UsageRecord : Type 0 where
  pub role : String
  pub cost_usd : ℕ
  pub turns : ℕ

pub record UsageMeter : Type 0 where
  pub records : List UsageRecord

-- `UsageMeter.record`
unfoldable pub usage : String → AgentResult → UsageRecord
usage role result = record {
  role = role;
  cost_usd = pos_part result.cost_usd;
  turns = pos_part result.num_turns;
}

unfoldable pub meter_record : String → AgentResult → UsageMeter → UsageMeter
meter_record role result m = record { records = m.records ++ usage role result ∷ [] }

unfoldable pub sum_cost : List UsageRecord → ℕ
sum_cost [] = 0
sum_cost (r ∷ rs) = r.cost_usd + sum_cost rs

pub sum_turns : List UsageRecord → ℕ
sum_turns [] = 0
sum_turns (r ∷ rs) = r.turns + sum_turns rs

unfoldable pub total_cost : UsageMeter → ℕ
total_cost m = sum_cost m.records

pub total_turns : UsageMeter → ℕ
total_turns m = sum_turns m.records

pub call_count : UsageMeter → ℕ
call_count m = length m.records

-- `totals.get(role, 0.0)`
unfoldable pub or_zero : Option ℕ → ℕ
or_zero none = 0
or_zero (some n) = n

-- The loop of `cost_by_role`.
pub add_costs : Dict ℕ → List UsageRecord → Dict ℕ
add_costs totals [] = totals
add_costs totals (r ∷ rs) =
    add_costs (set totals r.role (or_zero (get totals r.role) + r.cost_usd)) rs

pub cost_by_role : UsageMeter → Dict ℕ
cost_by_role m = add_costs [] m.records

pub record Budget : Type 0 where
  pub limit_usd : Option ℕ
  pub meter : UsageMeter
  pub reserved_usd : ℕ

is_negative : ℤ → Bool
is_negative (pos n) = false
is_negative (negsuc n) = true

negative_limit : Option ℤ → Bool
negative_limit none = false
negative_limit (some n) = is_negative n

-- `Budget(...)` with `__post_init__`; `none` is its ValueError.
pub make : Option ℤ → UsageMeter → ℤ → Option Budget
make limit meter reserved =
    if negative_limit limit
    then none
    else if is_negative reserved
    then none
    else some (record {
      limit_usd = elim limit [ none ↦ none | some n ↦ some (pos_part n) ];
      meter = meter;
      reserved_usd = pos_part reserved;
    })

-- A limit less what is reserved, at least 0: subtraction stops there.
unfoldable pub reduced : Option ℕ → ℕ → Option ℕ
reduced none reserved = none
reduced (some limit) reserved = some (limit - reserved)

unfoldable pub effective_limit : Budget → Option ℕ
effective_limit b = reduced b.limit_usd b.reserved_usd

unfoldable pub spent : Budget → ℕ
spent b = total_cost b.meter

left_of : Option ℕ → ℕ → Option ℕ
left_of none used = none
left_of (some limit) used = some (limit - used)

-- `none` is infinity.
pub remaining : Budget → Option ℕ
remaining b = left_of (effective_limit b) (spent b)

unfoldable pub reached : Option ℕ → ℕ → Bool
reached none used = false
reached (some limit) used = leb limit used

unfoldable pub exhausted : Budget → Bool
exhausted b = reached (effective_limit b) (spent b)

clamped : Option ℕ → ℕ → ℕ
clamped none amount = amount
clamped (some limit) amount = min amount limit

pub set_reserve : ℤ → Budget → Budget
set_reserve amount b = record b { reserved_usd = clamped b.limit_usd (pos_part amount) }

pub record BudgetExceededError : Type 0 where
  pub spent : ℕ
  pub limit : ℕ

-- `check`: the error that it raises, if any.
unfoldable pub check : Budget → Option BudgetExceededError
check b =
    if exhausted b
    then some (record { spent = spent b; limit = or_zero (effective_limit b) })
    else none

pub data Recorded : Type 0 where
  entry : UsageRecord → Recorded
  exceeded : BudgetExceededError → Recorded

unfoldable pub enforce : Option ℕ → ℕ → UsageRecord → Recorded
enforce none used e = entry e
enforce (some limit) used e =
    if ltb limit used then exceeded (record { spent = used; limit = limit }) else entry e

-- `record`: the usage is in the meter also where it raises.
unfoldable pub record_usage : String → AgentResult → Budget → Budget × Recorded
record_usage role result b =
    let b' : Budget = record b { meter = meter_record role result b.meter } in
    (b', enforce (effective_limit b') (spent b') (usage role result))

-- src/dev_team/instrument.py: one metered call, with a budget. `inner` is what the wrapped runner
-- gives: a result, or `none` for an exception. Traces and transcripts do not touch the budget.
pub data CallOutcome : Type 0 where
  answered : AgentResult → CallOutcome
  refused overspent : BudgetExceededError → CallOutcome
  call_raised : CallOutcome

unfoldable pub settle : AgentResult → Budget × Recorded → Budget × CallOutcome
settle result (b, entry e) = (b, answered result)
settle result (b, exceeded e) = (b, overspent e)

unfoldable pub after_inner : String → Option AgentResult → Budget → Budget × CallOutcome
after_inner role none b = (b, call_raised)
after_inner role (some result) b = settle result (record_usage role result b)

unfoldable pub admit :
    Option BudgetExceededError → String → Option AgentResult → Budget → Budget × CallOutcome
admit (some e) role inner b = (b, refused e)
admit none role inner b = after_inner role inner b

unfoldable pub run_call : String → Option AgentResult → Budget → Budget × CallOutcome
run_call role inner b = admit (check b) role inner b
