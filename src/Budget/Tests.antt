-- ===== src/Budget/Tests.antt =====
-- Small budgets, and the theorems about them.
use dev_team.Prelude.{ℕ, ◌+◌, ◌*◌, ◌≤◌, ◌≡◌, refl, none, some, [], ◌∷◌, arith}
use dev_team.Prelude.Int.{pos, negsuc, pos_part}
use dev_team.Budget.{
  AgentResult, UsageMeter, usage, meter_record, sum_cost, or_zero, total_cost, Budget, make,
  negative_limit, is_negative, effective_limit, reduced, spent, exhausted, reached, check, clamped,
  set_reserve, record_usage, enforce, refused, overspent, admit, after_inner, settle, run_call,
  remaining, left_of,
}
use dev_team.Budget.Ceiling.{Calls, Reach, start, next, begins, ends, Reach-spent-le}
use dev_team.Budget.Calls.{Accounted, run_call-Accounted}

abbrev fresh : Budget
fresh = record { limit_usd = some 10; meter = record { records = [] }; reserved_usd = 0 }

abbrev costing : ℕ → AgentResult
costing n = record { cost_usd = pos n; num_turns = pos 1 }

make_negative : make (some (negsuc 0)) fresh.meter (pos 0) ≡ none
unfolding make negative_limit is_negative
make_negative = refl

-- A call that crosses the ceiling is paid for, and the next one is refused.
abbrev crossed : Budget
crossed = (run_call "qa" (some (costing 12)) fresh).0

crossed_outcomes :
    ((run_call "qa" (some (costing 12)) fresh).1 ≡ overspent (record { spent = 12; limit = 10 }))
    × ((run_call "qa" (some (costing 1)) crossed).1 ≡ refused (record { spent = 12; limit = 10 }))
unfolding run_call admit after_inner settle record_usage enforce check exhausted reached spent
    effective_limit reduced total_cost meter_record usage sum_cost or_zero pos_part
crossed_outcomes = (refl, refl)

-- A negative cost counts as none, and a reserve is at most the limit.
clamps :
    (spent (record_usage "qa" (record { cost_usd = negsuc 4; num_turns = negsuc 0 }) fresh).0 ≡ 0)
    × (effective_limit (set_reserve (pos 30) fresh) ≡ some 0)
    × (remaining (set_reserve (pos 4) fresh) ≡ some 6)
unfolding record_usage spent total_cost meter_record usage sum_cost pos_part set_reserve clamped
    effective_limit reduced remaining left_of
clamps = (refl, refl, refl)

run_call-Accounted_example :
    Accounted fresh (some (costing 12)) (run_call "qa" (some (costing 12)) fresh)
run_call-Accounted_example = run_call-Accounted "qa" (some (costing 12)) fresh

abbrev used : UsageMeter
used =
    meter_record "qa" (costing 3)
      (meter_record "sre" (costing 4) (meter_record "qa" (costing 5) fresh.meter))

abbrev idle : Calls
idle = record { budget = fresh; in_flight = [] }

abbrev flying : Calls
flying = record { budget = fresh; in_flight = ("qa", costing 9) ∷ ("sre", costing 8) ∷ [] }

fresh-check : check fresh ≡ none
unfolding check exhausted reached spent effective_limit reduced total_cost sum_cost
fresh-check = refl

two_calls : Reach 2 9 10 flying
unfolding spent total_cost sum_cost pos_part
two_calls =
    next
      (next (start fresh refl (omega arith))
        (begins idle ("sre", costing 8) fresh-check (omega arith) (omega arith)))
      (begins _ ("qa", costing 9) fresh-check (omega arith) (omega arith))

Reach-spent-le_example : spent (record_usage "sre" (costing 8) fresh).0 ≤ 10 + 2 * 9
Reach-spent-le_example =
    Reach-spent-le 2 9 10
      (next two_calls (ends flying (("qa", costing 9) ∷ []) [] ("sre", costing 8) refl))
