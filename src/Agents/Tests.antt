-- ===== src/Agents/Tests.antt =====
-- An agent's question at concrete replies.
use dev_team.Prelude.{ℕ, zero, suc, ◌≡◌, refl, String, false, Option, none, some, []}
use dev_team.Prelude.Int.{pos}
use dev_team.Models.{FeatureRequest}
use dev_team.Budget.{
  run_call, admit, after_inner, settle, record_usage, enforce, check, exhausted, reached, spent,
  effective_limit, reduced, total_cost, meter_record, usage, sum_cost, or_zero,
}
use dev_team.Replies.Extract.{extract_json}
use dev_team.Replies.Tests.{python, approving}
use dev_team.Agents.{Reply, Prompt, plan_prompt, RunState, ok, ask_json}
use dev_team.Agents.Retries.{Ended, ask_json-Ended}

abbrev pub says : String → Option Reply
says s =
    some
      (record { used = record { cost_usd = pos 3; num_turns = pos 1 }; text = s; is_error = false })

abbrev pub request : FeatureRequest
request = record { title = "Login"; description = "A form"; constraints = [] }

-- A world with some budget, before any call.
abbrev pub world_with : Option ℕ → RunState
world_with limit = record {
  budget = record { limit_usd = limit; meter = record { records = [] }; reserved_usd = 0 };
  calls = 0;
  statuses = [];
}

-- Prose first, and an object when asked again.
abbrev prose_first : ℕ → Prompt → Option Reply
prose_first zero prompt = says "Sure!"
prose_first (suc n) prompt = says "Here: {ok}"

second_try :
    (ask_json python prose_first 1 "qa" (plan_prompt request none) (world_with none)).0
    ≡ ok approving
unfolding ask_json extract_json run_call admit after_inner settle record_usage enforce check
    exhausted reached spent effective_limit reduced total_cost meter_record usage sum_cost or_zero
second_try = refl

ask_json-Ended_example :
    Ended python prose_first 2 "qa"
      (world_with none)
      (ask_json python prose_first 1 "qa" (plan_prompt request none) (world_with none))
ask_json-Ended_example =
    ask_json-Ended python prose_first 1 "qa" (plan_prompt request none) (world_with none)
