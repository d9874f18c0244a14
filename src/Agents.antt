-- ===== src/Agents.antt =====
-- src/dev_team/agents: an agent's call of the model, metered against the budget, with the corrective
-- retries of `ask_json`, and the six agents of the workflow. The model is a parameter: what it replies
-- to a prompt may depend on how many calls were made before. A prompt is what it is rendered from.
pub mod Retries
pub mod Posts
pub mod Tests
use dev_team.Prelude.{
  ℕ, zero, suc, String, Bool, true, false, Option, none, some, List, [], ◌∷◌, ◌++◌,
}
use dev_team.Models.{
  TaskStatus, Task, Plan, FeatureRequest, Design, Implementation, Review, TestReport,
  DeploymentPlan,
}
use dev_team.Budget.{
  AgentResult, Budget, BudgetExceededError, CallOutcome, answered, refused, overspent, call_raised,
  run_call,
}
use dev_team.Replies.{Json, null, bool, num, text, arr, obj, Fields, Python}
use dev_team.Replies.Parse.{
  plan_from_dict, design_from_dict, implementation_from_dict, review_from_dict,
  test_report_from_dict, deployment_from_dict,
}
use dev_team.Replies.Extract.{Extracted, extracted, no_json, out_of_fuel, extract_json}

-- The SDK's AgentResult: what it cost, its text, and whether it is an error.
pub record Reply : Type 0 where
  pub used : AgentResult
  pub text : String
  pub is_error : Bool

-- Why a response could not be used.
pub data Reason : Type 0 where
  reported_error no_valid_json not_an_object : Reason

pub data Prompt : Type 0 where
  plan_prompt : FeatureRequest → Option String → Prompt
  design_prompt : FeatureRequest → Plan → Prompt
  implement_prompt : Task → Design → Option Review → Prompt
  review_prompt : Task → Implementation → Prompt
  test_prompt : Task → Implementation → Prompt
  deployment_prompt : FeatureRequest → Design → Prompt
  -- The corrective instruction, with the reason and the text of the response before.
  corrected : Prompt → Reason → String → Prompt

-- What runs that are under way share: the budget, the number of calls made of the model, and the
-- assignments made to the status of tasks, by task id, in their order.
pub record RunState : Type 0 where
  pub budget : Budget
  pub calls : ℕ
  pub statuses : List (String × TaskStatus)

pub data Raised : Type 0 where
  over_budget : BudgetExceededError → Raised
  response_error : String → String → Raised
  runner_raised : Raised
  dependency_cycle : List String → Raised
  run_aborted : Raised
  -- A question that nobody answers: the call does not return.
  unanswered : Raised

pub data Outcome {ℓ} (A : Type ℓ) : Type ℓ where
  ok : A → Outcome A
  raised : Raised → Outcome A

abbrev pub M : Type 0 → Type 0
M A = RunState → Outcome A × RunState

abbrev pub continue : {A B : Type 0} → (A → M B) → Outcome A × RunState → Outcome B × RunState
continue f (ok a, w) = f a w
continue f (raised e, w) = (raised e, w)

infixl 5 ◌>>=◌ ◌>>◌
abbrev pub ◌>>=◌ : {A B : Type 0} → M A → (A → M B) → M B
◌>>=◌ m f w = continue f (m w)

abbrev pub ◌>>◌ : {B : Type 0} → M (Unit {0}) → M B → M B
m >> k = m >>= λ _. k

abbrev pub return : {A : Type 0} → A → M A
return a w = (ok a, w)

abbrev pub raise : {A : Type 0} → Raised → M A
raise e w = (raised e, w)

-- `task.status = status`
unfoldable pub set_status : String → TaskStatus → M (Unit {0})
set_status tid status w = (ok tt, record w { statuses = w.statuses ++ (tid, status) ∷ [] })

unfoldable pub usage_of : Option Reply → Option AgentResult
usage_of none = none
usage_of (some reply) = some reply.used

-- What `ask` returns or raises after the metered call; a call that was refused reached no model.
unfoldable pub after_call : Option Reply → Budget × CallOutcome → M Reply
after_call reply (b, refused e) w = (raised (over_budget e), record w { budget = b })
after_call reply (b, overspent e) w =
    (raised (over_budget e), record w { budget = b; calls = suc w.calls })
after_call reply (b, call_raised) w =
    (raised runner_raised, record w { budget = b; calls = suc w.calls })
after_call none (b, answered r) w =
    (raised runner_raised, record w { budget = b; calls = suc w.calls })
after_call (some reply) (b, answered r) w = (ok reply, record w { budget = b; calls = suc w.calls })

-- Whether a response can be used: its object, or the reason why not.
pub data Usable : Type 0 where
  usable : Fields → Usable
  unusable : Reason → Usable

unfoldable pub object_in : Extracted → Usable
object_in (extracted (obj d)) = usable d
object_in (extracted _) = unusable not_an_object
object_in no_json = unusable no_valid_json
object_in out_of_fuel = unusable no_valid_json

unfoldable pub checked_by : Bool → Extracted → Usable
unfolding object_in
checked_by true x = unusable reported_error
checked_by false x = object_in x

unfoldable pub usable_reply : Python → Reply → Usable
unfolding checked_by
usable_reply py reply = checked_by reply.is_error (extract_json py reply.text)

unfoldable pub or_again : (Prompt → String → M Fields) → Prompt → Reply → Usable → M Fields
or_again rest prompt reply (usable d) = return d
or_again rest prompt reply (unusable why) = rest (corrected prompt why reply.text) reply.text

module _ (py : Python) (runner : ℕ → Prompt → Option Reply) where
  unfoldable pub ask : String → Prompt → M Reply
  unfolding usage_of after_call
  ask role prompt w =
      let reply = runner w.calls prompt in
      after_call reply (run_call role (usage_of reply) w.budget) w

  -- The loop of `ask_json`, with the attempts that are left.
  unfoldable pub ask_loop : ℕ → String → Prompt → Prompt → String → M Fields
  unfolding ask usable_reply or_again
  ask_loop zero role prompt attempt_prompt last_text = raise (response_error role last_text)
  ask_loop (suc left) role prompt attempt_prompt last_text = do
    reply ← ask role attempt_prompt
    or_again (ask_loop left role prompt) prompt reply (usable_reply py reply)

  module _ (json_retries : ℕ) where
    unfoldable pub ask_json : String → Prompt → M Fields
    unfolding ask_loop
    ask_json role prompt = ask_loop (suc json_retries) role prompt prompt ""

    unfoldable pub create_plan : FeatureRequest → Option String → M Plan
    create_plan request revision_feedback = do
      d ← ask_json "product-manager" (plan_prompt request revision_feedback)
      return (plan_from_dict py (obj d))

    unfoldable pub make_design : FeatureRequest → Plan → M Design
    make_design request plan = do
      d ← ask_json "architect" (design_prompt request plan)
      return (design_from_dict py (obj d))

    unfoldable pub implement : Task → Design → Option Review → M Implementation
    implement task design feedback = do
      d ← ask_json "engineer" (implement_prompt task design feedback)
      return (implementation_from_dict py (obj d) task.id)

    unfoldable pub review : Task → Implementation → M Review
    review task implementation = do
      d ← ask_json "reviewer" (review_prompt task implementation)
      return (review_from_dict py (obj d))

    unfoldable pub test : Task → Implementation → M TestReport
    test task implementation = do
      d ← ask_json "qa" (test_prompt task implementation)
      return (test_report_from_dict py (obj d))

    unfoldable pub plan_deployment : FeatureRequest → Design → M DeploymentPlan
    plan_deployment request design = do
      d ← ask_json "devops" (deployment_prompt request design)
      return (deployment_from_dict py (obj d))
