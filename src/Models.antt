-- ===== src/Models.antt =====
-- src/dev_team/models.py: the data that the agents, the planner and the schedulers share.
use mathlib.Core.Path.{subst}
use mathlib.Core.Bool.{false≢true}
use dev_team.Prelude.{
  ℕ, String, ◌≡◌, Bool, true, false, not, ◌&&◌, Option, List, [], ◌∷◌, map, ◌==◌, eq_iff, eq_refl,
  arith, All, All-map, elem, Bool-cases, inl, inr, filter, all, is_empty,
}
use dev_team.Prelude.Int.{ℤ}

pub data TaskStatus : Type 0 where
  pending in_progress in_review changes_requested testing done failed : TaskStatus

pub data Severity : Type 0 where
  info minor major critical : Severity

pub data ChangeType : Type 0 where
  create modify delete : ChangeType

pub data TestKind : Type 0 where
  unit integration e2e : TestKind

pub record FeatureRequest : Type 0 where
  pub title : String
  pub description : String
  pub constraints : List String

pub record Task : Type 0 where
  pub id : String
  pub title : String
  pub description : String
  pub acceptance_criteria : List String
  pub dependencies : List String
  pub status : TaskStatus

pub record Plan : Type 0 where
  pub summary : String
  pub tasks : List Task

pub record DesignComponent : Type 0 where
  pub name : String
  pub responsibility : String

pub record Design : Type 0 where
  pub overview : String
  pub components : List DesignComponent
  pub tech_stack : List String
  pub risks : List String
  pub alternatives : List String
  pub rationale : String

pub record FileChange : Type 0 where
  pub path : String
  pub change_type : ChangeType
  pub summary : String
  pub content : String

pub record Implementation : Type 0 where
  pub task_id : String
  pub summary : String
  pub files : List FileChange
  pub notes : String

pub record ReviewComment : Type 0 where
  pub severity : Severity
  pub message : String
  pub path : Option String

pub record Review : Type 0 where
  pub approved : Bool
  pub summary : String
  pub comments : List ReviewComment

-- `severity in (Severity.MAJOR, Severity.CRITICAL)`
unfoldable pub is_blocking : Severity → Bool
is_blocking major = true
is_blocking critical = true
is_blocking _ = false

unfoldable pub blocking_comments : Review → List ReviewComment
blocking_comments review = filter (λ c. is_blocking c.severity) review.comments

pub record Rebuttal : Type 0 where
  pub text : String
  pub concedes : Bool

pub record ReviewJudgment : Type 0 where
  pub overturn : Bool
  pub rationale : String

pub record TestCase : Type 0 where
  pub name : String
  pub kind : TestKind
  pub target : String

-- `coverage` is in a fixed small unit in place of a float.
pub record TestReport : Type 0 where
  pub passed : Bool
  pub coverage : ℤ
  pub summary : String
  pub cases : List TestCase

pub record DeploymentPlan : Type 0 where
  pub environment : String
  pub summary : String
  pub steps : List String
  pub rollback : List String
  pub health_check_command : List String

pub record SecurityFinding : Type 0 where
  pub severity : Severity
  pub category : String
  pub description : String
  pub remediation : String

pub record SecurityReport : Type 0 where
  pub approved : Bool
  pub summary : String
  pub findings : List SecurityFinding
  pub scanner_failed : Bool
  pub scanner_error : Option String

unfoldable pub blocking_findings : SecurityReport → List SecurityFinding
blocking_findings report = filter (λ f. is_blocking f.severity) report.findings

pub record DocSection : Type 0 where
  pub title : String
  pub content : String

pub record Documentation : Type 0 where
  pub summary : String
  pub sections : List DocSection
  pub unverified_claims : List String

pub record ReliabilityReport : Type 0 where
  pub production_ready : Bool
  pub summary : String
  pub slos : List String
  pub risks : List String
  pub runbook : List String

pub record TaskResult : Type 0 where
  pub task : Task
  pub attempts : ℕ
  pub implementation : Option Implementation
  pub review : Option Review
  pub test_report : Option TestReport

is_done_status : TaskStatus → Bool
is_done_status done = true
is_done_status _ = false

unfoldable pub succeeded : TaskResult → Bool
unfolding is_done_status
succeeded r = is_done_status r.task.status

-- `cost_usd` is in a fixed small unit in place of a float.
pub record ProjectResult : Type 0 where
  pub request : FeatureRequest
  pub plan : Plan
  pub design : Design
  pub task_results : List TaskResult
  pub deployment : Option DeploymentPlan
  pub cost_usd : ℕ

unfoldable pub success : ProjectResult → Bool
success r = not (is_empty r.task_results) && all succeeded r.task_results

unfoldable pub completed_tasks : ProjectResult → List TaskResult
completed_tasks r = filter succeeded r.task_results

unfoldable pub failed_tasks : ProjectResult → List TaskResult
failed_tasks r = filter (λ tr. not (succeeded tr)) r.task_results

-- `[t.id for t in tasks]`
abbrev pub ids : List Task → List String
ids tasks = map (λ t. t.id) tasks

-- What holds of the id of each task holds of each of the ids.
pub All-ids {ℓ} :
    (P : String → Type ℓ) (tasks : List Task) (tid : String)
    → All (λ t. P t.id) tasks
    → elem tid (ids tasks) ≡ true
    → P tid
unfolding elem
All-ids P [] tid h m = absurd (false≢true m)
All-ids P (t ∷ ts) tid h m = elim (Bool-cases (t.id == tid)) [
  | inl same ↦ subst P ((eq_iff t.id tid).0 same) h.0
  | inr other ↦ All-ids P ts tid h.1 (ground arith)
]

pub ids-All : (tasks : List Task) → All (λ t. elem t.id (ids tasks) ≡ true) tasks
unfolding elem
ids-All [] = tt
ids-All (t ∷ ts) = (
  ground (arith, eq_refl t.id),
  All-map (λ u. elem u.id (ids ts) ≡ true) (λ u. elem u.id (ids (t ∷ ts)) ≡ true) ts
      (λ u m. ground arith) (ids-All ts),
)
