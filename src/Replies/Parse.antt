-- ===== src/Replies/Parse.antt =====
-- src/dev_team/parsing.py: the models built from the JSON objects of the agents' replies.
use dev_team.Prelude.{
  ℕ, suc, String, false, not, ◌&&◌, Option, none, some, List, [], ◌∷◌, map, if◌then◌else◌, is_empty,
  ◌==◌,
}
use dev_team.Models.{
  Task, pending, Plan, modify, unit, DesignComponent, Design, FileChange, Implementation,
  ReviewComment, Review, blocking_comments, Rebuttal, ReviewJudgment, TestCase, TestReport,
  DeploymentPlan, SecurityFinding, SecurityReport, blocking_findings, DocSection, Documentation,
  ReliabilityReport,
}
use dev_team.Replan.{ReplanAction, Replan, split, replace, drop}
use dev_team.Replies.{
  Json, Fields, Python, get_value, as_dict, as_str, as_str_list, as_bool, as_float, as_enum,
  as_severity, as_obj_list, status_named, change_named, kind_named, action_named,
}
use dev_team.Replies.Slug.{slugify_task_id}

-- `text or other`
abbrev or_else : String → String → String
or_else s other = if s == "" then other else s

unfoldable pub inferred_action : List Task → ReplanAction
inferred_action [] = drop
inferred_action (t ∷ []) = replace
inferred_action (t ∷ u ∷ ts) = split

abbrev or_none : String → Option String
or_none s = if s == "" then none else some s

-- The last statement of `review_from_dict`.
unfoldable pub block_review : Review → Review
block_review review =
    if review.approved && not (is_empty (blocking_comments review))
    then record review { approved = false }
    else review

-- The last statement of `security_report_from_dict`.
unfoldable pub block_report : SecurityReport → SecurityReport
block_report report =
    if report.approved && not (is_empty (blocking_findings report))
    then record report { approved = false }
    else report

module _ (py : Python) where
  unfoldable pub task_from_dict : Fields → ℕ → Task
  task_from_dict d index =
      let task_id = slugify_task_id (as_str py d "id") index in
      record {
        id = task_id;
        title = or_else (as_str py d "title") task_id;
        description = as_str py d "description";
        acceptance_criteria = as_str_list py d "acceptance_criteria";
        dependencies = as_str_list py d "dependencies";
        status = as_enum status_named (get_value d "status") pending;
      }

  -- `[task_from_dict(item, index) for index, item in enumerate(...)]`, from an index on.
  unfoldable pub tasks_from : ℕ → List Fields → List Task
  tasks_from index [] = []
  tasks_from index (d ∷ ds) = task_from_dict d index ∷ tasks_from (suc index) ds

  unfoldable pub plan_from_dict : Json → Plan
  plan_from_dict value =
      let d = as_dict value in
      record { summary = as_str py d "summary"; tasks = tasks_from 0 (as_obj_list d "tasks") }

  unfoldable pub replan_from_dict : Json → String → Replan
  replan_from_dict value failed_task_id =
      let d = as_dict value in
      let replacements = tasks_from 0 (as_obj_list d "replacements") in
      record {
        action = as_enum action_named (get_value d "action") (inferred_action replacements);
        failed_task_id = failed_task_id;
        replacements = replacements;
        rationale = as_str py d "rationale";
      }

  unfoldable pub component_from : Fields → DesignComponent
  component_from d = record {
    name = as_str py d "name";
    responsibility = as_str py d "responsibility";
  }

  unfoldable pub design_from_dict : Json → Design
  design_from_dict value =
      let d = as_dict value in
      record {
        overview = as_str py d "overview";
        components = map component_from (as_obj_list d "components");
        tech_stack = as_str_list py d "tech_stack";
        risks = as_str_list py d "risks";
        alternatives = as_str_list py d "alternatives";
        rationale = as_str py d "rationale";
      }

  unfoldable pub file_from : Fields → FileChange
  file_from d = record {
    path = as_str py d "path";
    change_type = as_enum change_named (get_value d "change_type") modify;
    summary = as_str py d "summary";
    content = as_str py d "content";
  }

  unfoldable pub implementation_from_dict : Json → String → Implementation
  implementation_from_dict value task_id =
      let d = as_dict value in
      record {
        task_id = task_id;
        summary = as_str py d "summary";
        files = map file_from (as_obj_list d "files");
        notes = as_str py d "notes";
      }

  unfoldable pub comment_from : Fields → ReviewComment
  comment_from d = record {
    severity = as_severity (get_value d "severity");
    message = as_str py d "message";
    path = or_none (as_str py d "path");
  }

  unfoldable pub review_from_dict : Json → Review
  unfolding block_review
  review_from_dict value =
      let d = as_dict value in
      block_review (record {
        approved = as_bool d "approved";
        summary = as_str py d "summary";
        comments = map comment_from (as_obj_list d "comments");
      })

  unfoldable pub rebuttal_from_dict : Json → Rebuttal
  rebuttal_from_dict value =
      let d = as_dict value in
      record {
        text = or_else (as_str py d "rebuttal") (as_str py d "text");
        concedes = as_bool d "concedes";
      }

  unfoldable pub review_judgment_from_dict : Json → ReviewJudgment
  review_judgment_from_dict value =
      let d = as_dict value in
      record { overturn = as_bool d "overturn"; rationale = as_str py d "rationale" }

  unfoldable pub case_from : Fields → TestCase
  case_from d = record {
    name = as_str py d "name";
    kind = as_enum kind_named (get_value d "kind") unit;
    target = as_str py d "target";
  }

  unfoldable pub test_report_from_dict : Json → TestReport
  test_report_from_dict value =
      let d = as_dict value in
      record {
        passed = as_bool d "passed";
        coverage = as_float py d "coverage";
        summary = as_str py d "summary";
        cases = map case_from (as_obj_list d "cases");
      }

  unfoldable pub deployment_from_dict : Json → DeploymentPlan
  deployment_from_dict value =
      let d = as_dict value in
      record {
        environment = or_else (as_str py d "environment") "production";
        summary = as_str py d "summary";
        steps = as_str_list py d "steps";
        rollback = as_str_list py d "rollback";
        health_check_command = as_str_list py d "health_check_command";
      }

  unfoldable pub finding_from : Fields → SecurityFinding
  finding_from d = record {
    severity = as_severity (get_value d "severity");
    category = or_else (as_str py d "category") "general";
    description = as_str py d "description";
    remediation = as_str py d "remediation";
  }

  unfoldable pub security_report_from_dict : Json → SecurityReport
  unfolding block_report
  security_report_from_dict value =
      let d = as_dict value in
      block_report (record {
        approved = as_bool d "approved";
        summary = as_str py d "summary";
        findings = map finding_from (as_obj_list d "findings");
        scanner_failed = false;
        scanner_error = none;
      })

  unfoldable pub section_from : Fields → DocSection
  section_from d = record { title = as_str py d "title"; content = as_str py d "content" }

  unfoldable pub documentation_from_dict : Json → Documentation
  documentation_from_dict value =
      let d = as_dict value in
      record {
        summary = as_str py d "summary";
        sections = map section_from (as_obj_list d "sections");
        unverified_claims = [];
      }

  unfoldable pub reliability_from_dict : Json → ReliabilityReport
  reliability_from_dict value =
      let d = as_dict value in
      record {
        production_ready = as_bool d "production_ready";
        summary = as_str py d "summary";
        slos = as_str_list py d "slos";
        risks = as_str_list py d "risks";
        runbook = as_str_list py d "runbook";
      }
