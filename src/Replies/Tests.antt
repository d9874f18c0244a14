-- ===== src/Replies/Tests.antt =====
-- Replies at concrete values.
use dev_team.Prelude.{
  ◌≡◌, refl, true, false, ◌&&◌, none, some, List, ◌==◌, if◌then◌else◌, All, all, filter, elem,
}
use dev_team.Prelude.Int.{pos}
use dev_team.Prelude.Chars.{lower_char}
use dev_team.Prelude.Decimal.{str}
use dev_team.Models.{Task, is_blocking, blocking_comments}
use dev_team.Workspace.{normalise, normalised}
use dev_team.Replies.{
  Json, bool, num, text, arr, obj, nil, cons, Fields, end, field, Python, get_value, as_dict,
  as_bool, as_obj_list, as_severity,
}
use dev_team.Replies.Slug.{slugify_task_id, is_slug_char}
use dev_team.Replies.Parse.{
  plan_from_dict, review_from_dict, security_report_from_dict, comment_from,
}
use dev_team.Replies.SafeIds.{plan_from_dict-IsSafe}
use dev_team.Replies.Verdicts.{is_mild, approved_iff_mild}
use dev_team.Replies.Extract.{extracted, no_json, extract_json, chosen}
use dev_team.Replies.Scan.{Holds, last, head, objects, arrays, extract_json_lem}

-- The fields of a plan with one task, whose id is not safe.
abbrev pub plan_fields : Fields
plan_fields = field "summary" (text "Login") (
    field "tasks"
      (arr (cons (obj (field "id" (text "../T 1/") (field "title" (text "Form") end))) nil)) end)

abbrev pub approving : Fields
approving = field "approved" (bool true) end

abbrev pub passing : Fields
passing = field "passed" (bool true) (field "coverage" (num (pos 100)) end)

-- A parser that knows a few texts.
abbrev pub python : Python
python = record {
  loads = λ s.
      if s == "{plan}"
      then some (obj plan_fields)
      else if s == "{ok}"
      then some (obj approving)
      else if s == "{pass}"
      then some (obj passing)
      else if s == "[1]"
      then some (arr nil)
      else if s == "{}"
      then some (obj end)
      else none;
  show = λ v. "";
  parse_float = λ s. none;
  rounded = λ n. "";
  one = pos 1;
}

slug_runs : slugify_task_id "../T 1/" 0 ≡ "T-1"
unfolding slugify_task_id is_slug_char
slug_runs = refl

slug_falls_back : slugify_task_id "//" 4 ≡ "T5"
unfolding slugify_task_id is_slug_char str
slug_falls_back = refl

plan_from_dict-IsSafe_example :
    All
      (λ (t : Task). (normalise t.id ≡ normalised t.id) × (slugify_task_id t.id 7 ≡ t.id))
      (plan_from_dict python (obj plan_fields)).tasks
plan_from_dict-IsSafe_example = plan_from_dict-IsSafe python 7 (obj plan_fields)

-- A review that approves with a remark of a severity that is not known.
abbrev doubtful : Json
doubtful = obj (
    field "approved" (text " Yes")
      (field "comments" (arr (cons (obj (field "severity" (text "Severe") end)) nil)) end))

doubtful_blocked : (review_from_dict python doubtful).approved ≡ false
unfolding review_from_dict comment_from as_severity as_bool elem lower_char filter as_dict
    as_obj_list blocking_comments is_blocking
doubtful_blocked = refl

approved_iff_mild_example :
    ((review_from_dict python doubtful).approved ≡ (
      as_bool (as_dict doubtful) "approved"
      && all (λ d. is_mild (get_value d "severity")) (as_obj_list (as_dict doubtful) "comments")))
    × ((security_report_from_dict python doubtful).approved ≡ (
        as_bool (as_dict doubtful) "approved"
        && all (λ d. is_mild (get_value d "severity")) (as_obj_list (as_dict doubtful) "findings")))
approved_iff_mild_example = approved_iff_mild python doubtful

last_object_wins : extract_json python "[1] {} then {ok} {broken" ≡ extracted (obj approving)
unfolding extract_json
last_object_wins = refl

nothing_there : extract_json python "no { json" ≡ no_json
unfolding extract_json
nothing_there = refl

extract_json_lem_example :
    (vs : List Json) × Holds python "[1] {}" vs
    × (extract_json python "[1] {}" ≡ chosen (last (objects vs)) (head (arrays vs)))
extract_json_lem_example = extract_json_lem python "[1] {}"
