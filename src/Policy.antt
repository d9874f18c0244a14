-- ===== src/Policy.antt =====
-- src/dev_team/policy.py: which shell commands may run, and the runner that asks before it runs them;
-- and the approval gates of src/dev_team/approval.py. The lexer of Python's `shlex` (`none` is its
-- ValueError) and `repr` of a text are parameters.
mod Commands
pub mod Lines
pub mod Flags
pub mod Guard
pub mod Tests
unfoldable pub use Commands.*
use Prim.Native.String.{◌++◌ as ◌<>◌}
use text.Mathlib.Text.{starts_with}
use dev_team.Prelude.{
  String, Bool, true, false, not, ◌&&◌, ◌||◌, Option, none, some, List, [], ◌∷◌, ◌++◌, ◌==◌,
  if◌then◌else◌, filter, all, elem, is_empty,
}
use dev_team.Prelude.Int.{ℤ, pos}
use dev_team.Prelude.Dict.{Dict}

pub record ApprovalRequest : Type 0 where
  pub action : String
  pub detail : String
  pub risk : String

pub record ApprovalDecision : Type 0 where
  pub approved : Bool
  pub reason : String

-- `ApprovalGate.review`
abbrev pub Gate : Type 0
Gate = ApprovalRequest → ApprovalDecision

unfoldable pub auto_approver : Gate
auto_approver request = record { approved = true; reason = "auto-approved" }

pub deny_all : Gate
deny_all request = record { approved = false; reason = "all actions denied by policy" }

unfoldable pub policy_approval_gate : List String → Gate
policy_approval_gate block_risks request =
    if elem request.risk block_risks
    then record {
      approved = false;
      reason = "risk '" <> (request.risk <> "' requires human approval");
    }
    else record { approved = true; reason = "within policy" }

pub callback_approval_gate : (ApprovalRequest → Bool) → Gate
callback_approval_gate callback request =
    let approved = callback request in
    record { approved = approved; reason = if approved then "human approved" else "human rejected" }

pub record CommandResult : Type 0 where
  pub command : List String
  pub exit_code : ℤ
  pub stdout : String
  pub stderr : String

pub record Shell : Type 0 where
  pub lex : String → Option (List String)
  pub repr : String → String

pub record PolicyVerdict : Type 0 where
  pub allowed : Bool
  pub reason : String
  pub requires_approval : Bool

unfoldable pub deny : String → PolicyVerdict
deny reason = record { allowed = false; reason = reason; requires_approval = false }

pub record SideEffectPolicy : Type 0 where
  pub allowed_programs : List String
  pub denied_substrings : List String
  pub approval_commands : List String

unfoldable pub first_contained : String → List String → Option String
unfolding contains
first_contained joined [] = none
first_contained joined (bad ∷ rest) =
    let later = first_contained joined rest in if contains joined bad then some bad else later

-- The set `seen` of the tokens of a line, and of all lines.
unfoldable pub seen_in_line : List String → List String
unfolding basename
seen_in_line [] = []
seen_in_line (program ∷ tokens) = program ∷ basename program ∷ tokens

unfoldable pub seen_in : List (List String) → List String
unfolding seen_in_line
seen_in [] = []
seen_in (line ∷ lines) = seen_in_line line ++ seen_in lines

unfoldable pub first_seen : List String → List String → Option String
first_seen seen [] = none
first_seen seen (verb ∷ verbs) =
    let later = first_seen seen verbs in if elem verb seen then some verb else later

unfoldable pub first_gated_verb : List (List String) → List String → Option String
unfolding seen_in first_seen
first_gated_verb lines approval_commands = first_seen (seen_in lines) approval_commands

abbrev pub fork_bomb : String
fork_bomb = ":(){"

unfoldable pub gated_verdict : (String → String) → Option String → PolicyVerdict
gated_verdict repr none = record { allowed = true; reason = "permitted"; requires_approval = false }
gated_verdict repr (some verb) = record {
  allowed = true;
  reason = "requires approval: contains " <> repr verb;
  requires_approval = true;
}

unfoldable pub listed_verdict :
    (String → String) → SideEffectPolicy → String → List (List String) → PolicyVerdict
unfolding gated_verdict first_gated_verb deny
listed_verdict repr policy program lines =
    if not (is_empty policy.allowed_programs) && not (elem program policy.allowed_programs)
    then deny ("program not allow-listed: " <> repr program)
    else gated_verdict repr (first_gated_verb lines policy.approval_commands)

unfoldable pub substring_verdict :
    (String → String)
    → SideEffectPolicy
    → String
    → List (List String)
    → Option String
    → PolicyVerdict
unfolding listed_verdict deny
substring_verdict repr policy program lines (some bad) =
    deny ("blocked by policy: contains " <> repr bad)
substring_verdict repr policy program lines none = listed_verdict repr policy program lines

module _ (shell : Shell) where
  unfoldable pub split_shell_script : String → List (List String)
  unfolding tokens_or_words commands_in
  split_shell_script script =
      filter (λ c. not (is_empty c)) (commands_in (tokens_or_words (shell.lex script) script))

  unfoldable pub scripts_commands : List String → List (List String)
  unfolding split_shell_script
  scripts_commands [] = []
  scripts_commands (script ∷ scripts) = split_shell_script script ++ scripts_commands scripts

  -- The command, and each sub-command of its scripts.
  unfoldable pub command_lines : List String → List (List String)
  unfolding scripts_commands shell_c_scripts
  command_lines args = args ∷ scripts_commands (shell_c_scripts args)

  unfoldable pub denylist_reason : List String → Option String
  denylist_reason [] = none
  denylist_reason (first ∷ tokens) =
      let program = basename first in
      if is_destructive_rm (first ∷ tokens)
      then some "blocked by policy: recursive-force rm is destructive"
      else if program == "sudo" || program == "doas"
      then some ("blocked by policy: privilege escalation via " <> shell.repr program)
      else if starts_with program "mkfs"
      then some ("blocked by policy: filesystem format via " <> shell.repr program)
      else none

  unfoldable pub first_denied : List (List String) → Option String
  unfolding denylist_reason
  first_denied [] = none
  first_denied (line ∷ lines) =
      let later = first_denied lines in
      elim (denylist_reason line) [ some reason ↦ some reason | none ↦ later ]

  unfoldable pub line_verdict :
      SideEffectPolicy → String → List String → Option String → PolicyVerdict
  unfolding substring_verdict first_contained command_lines spaced deny
  line_verdict policy program args (some reason) = deny reason
  line_verdict policy program args none =
      substring_verdict shell.repr policy program (command_lines args)
        (first_contained (spaced args) policy.denied_substrings)

  unfoldable pub evaluate : SideEffectPolicy → List String → PolicyVerdict
  unfolding line_verdict first_denied deny
  evaluate policy [] = deny "empty command"
  evaluate policy (program ∷ tokens) =
      let args = program ∷ tokens in
      if contains (spaced args) fork_bomb
      then deny "blocked by policy: fork bomb"
      else line_verdict policy program args (first_denied (command_lines args))

-- What the guarded runner passes on to the inner one.
pub record RunOptions : Type 0 where
  pub cwd : Option String
  pub timeout : Option ℤ
  pub env : Option (Dict String)

-- What the guarded runner does besides returning: it asks its gate, and runs the inner runner.
pub data Effect : Type 0 where
  reviewed : ApprovalRequest → Effect
  executed : RunOptions → List String → Effect

abbrev pub Inner : Type 0
Inner = RunOptions → List String → CommandResult

abbrev pub exit_denied : ℤ
exit_denied = pos 126

unfoldable pub denied_result : List String → String → CommandResult
denied_result args message = record {
  command = args;
  exit_code = exit_denied;
  stdout = "";
  stderr = message;
}

unfoldable pub execute : Inner → RunOptions → List String → CommandResult × List Effect
execute inner options args = (inner options args, executed options args ∷ [])

unfoldable pub after_review :
    Inner
    → RunOptions
    → List String
    → ApprovalRequest
    → ApprovalDecision
    → CommandResult × List Effect
unfolding execute denied_result
after_review inner options args request decision =
    if decision.approved
    then (inner options args, reviewed request ∷ executed options args ∷ [])
    else (denied_result args ("approval denied: " <> decision.reason), reviewed request ∷ [])

unfoldable pub request_for : List String → PolicyVerdict → ApprovalRequest
unfolding spaced
request_for args verdict = record { action = spaced args; detail = verdict.reason; risk = "high" }

unfoldable pub guarded :
    Gate → Inner → RunOptions → List String → PolicyVerdict → CommandResult × List Effect
unfolding execute denied_result after_review request_for
guarded gate inner options args verdict =
    if not verdict.allowed
    then (denied_result args verdict.reason, [])
    else if verdict.requires_approval
    then after_review inner options args (request_for args verdict)
        (gate (request_for args verdict))
    else execute inner options args

-- `GuardedCommandRunner.run`
unfoldable pub guarded_run :
    Shell → SideEffectPolicy → Gate → Inner → RunOptions → List String → CommandResult × List Effect
unfolding guarded evaluate
guarded_run shell policy gate inner options args =
    guarded gate inner options args (evaluate shell policy args)
