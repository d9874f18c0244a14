-- ===== src/Policy/Tests.antt =====
-- The policy and the guarded runner at concrete commands.
use dev_team.Prelude.{String, ◌≡◌, refl, true, false, none, List, [], ◌∷◌, filter, elem}
use dev_team.Prelude.Int.{pos}
use dev_team.Prelude.Split.{split, push, is_separator}
use dev_team.Policy.{
  ApprovalRequest, auto_approver, policy_approval_gate, Shell, SideEffectPolicy, evaluate,
  RunOptions, guarded_run, exit_denied, is_destructive_rm, request_for, Inner,
}
use dev_team.Policy.Guard.{permits, asks, Kept, guarded_run_lem}
use dev_team.Policy.Lines.{AreLines}

-- A lexer that does not lex, so that a script is read as its words.
abbrev blunt : Shell
blunt = record { lex = λ s. none; repr = λ s. s }

abbrev default_policy : SideEffectPolicy
default_policy = record {
  allowed_programs = [];
  denied_substrings = [];
  approval_commands = "push" ∷ "deploy" ∷ "rm" ∷ [];
}

abbrev plain : RunOptions
plain = record { cwd = none; timeout = none; env = none }

abbrev succeeding : Inner
succeeding options args = record { command = args; exit_code = pos 0; stdout = "done"; stderr = "" }

rm_split_flags : is_destructive_rm ("/bin/rm" ∷ "-v" ∷ "x" ∷ "-r" ∷ "--force" ∷ []) ≡ true
unfolding is_destructive_rm split push is_separator
rm_split_flags = refl

rm_not_forced : is_destructive_rm ("rm" ∷ "-r" ∷ "x" ∷ []) ≡ false
unfolding is_destructive_rm split push is_separator
rm_not_forced = refl

nested_sudo :
    (evaluate blunt default_policy ("bash" ∷ "-lc" ∷ "cd x && sudo reboot" ∷ [])).reason
    ≡ "blocked by policy: privilege escalation via sudo"
unfolding evaluate split push is_separator elem filter is_destructive_rm
nested_sudo = refl

sudoku : (evaluate blunt default_policy ("cat" ∷ "sudoku.txt" ∷ [])).reason ≡ "permitted"
unfolding evaluate split push is_separator elem filter is_destructive_rm
sudoku = refl

high_risk_denied :
    (guarded_run blunt default_policy
      (policy_approval_gate ("high" ∷ []))
      succeeding
      plain
      ("git" ∷ "-C" ∷ "x" ∷ "push" ∷ [])).0.exit_code
    ≡ exit_denied
unfolding guarded_run evaluate split push is_separator elem filter policy_approval_gate
    is_destructive_rm
high_risk_denied = refl

-- A script of two lines, whose newline the lexer takes for a blank: one command, and `sudo` unseen.
unseen_sudo :
    (evaluate blunt default_policy ("bash" ∷ "-c" ∷ "ls\nsudo reboot" ∷ [])).reason ≡ "permitted"
unfolding evaluate split push is_separator elem filter is_destructive_rm
unseen_sudo = refl

abbrev push_command : List String
push_command = "git" ∷ "push" ∷ []

abbrev push_request : ApprovalRequest
push_request = request_for push_command (evaluate blunt default_policy push_command)

guarded_run_lem_example :
    (lines : List (List String)) × AreLines blunt push_command lines
    × Kept
        (permits lines default_policy push_command)
        (asks lines default_policy)
        (auto_approver push_request).approved
        push_request
        succeeding
        plain
        push_command
        (guarded_run blunt default_policy auto_approver succeeding plain push_command)
guarded_run_lem_example =
    guarded_run_lem blunt default_policy auto_approver succeeding plain push_command
