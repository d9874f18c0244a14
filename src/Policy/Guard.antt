-- ===== src/Policy/Guard.antt =====
-- What the guarded runner runs, and whom it asks.
use mathlib.Core.Path.{subst}
use text.Mathlib.Text.{starts_with}
use dev_team.Prelude.{
  String, ◌≡◌, refl, Bool, true, false, not, ◌&&◌, ◌||◌, Option, none, some, List, [], ◌∷◌, ◌++◌,
  ◌==◌, arith, if◌then◌else◌, any, all, elem, elem-append, is_empty, Bool-cases, inl, inr,
}
use dev_team.Policy.Lines.{AreLines, command_lines-AreLines}
use dev_team.Policy.Flags.{is_recursive, is_forcing, is_destructive_rm_lem}
use dev_team.Policy.{
  ApprovalRequest, Gate, CommandResult, Shell, basename, contains, spaced, PolicyVerdict, deny,
  SideEffectPolicy, first_contained, seen_in_line, seen_in, first_seen, first_gated_verb, fork_bomb,
  gated_verdict, listed_verdict, substring_verdict, command_lines, denylist_reason, first_denied,
  line_verdict, evaluate, RunOptions, Effect, reviewed, executed, Inner, denied_result, execute,
  after_review, request_for, guarded, guarded_run,
}

-- The commands that are denied whoever asks, by the last part of the program's path: `rm` with a flag
-- for recursion and one for force, `sudo`, `doas`, and the programs whose names begin with "mkfs".
pub is_dangerous : List String → Bool
is_dangerous [] = false
is_dangerous (first ∷ tokens) =
    (basename first == "rm" && (any is_recursive tokens && any is_forcing tokens))
    || ((basename first == "sudo" || basename first == "doas")
        || starts_with (basename first) "mkfs")

-- A verb stands in a line as a token, or as the last part of its program's path.
pub occurs : String → List String → Bool
occurs verb [] = false
occurs verb (first ∷ tokens) = first == verb || (basename first == verb || elem verb tokens)

pub is_listed : List String → List String → Bool
is_listed [] programs = false
is_listed (program ∷ tokens) programs = is_empty programs || elem program programs

-- What a policy permits of a command that is read as these lines, and where it asks for approval.
pub permits : List (List String) → SideEffectPolicy → List String → Bool
permits lines policy args =
    not (is_empty args)
    && (not (contains (spaced args) fork_bomb)
        && (all (λ line. not (is_dangerous line)) lines
            && (all (λ bad. not (contains (spaced args) bad)) policy.denied_substrings
                && is_listed args policy.allowed_programs)))

pub asks : List (List String) → SideEffectPolicy → Bool
asks lines policy = any (λ verb. any (occurs verb) lines) policy.approval_commands

is_none : {A : Type 0} → Option A → Bool
is_none none = true
is_none (some a) = false

denylist_reason_lem :
    (shell : Shell) (line : List String)
    → is_none (denylist_reason shell line) ≡ not (is_dangerous line)
unfolding is_none denylist_reason is_dangerous
denylist_reason_lem shell [] = refl
denylist_reason_lem shell (first ∷ tokens) = ground (arith, is_destructive_rm_lem first tokens)

first_denied_lem :
    (shell : Shell) (lines : List (List String))
    → is_none (first_denied shell lines) ≡ all (λ line. not (is_dangerous line)) lines
unfolding is_none first_denied all
first_denied_lem shell [] = refl
first_denied_lem shell (line ∷ lines) =
    ground (arith, denylist_reason_lem shell line, first_denied_lem shell lines)

first_contained_lem :
    (joined : String) (bads : List String)
    → is_none (first_contained joined bads) ≡ all (λ bad. not (contains joined bad)) bads
unfolding is_none first_contained all
first_contained_lem joined [] = refl
first_contained_lem joined (bad ∷ bads) = ground (arith, first_contained_lem joined bads)

elem-seen_in :
    (verb : String) (lines : List (List String))
    → elem verb (seen_in lines) ≡ any (occurs verb) lines
unfolding seen_in seen_in_line occurs elem any
elem-seen_in verb [] = refl
elem-seen_in verb ([] ∷ lines) = elem-seen_in verb lines
elem-seen_in verb ((first ∷ tokens) ∷ lines) =
    ground (arith, elem-seen_in verb lines, elem-append verb tokens (seen_in lines))

first_seen_lem :
    (lines : List (List String)) (verbs : List String)
    → is_none (first_seen (seen_in lines) verbs) ≡ not (any (λ verb. any (occurs verb) lines) verbs)
unfolding is_none first_seen any
first_seen_lem lines [] = refl
first_seen_lem lines (verb ∷ verbs) =
    ground (arith, first_seen_lem lines verbs, elem-seen_in verb lines)

-- How a verdict stands to what is permitted, and to what asks.
abbrev Judged : Bool → Bool → PolicyVerdict → Type 0
Judged may ask verdict = (verdict.allowed ≡ may) × (verdict.requires_approval ≡ (may && ask))

gated-Judged :
    (repr : String → String) (gated : Option String)
    → Judged true (not (is_none gated)) (gated_verdict repr gated)
unfolding gated_verdict is_none
gated-Judged repr none = (refl, refl)
gated-Judged repr (some verb) = (refl, refl)

module _ (shell : Shell) (policy : SideEffectPolicy) (program : String) (tokens : List String) where
  abbrev args : List String
  args = program ∷ tokens

  abbrev lines : List (List String)
  lines = command_lines shell args

  abbrev unlisted : Bool
  unlisted = not (is_empty policy.allowed_programs) && not (elem program policy.allowed_programs)

  listed_iff : not unlisted ≡ is_listed args policy.allowed_programs
  unfolding is_listed
  listed_iff = ground arith

  asks_iff : not (is_none (first_gated_verb lines policy.approval_commands)) ≡ asks lines policy
  unfolding first_gated_verb asks
  asks_iff = ground (arith, first_seen_lem lines policy.approval_commands)

  gated_lines-Judged :
      Judged true
        (asks lines policy)
        (gated_verdict shell.repr (first_gated_verb lines policy.approval_commands))
  gated_lines-Judged =
      subst
        (λ ask.
          Judged true ask
            (gated_verdict shell.repr (first_gated_verb lines policy.approval_commands)))
        asks_iff (gated-Judged shell.repr _)

  listed-Judged :
      Judged
        (is_listed args policy.allowed_programs)
        (asks lines policy)
        (listed_verdict shell.repr policy program lines)
  unfolding listed_verdict deny
  listed-Judged =
      subst (λ may. Judged may (asks lines policy) (listed_verdict shell.repr policy program lines))
        listed_iff
        (elim (Bool-cases unlisted) [ inl e ↦ rw e (refl, refl) | inr e ↦ rw e gated_lines-Judged ])

  substring-Judged :
      (bad : Option String)
      → Judged
          (is_none bad && is_listed args policy.allowed_programs)
          (asks lines policy)
          (substring_verdict shell.repr policy program lines bad)
  unfolding substring_verdict deny is_none
  substring-Judged none = listed-Judged
  substring-Judged (some bad) = (refl, refl)

  line-Judged :
      (reason : Option String)
      → Judged
          (is_none reason
            && (is_none (first_contained (spaced args) policy.denied_substrings)
                && is_listed args policy.allowed_programs))
          (asks lines policy)
          (line_verdict shell policy program args reason)
  unfolding line_verdict deny is_none
  line-Judged none = substring-Judged _
  line-Judged (some reason) = (refl, refl)

evaluate-Judged :
    (shell : Shell) (policy : SideEffectPolicy) (args : List String)
    → Judged
        (permits (command_lines shell args) policy args)
        (asks (command_lines shell args) policy)
        (evaluate shell policy args)
unfolding evaluate permits deny
evaluate-Judged shell policy [] = (refl, refl)
evaluate-Judged shell policy (program ∷ tokens) =
    elim (Bool-cases (contains (spaced (program ∷ tokens)) fork_bomb)) [
      | inl e ↦ rw e (refl, refl)
      | inr e ↦
          rw
            (
              e,
              ← first_denied_lem shell (command_lines shell (program ∷ tokens)),
              ← first_contained_lem (spaced (program ∷ tokens)) policy.denied_substrings,
            )
            (line-Judged shell policy program tokens _)
    ]

-- What the runner does and returns, for what is permitted, what asks and what the gate says: it asks
-- the gate with one request, then runs the command, each where it should, and returns what the inner
-- runner does, or the exit code of a denial.
abbrev pub Kept :
    Bool
    → Bool
    → Bool
    → ApprovalRequest
    → Inner
    → RunOptions
    → List String
    → CommandResult × List Effect
    → Type 0
Kept may ask approved request inner options command (result, effects) =
    (effects
      ≡ (if may && ask then reviewed request ∷ [] else [])
        ++ (if may && (not ask || approved) then executed options command ∷ [] else []))
    × (result ≡ (
        if may && (not ask || approved)
        then inner options command
        else denied_result command result.stderr))

guarded-Kept :
    (gate : Gate) (inner : Inner) (options : RunOptions) (command : List String) (v : PolicyVerdict)
    (may ask : Bool)
    → Judged may ask v
    → Kept may ask
        (gate (request_for command v)).approved
        (request_for command v)
        inner
        options
        command
        (guarded gate inner options command v)
unfolding guarded after_review execute denied_result
guarded-Kept gate inner options command v false ask j = rw (j.0) (refl, refl)
guarded-Kept gate inner options command v true false j = rw (j.0, j.1) (refl, refl)
guarded-Kept gate inner options command v true true j =
    rw (j.0, j.1)
      (elim (Bool-cases (gate (request_for command v)).approved) [
        | inl e ↦ rw e (refl, refl)
        | inr e ↦ rw e (refl, refl)
      ])

-- The guarded runner reads a command as lines: the command itself and, where its program is a shell, by
-- the last part of its path, the commands of the scripts that stand behind its flags for a command, each
-- the tokens that the lexer makes of the script between two of the operators. A newline that the lexer
-- takes for a blank is no operator. It runs a command exactly where it is permitted, and approved if it
-- asks: the command is not empty, the text of the fork bomb and the denied texts do not stand in it, its
-- program is listed where programs are, and no line is dangerous; it asks where a gated verb occurs in
-- a line. The gate is asked exactly where a permitted command asks, before it is run. A command that is
-- run is run as it was given, and its result returned; any other gives the exit code of a denial.
pub guarded_run_lem :
    (shell : Shell) (policy : SideEffectPolicy) (gate : Gate) (inner : Inner) (options : RunOptions)
    (command : List String)
    → let request = request_for command (evaluate shell policy command) in
      (lines : List (List String)) × AreLines shell command lines
      × Kept
          (permits lines policy command)
          (asks lines policy)
          (gate request).approved
          request
          inner
          options
          command
          (guarded_run shell policy gate inner options command)
unfolding guarded_run
guarded_run_lem shell policy gate inner options command = (
  command_lines shell command,
  command_lines-AreLines shell command,
  guarded-Kept gate inner options command (evaluate shell policy command) _ _
      (evaluate-Judged shell policy command),
)
