-- ===== src/Verification.antt =====
-- src/dev_team/verification.py: the quality gates and the definition of done; with the tests of a
-- command's result in src/dev_team/execution.py. A runner and the clock act on a state of any type;
-- a coverage is an integer of a small unit.
pub mod Coverage
pub mod Polls
pub mod Readings
pub mod Failures
pub mod Tests
use Prim.Native.String.{◌++◌ as ◌<>◌}
use dev_team.Prelude.{
  ℕ, zero, suc, String, Bool, true, false, not, ◌&&◌, Option, none, some, List, [], ◌∷◌, ◌++◌, ◌==◌,
  if◌then◌else◌, filter, all, is_empty, length,
}
use dev_team.Prelude.Int.{ℤ, pos, le}
use dev_team.Prelude.Chars.{is_space, strip, is_blank}
use dev_team.Prelude.Decimal.{str}
use dev_team.Policy.{CommandResult, RunOptions}
use dev_team.Replies.{is_zero}
use dev_team.Verification.Coverage.{coverage_percent}

-- `CommandResult.ok`
unfoldable pub ok : CommandResult → Bool
unfolding is_zero
ok result = is_zero result.exit_code

-- `CommandResult.output`
unfoldable pub output : CommandResult → String
unfolding strip is_space is_blank
output result =
    let joined =
      if is_blank result.stdout
      then result.stderr
      else if is_blank result.stderr
      then result.stdout
      else result.stdout <> ("\n" <> result.stderr) in
    strip is_space joined

abbrev pub Runner : Type 0 → Type 0
Runner W = RunOptions → List String → W → CommandResult × W

-- `is_dry_run` is what `isinstance(runner, DryRunCommandRunner)` tests.
pub record GateContext (W : Type 0) : Type 0 where
  pub runner : Runner W
  pub is_dry_run : Bool
  pub cwd : Option String
  pub timeout : Option ℤ

pub record GateResult : Type 0 where
  pub name : String
  pub passed : Bool
  pub detail : String
  pub executed : Bool

-- The evaluation of a gate.
abbrev pub Gate : Type 0 → Type 0
Gate W = GateContext W → W → GateResult × W

-- Python's text of a number with one decimal, and its `float` of a numeral.
pub record Floats : Type 0 where
  pub float : String → ℤ
  pub one_decimal : ℤ → String

abbrev pub gate_result : String → Bool → String → GateResult
gate_result name passed detail = record {
  name = name;
  passed = passed;
  detail = detail;
  executed = true;
}

unfoldable pub coverage_verdict : Floats → String → ℤ → Option ℤ → GateResult
coverage_verdict floats name minimum none = gate_result name false "no coverage percentage found"
coverage_verdict floats name minimum (some coverage) = gate_result name (le minimum coverage) (
    "coverage "
    <> (floats.one_decimal coverage <> ("% (min " <> (floats.one_decimal minimum <> "%)"))))

module _ {W : Type 0} where
  -- `context.runner.run(command, cwd=context.cwd, timeout=context.timeout)`
  unfoldable pub run_in : GateContext W → List String → W → CommandResult × W
  run_in context command w =
      context.runner (record { cwd = context.cwd; timeout = context.timeout; env = none }) command w

  -- `CommandGate.evaluate`
  unfoldable pub command_gate : String → List String → Gate W
  command_gate name command context w =
      let (result, after) = run_in context command w in
      (
        record {
          name = name;
          passed = ok result;
          detail = output result;
          executed = not context.is_dry_run;
        },
        after,
      )

  -- `CoverageGate.evaluate`
  unfoldable pub coverage_gate : Floats → String → List String → ℤ → Gate W
  coverage_gate floats name command minimum context w =
      let (result, after) = run_in context command w in
      (
        (if not (ok result)
            then gate_result name false ("command failed: " <> output result)
            else coverage_verdict floats name minimum
                (coverage_percent floats.float (output result))),
        after,
      )

  -- `PredicateGate.evaluate`
  unfoldable pub predicate_gate : String → (GateContext W → W → Bool × W) → String → Gate W
  predicate_gate name predicate detail context w =
      let (passed, after) = predicate context w in (gate_result name passed detail, after)

pub record RemoteCiGate (W : Type 0) : Type 0 where
  pub name : String
  pub status_command : List String
  pub trigger_command : Option (List String)
  pub max_polls : ℕ
  pub sleep : W → W

module _ {W : Type 0} (gate : RemoteCiGate W) (context : GateContext W) where
  -- `if attempt: self.sleep(...)`
  unfoldable pub pause : ℕ → W → W
  pause zero w = w
  pause (suc attempt) w = gate.sleep w

  unfoldable pub polls_exhausted : String → GateResult
  unfolding str
  polls_exhausted last =
      gate_result gate.name false (
        "remote verification did not pass within "
        <> (str gate.max_polls <> (" poll(s): " <> last)))

  -- The loop over the attempts, of which `left` are left.
  unfoldable pub poll_loop : (left attempt : ℕ) → String → W → GateResult × W
  poll_loop zero attempt last w = (polls_exhausted last, w)
  poll_loop (suc left) attempt last w =
      let (result, after) = run_in context gate.status_command (pause attempt w) in
      let later = poll_loop left (suc attempt) (output result) after in
      if ok result then (gate_result gate.name true (output result), after) else later

  unfoldable pub after_trigger : CommandResult × W → GateResult × W
  after_trigger (trigger, after) =
      let polled = poll_loop gate.max_polls 0 "" after in
      if not (ok trigger)
      then (gate_result gate.name false ("remote trigger failed: " <> output trigger), after)
      else polled

  unfoldable pub triggered : Option (List String) → W → GateResult × W
  triggered none w = poll_loop gate.max_polls 0 "" w
  triggered (some command) w = after_trigger (run_in context command w)

module _ {W : Type 0} where
  -- `RemoteCIGate.evaluate`
  unfoldable pub remote_ci_gate : RemoteCiGate W → Gate W
  unfolding triggered
  remote_ci_gate gate context w = triggered gate context gate.trigger_command w

pub record DodReport : Type 0 where
  pub results : List GateResult

unfoldable pub passed : DodReport → Bool
passed report = not (is_empty report.results) && all (λ r. r.passed) report.results

unfoldable pub failed_gates : DodReport → List GateResult
failed_gates report = filter (λ r. not r.passed) report.results

-- The dry-run gates, as they are called out.
unfoldable pub dry_note : ℕ → String
unfolding str
dry_note zero = ""
dry_note (suc n) = " (" <> (str (suc n) <> " dry-run: not executed)")

unfoldable pub summary : DodReport → String
unfolding dry_note str
summary report =
    let count = length (filter (λ r. r.passed) report.results) in
    let dry = length (filter (λ r. not r.executed) report.results) in
    str count <> ("/" <> (str (length report.results) <> (" gates passed" <> dry_note dry)))

-- `DefinitionOfDone`: its gates.
abbrev pub DefinitionOfDone : Type 0 → Type 0
DefinitionOfDone W = List (Gate W)

module _ {W : Type 0} where
  -- `DefinitionOfDone.add`
  unfoldable pub add_gate : Gate W → DefinitionOfDone W → DefinitionOfDone W
  add_gate gate gates = gates ++ gate ∷ []

  -- `[gate.evaluate(context) for gate in self.gates]`
  unfoldable pub gate_results : DefinitionOfDone W → GateContext W → W → List GateResult × W
  gate_results [] context w = ([], w)
  gate_results (gate ∷ gates) context w =
      let (result, after) = gate context w in
      let (results, final) = gate_results gates context after in (result ∷ results, final)

  -- `DefinitionOfDone.evaluate`
  unfoldable pub evaluate_gates : DefinitionOfDone W → GateContext W → W → DodReport × W
  unfolding gate_results
  evaluate_gates gates context w =
      let (results, final) = gate_results gates context w in (record { results = results }, final)
