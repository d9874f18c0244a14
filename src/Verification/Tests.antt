-- ===== src/Verification/Tests.antt =====
-- The gates at concrete runners and reports.
use dev_team.Prelude.{
  ℕ, ◌+◌, ◌≡◌, refl, String, true, false, ◌&&◌, none, some, [], ◌∷◌, ◌==◌, if◌then◌else◌, leb,
  filter,
}
use dev_team.Prelude.Int.{pos, le}
use dev_team.Verification.Coverage.{percents_from, splitlines, coverage_percent}
use dev_team.Verification.{
  ok, output, Runner, GateContext, Floats, RemoteCiGate, remote_ci_gate, run_in, command_gate,
  coverage_gate, evaluate_gates, summary, poll_loop, pause, triggered, polls_exhausted,
  coverage_verdict,
}
use dev_team.Verification.Failures.{go_failures, cargo_failures, new_failures}
use dev_team.Verification.Polls.{trigger_ok, trigger_state, GateEnds, remote_ci_gate-GateEnds}
use dev_team.Verification.Readings.{stated, reaches, coverage_gate_lem}

-- A build that has passed at the fourth question; the state counts the questions and the pauses.
abbrev fourth_time : Runner ℕ
fourth_time options command asked = (
  record {
    command = command;
    exit_code = if leb 6 asked then pos 0 else pos 1;
    stdout = "queued";
    stderr = "";
  },
  asked + 1,
)

abbrev remote_context : GateContext ℕ
remote_context = record { runner = fourth_time; is_dry_run = false; cwd = none; timeout = none }

abbrev remote_gate : ℕ → RemoteCiGate ℕ
remote_gate polls = record {
  name = "remote";
  status_command = "gh" ∷ "run" ∷ "view" ∷ [];
  trigger_command = none;
  max_polls = polls;
  sleep = λ n. n + 1;
}

four_polls : (remote_ci_gate (remote_gate 30) remote_context 0).1 ≡ 7
unfolding remote_ci_gate triggered poll_loop pause run_in ok output
four_polls = refl

three_polls :
    (remote_ci_gate (remote_gate 3) remote_context 0).0.detail
    ≡ "remote verification did not pass within 3 poll(s): queued"
unfolding remote_ci_gate triggered poll_loop pause run_in ok output polls_exhausted
three_polls = refl

remote_ci_gate-GateEnds_example :
    GateEnds
      (remote_gate 30)
      remote_context
      (trigger_ok remote_context none 0)
      (trigger_state remote_context none 0)
      (remote_ci_gate (remote_gate 30) remote_context 0)
remote_ci_gate-GateEnds_example = remote_ci_gate-GateEnds (remote_gate 30) remote_context 0

-- The two numerals that the reports below have.
abbrev two_numerals : Floats
two_numerals = record {
  float = λ s. if s == "97.5" then pos 975 else if s == "100" then pos 1000 else pos 0;
  one_decimal = λ n. "n";
}

abbrev report : String
report = "slowest 3% took 100%\nTOTAL 120 3 97.5%\r\nsee the coverage: 100%"

percents : percents_from 0 "slowest 3% took 1.2.97.5 %, 5" ≡ "3" ∷ "97.5" ∷ []
unfolding percents_from
percents = refl

total_first : coverage_percent two_numerals.float report ≡ some (pos 975)
unfolding coverage_percent
total_first = refl

abbrev reporting : Runner ℕ
reporting options command asked =
    (record { command = command; exit_code = pos 0; stdout = report; stderr = "" }, asked + 1)

abbrev report_context : GateContext ℕ
report_context = record { runner = reporting; is_dry_run = true; cwd = none; timeout = none }

coverage_gate_lem_example :
    let (result, after) = run_in report_context ("coverage" ∷ "report" ∷ []) 0 in
    let (verdict, final) =
      coverage_gate two_numerals "cov" ("coverage" ∷ "report" ∷ []) (pos 980) report_context 0 in
    (verdict.passed
      ≡ (ok result && reaches (pos 980) (stated two_numerals.float (splitlines (output result)))))
    × (final ≡ after)
coverage_gate_lem_example =
    coverage_gate_lem two_numerals "cov" ("coverage" ∷ "report" ∷ []) (pos 980) report_context 0

dry_board :
    summary
      (evaluate_gates
        (command_gate "tests" ("pytest" ∷ []) ∷ coverage_gate two_numerals "cov" [] (pos 980) ∷ [])
        report_context
        0).0
    ≡ "1/2 gates passed (1 dry-run: not executed)"
unfolding summary evaluate_gates command_gate coverage_gate run_in ok output coverage_percent filter
    coverage_verdict le
dry_board = refl

abbrev go_report : String
go_report =
    "--- FAIL: TestA (0.00s)\nFAIL\tpkg/one\t0.1s\n--- FAIL: TestA (0.00s)\nFAIL\tpkg/two\t0.1s\nFAIL"

go_packages : go_failures go_report ≡ "pkg/one::TestA" ∷ "pkg/two::TestA" ∷ []
unfolding go_failures
go_packages = refl

only_new :
    new_failures (some (go_failures go_report)) (some ("pkg/one::TestA" ∷ []))
    ≡ some ("pkg/two::TestA" ∷ [])
unfolding new_failures go_failures
only_new = refl

cargo_crates :
    cargo_failures
      "test a::b ... FAILED\nRunning x (target/debug/deps/core-1f)\ntest a::b ... FAILED"
    ≡ "a::b" ∷ "core::a::b" ∷ []
unfolding cargo_failures
cargo_crates = refl
