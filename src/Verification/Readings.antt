-- ===== src/Verification/Readings.antt =====
-- src/dev_team/verification.py: which coverage a report states, and when the gate lets it pass.
use dev_team.Prelude.{
  ◌≡◌, refl, inl, inr, String, Bool, true, false, not, ◌&&◌, Option, none, some, List, [], ◌∷◌,
  if◌then◌else◌, Bool-cases, map,
}
use dev_team.Prelude.Int.{ℤ, le}
use dev_team.Policy.{contains}
use dev_team.Verification.Coverage.{
  splitlines, upper, percents_from, last_option, Coverage, read_line, read_lines, coverage_percent,
}
use dev_team.Verification.{ok, output, GateContext, run_in, Floats, coverage_verdict, coverage_gate}

-- The later of two readings, where there is one.
unfoldable pub later_of {ℓ} : {A : Type ℓ} → Option A → Option A → Option A
later_of x none = x
later_of x (some y) = some y

unfoldable pub last_some {ℓ} : {A : Type ℓ} → List (Option A) → Option A
unfolding later_of
last_some [] = none
last_some (x ∷ xs) = later_of x (last_some xs)

later_of_assoc {ℓ} :
    {A : Type ℓ} (x y z : Option A) → later_of x (later_of y z) ≡ later_of (later_of x y) z
unfolding later_of
later_of_assoc x y none = refl
later_of_assoc x y (some z) = refl

later_of-none {ℓ} : {A : Type ℓ} (x : Option A) → later_of none x ≡ x
unfolding later_of
later_of-none none = refl
later_of-none (some x) = refl

module _ (float : String → ℤ) where
  unfoldable pub read_if : Bool → Option String → Option ℤ
  read_if false numeral = none
  read_if true none = none
  read_if true (some numeral) = some (float numeral)

  -- The last percentage of a line that names the total, and of one that does not but names the
  -- coverage.
  abbrev pub total_of : String → Option ℤ
  total_of line = read_if (contains (upper line) "TOTAL") (last_option (percents_from 0 line))

  abbrev pub labelled_of : String → Option ℤ
  labelled_of line =
      read_if (not (contains (upper line) "TOTAL") && contains (upper line) "COVERAGE")
        (last_option (percents_from 0 line))

  -- What a report states: the last percentage of the last line that names the total and has one, and
  -- without such a line, that of the last line that names the coverage.
  unfoldable pub stated : List String → Option ℤ
  unfolding later_of last_some
  stated lines = later_of (last_some (map labelled_of lines)) (last_some (map total_of lines))

  -- What a line adds to what was read, for whether it names the total and the coverage.
  abbrev added : Bool → Bool → Option String → Coverage → Coverage
  added t c numeral seen = record {
    total = later_of seen.total (read_if t numeral);
    labelled = later_of seen.labelled (read_if (not t && c) numeral);
  }

  numeral-added :
      (t c : Bool) (numeral : String) (seen : Coverage)
      → (if t
          then record seen { total = some (float numeral) }
          else if c
          then record seen { labelled = some (float numeral) }
          else seen)
        ≡ added t c (some numeral) seen
  unfolding later_of read_if
  numeral-added true c numeral seen = refl
  numeral-added false true numeral seen = refl
  numeral-added false false numeral seen = refl

  none-added : (t c : Bool) (seen : Coverage) → seen ≡ added t c none seen
  unfolding later_of read_if
  none-added true c seen = refl
  none-added false true seen = refl
  none-added false false seen = refl

  read_line-added :
      (line : String) (numeral : Option String) (seen : Coverage)
      → read_line float line numeral seen
        ≡ added (contains (upper line) "TOTAL") (contains (upper line) "COVERAGE") numeral seen
  unfolding read_line
  read_line-added line none seen = none-added _ _ seen
  read_line-added line (some numeral) seen = numeral-added _ _ numeral seen

  read_lines_lem :
      (lines : List String) (seen : Coverage)
      → read_lines float lines seen ≡ record {
        total = later_of seen.total (last_some (map total_of lines));
        labelled = later_of seen.labelled (last_some (map labelled_of lines));
      }
  unfolding read_lines later_of last_some
  read_lines_lem [] seen = refl
  read_lines_lem (line ∷ lines) seen =
      rw
        (
          read_line-added line (last_option (percents_from 0 line)) seen,
          read_lines_lem lines,
          later_of_assoc seen.total,
          later_of_assoc seen.labelled,
        )
        refl

  coverage_percent-stated :
      (report : String) → coverage_percent float report ≡ stated (splitlines report)
  unfolding coverage_percent stated
  coverage_percent-stated report =
      let lines = splitlines report in
      rw
        (
          read_lines_lem lines,
          later_of-none (last_some (map total_of lines)),
          later_of-none (last_some (map labelled_of lines)),
        )
        refl

unfoldable pub reaches : ℤ → Option ℤ → Bool
reaches minimum none = false
reaches minimum (some coverage) = le minimum coverage

passed-verdict :
    (floats : Floats) (name : String) (minimum : ℤ) (coverage : Option ℤ)
    → (coverage_verdict floats name minimum coverage).passed ≡ reaches minimum coverage
unfolding coverage_verdict reaches
passed-verdict floats name minimum none = refl
passed-verdict floats name minimum (some coverage) = refl

module _ {W : Type 0} (floats : Floats) (name : String) (command : List String) (minimum : ℤ) where
  -- The gate runs its command, once, and passes exactly where the command exits with zero and its output
  -- states a coverage of at least the minimum: the last percentage of the last line that names the
  -- total and has one, or without such a line the last percentage of the last line that names the
  -- coverage; a percentage on any other line does not count.
  pub coverage_gate_lem :
      (context : GateContext W) (w : W)
      → let (result, after) = run_in context command w in
        let (verdict, final) = coverage_gate floats name command minimum context w in
        (verdict.passed
          ≡ (ok result && reaches minimum (stated floats.float (splitlines (output result)))))
        × (final ≡ after)
  unfolding coverage_gate
  coverage_gate_lem context w =
      let result = (run_in context command w).0 in
      elim (Bool-cases (ok result)) [
        | inl e ↦ (
          rw (e, ← coverage_percent-stated floats.float (output result))
              (passed-verdict floats name minimum _),
          refl,
        )
        | inr e ↦ (rw e refl, refl)
      ]
