-- ===== src/Verification/Coverage.antt =====
-- src/dev_team/verification.py: the coverage that the output of a tool reports. The digits of a number
-- and the capital letters are those of ASCII, and `float` of a numeral is a parameter.
use Prim.Native.Char.{Char, char, code}
use Prim.Native.String.{[] as []ˢ, ◌∷◌ as ◌∷ˢ◌, ◌++◌ as ◌<>◌}
use native.Mathlib.Decide.{dec_lt}
use mathlib.Core.Logic.{dite}
use dev_team.Prelude.{
  ℕ, zero, suc, ◌+◌, ◌-◌, ◌<◌, String, Bool, not, ◌&&◌, ◌||◌, Option, none, some, List, [], ◌∷◌,
  if◌then◌else◌, eqb, leb, arith,
}
use dev_team.Prelude.Int.{ℤ}
use dev_team.Prelude.Split.{push}
use dev_team.Prelude.Decimal.{is_digit}
use dev_team.Prelude.Chars.{is_space, is_blank, starts, small-IsScalar}
use dev_team.Policy.{contains}

-- The characters at which `str.splitlines()` ends a line.
unfoldable pub is_line_end : Char → Bool
is_line_end c =
    let n = code c in
    leb 10 n && leb n 13 || (leb 28 n && leb n 30 || (eqb n 133 || (eqb n 8232 || eqb n 8233)))

abbrev is_return : Char → Bool
is_return c = eqb (code c) 13

abbrev is_newline : Char → Bool
is_newline c = eqb (code c) 10

-- The lines of a text and what stands after the last of them.
unfoldable pub lines_from : String → List String
unfolding is_line_end push starts
lines_from []ˢ = []ˢ ∷ []
lines_from (c ∷ˢ s) =
    let rest = lines_from s in
    if is_return c && starts is_newline s
    then rest
    else if is_line_end c
    then []ˢ ∷ rest
    else push c rest

unfoldable pub without_end : List String → List String
unfolding is_blank
without_end [] = []
without_end (l ∷ []) = if is_blank l then [] else l ∷ []
without_end (l ∷ m ∷ ls) = l ∷ without_end (m ∷ ls)

-- `output.splitlines()`
unfoldable pub splitlines : String → List String
unfolding without_end lines_from
splitlines s = without_end (lines_from s)

unfoldable pub upper_char : Char → Char
unfolding dec_lt
upper_char c =
    let high : (code c < 123 → Char) =
      λ h. char (code c - 32) (small-IsScalar (code c - 32) (omega (arith, h))) in
    if leb 97 (code c) then dite (dec_lt (code c) 123) high (λ _. c) else c

-- `line.upper()`
unfoldable pub upper : String → String
unfolding upper_char
upper []ˢ = []ˢ
upper (c ∷ˢ s) = upper_char c ∷ˢ upper s

-- A prefix that was read and what follows it.
pub record Read : Type 0 where
  pub taken : String
  pub rest : String

-- `\d*` and `\s*`, as far as they go.
unfoldable pub read_while : (Char → Bool) → String → Read
read_while p []ˢ = record { taken = []ˢ; rest = []ˢ }
read_while p (c ∷ˢ s) =
    let later = read_while p s in
    if p c
    then record { taken = c ∷ˢ later.taken; rest = later.rest }
    else record { taken = []ˢ; rest = c ∷ˢ s }

-- `(?:\.\d+)?` behind the digits of a number.
unfoldable pub with_fraction : String → String → Read
unfolding read_while is_digit is_blank
with_fraction digits []ˢ = record { taken = digits; rest = []ˢ }
with_fraction digits (c ∷ˢ s) =
    let fraction = read_while is_digit s in
    if eqb (code c) 46 && not (is_blank fraction.taken)
    then record { taken = digits <> (c ∷ˢ fraction.taken); rest = fraction.rest }
    else record { taken = digits; rest = c ∷ˢ s }

unfoldable pub size : String → ℕ
size []ˢ = 0
size (c ∷ˢ s) = suc (size s)

-- A match of `_PERCENT`: its numeral and the number of its characters.
pub record Percent : Type 0 where
  pub numeral : String
  pub width : ℕ

-- The numeral, the blanks and what follows them, where that is a percent sign.
unfoldable pub closed_by : String → String → String → Option Percent
unfolding size
closed_by numeral blanks []ˢ = none
closed_by numeral blanks (c ∷ˢ s) =
    if eqb (code c) 37
    then some (record { numeral = numeral; width = size numeral + size blanks + 1 })
    else none

unfoldable pub percent_after : Read → Option Percent
unfolding closed_by read_while is_space
percent_after number =
    let blanks = read_while is_space number.rest in closed_by number.taken blanks.taken blanks.rest

-- The match of `_PERCENT` at the start of a text.
unfoldable pub percent_at : String → Option Percent
unfolding percent_after with_fraction read_while is_digit is_blank
percent_at s =
    let digits = read_while is_digit s in
    if is_blank digits.taken then none else percent_after (with_fraction digits.taken digits.rest)

-- `_PERCENT.findall(line)`, where the next `skipped` characters belong to the last match.
unfoldable pub percents_from : ℕ → String → List String
unfolding percent_at
percents_from skipped []ˢ = []
percents_from (suc skipped) (c ∷ˢ s) = percents_from skipped s
percents_from zero (c ∷ˢ s) =
    let later = percents_from zero s in
    elim (percent_at (c ∷ˢ s)) [ none ↦ later | some p ↦ p.numeral ∷ percents_from (p.width - 1) s ]

unfoldable pub last_option {ℓ} : {A : Type ℓ} → List A → Option A
last_option [] = none
last_option (x ∷ []) = some x
last_option (x ∷ y ∷ ys) = last_option (y ∷ ys)

-- The variables `total` and `labelled`.
pub record Coverage : Type 0 where
  pub total : Option ℤ
  pub labelled : Option ℤ

-- The body of the loop, for `matches[-1]`.
unfoldable pub read_line : (String → ℤ) → String → Option String → Coverage → Coverage
unfolding contains upper
read_line float line none seen = seen
read_line float line (some numeral) seen =
    if contains (upper line) "TOTAL"
    then record seen { total = some (float numeral) }
    else if contains (upper line) "COVERAGE"
    then record seen { labelled = some (float numeral) }
    else seen

unfoldable pub read_lines : (String → ℤ) → List String → Coverage → Coverage
unfolding read_line last_option percents_from
read_lines float [] seen = seen
read_lines float (line ∷ lines) seen =
    read_lines float lines (read_line float line (last_option (percents_from 0 line)) seen)

unfoldable pub total_or_labelled : Coverage → Option ℤ
total_or_labelled seen = elim seen.total [ some t ↦ some t | none ↦ seen.labelled ]

-- `_coverage_percent`
unfoldable pub coverage_percent : (String → ℤ) → String → Option ℤ
unfolding total_or_labelled read_lines splitlines
coverage_percent float output =
    total_or_labelled
      (read_lines float (splitlines output) (record { total = none; labelled = none }))
