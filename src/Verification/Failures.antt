-- ===== src/Verification/Failures.antt =====
-- src/dev_team/failures.py: the failing tests of go and cargo that a report names, and which of them
-- are new. A set of names is a list, read by membership; letters and digits are those of ASCII.
use Prim.Native.Char.{Char, code}
use Prim.Native.String.{[] as []ˢ, ◌∷◌ as ◌∷ˢ◌, ◌++◌ as ◌<>◌}
use text.Mathlib.Text.{starts_with}
use dev_team.Prelude.{
  ◌≡◌, refl, String, Bool, false, not, ◌&&◌, ◌||◌, Option, none, some, List, [], ◌∷◌, ◌++◌, map,
  if◌then◌else◌, eqb, leb, filter, elem, elem-filter,
}
use dev_team.Prelude.Chars.{is_space, is_blank, starts}
use dev_team.Prelude.Decimal.{after_prefix, is_digit}
use dev_team.Verification.Coverage.{Read, read_while, splitlines}

abbrev is_visible : Char → Bool
is_visible c = not (is_space c)

unfoldable unless_blank : String → Option String
unfolding is_blank
unless_blank s = if is_blank s then none else some s

unfoldable then_name : Option String → Option String
unfolding unless_blank read_while is_space
then_name none = none
then_name (some rest) = unless_blank (read_while is_visible rest).taken

-- `_GO_FAIL.match(line)`
unfoldable pub go_fail : String → Option String
unfolding then_name after_prefix
go_fail line = then_name (after_prefix "--- FAIL: " line)

unfoldable after_blanks : Option String → Option String
unfolding read_while is_space is_blank
after_blanks none = none
after_blanks (some rest) =
    let blanks = read_while is_space rest in
    if is_blank blanks.taken then none else some blanks.rest

-- `_GO_PACKAGE.match(line)`
unfoldable pub go_package : String → Option String
unfolding then_name after_blanks after_prefix
go_package line = then_name (after_blanks (after_prefix "FAIL" line))

-- The variables `pending` and `identities`.
pub record GoFailures : Type 0 where
  pub pending : List String
  pub identities : List String

unfoldable pub qualified : String → String → String
qualified scope name = scope <> ("::" <> name)

-- The body of the loop, for a line that names no test.
unfoldable pub close_package : Option String → GoFailures → GoFailures
unfolding qualified
close_package none seen = seen
close_package (some pkg) seen = record {
  pending = [];
  identities = seen.identities ++ map (qualified pkg) seen.pending;
}

unfoldable pub read_go_line : Option String → Option String → GoFailures → GoFailures
unfolding close_package
read_go_line (some test) pkg seen = record seen { pending = seen.pending ++ test ∷ [] }
read_go_line none pkg seen = close_package pkg seen

unfoldable pub read_go_lines : List String → GoFailures → GoFailures
unfolding read_go_line go_fail go_package
read_go_lines [] seen = seen
read_go_lines (line ∷ lines) seen =
    read_go_lines lines (read_go_line (go_fail line) (go_package line) seen)

-- `_go_failures`
unfoldable pub go_failures : String → List String
unfolding read_go_lines splitlines
go_failures output =
    let seen = read_go_lines (splitlines output) (record { pending = []; identities = [] }) in
    seen.identities ++ seen.pending

-- `_CARGO_FAIL.match(line)`: the name and what follows it.
unfoldable named_failed : Read → Option String
unfolding unless_blank
named_failed name = if starts_with name.rest " ... FAILED" then unless_blank name.taken else none

unfoldable cargo_name : Option String → Option String
unfolding named_failed read_while is_space
cargo_name none = none
cargo_name (some rest) = named_failed (read_while is_visible rest)

unfoldable pub cargo_fail : String → Option String
unfolding cargo_name after_prefix
cargo_fail line = cargo_name (after_prefix "test " line)

abbrev is_word : Char → Bool
is_word c =
    let n = code c in is_digit c || (leb 65 n && leb n 90 || (leb 97 n && leb n 122 || eqb n 95))

abbrev is_hex : Char → Bool
is_hex c = is_digit c || leb 97 (code c) && leb (code c) 102

abbrev is_hyphen : Char → Bool
is_hyphen c = eqb (code c) 45

-- `-[0-9a-f]+`
unfoldable hashed : String → Bool
unfolding starts is_digit
hashed []ˢ = false
hashed (c ∷ˢ s) = is_hyphen c && starts is_hex s

unfoldable crate_before_hash : Read → Option String
unfolding unless_blank hashed
crate_before_hash crate = if hashed crate.rest then unless_blank crate.taken else none

unfoldable crate_at : Option String → Option String
unfolding crate_before_hash read_while is_digit
crate_at none = none
crate_at (some rest) = crate_before_hash (read_while is_word rest)

unfoldable first_found : Option String → Option String → Option String
first_found none later = later
first_found (some x) later = some x

-- `_CARGO_BINARY.search(line)`, for whether a word ends in front of the text.
unfoldable pub cargo_binary : Bool → String → Option String
unfolding crate_at first_found after_prefix is_digit
cargo_binary after_word []ˢ = none
cargo_binary after_word (c ∷ˢ s) =
    let later = cargo_binary (is_word c) s in
    if after_word then later else first_found (crate_at (after_prefix "deps/" (c ∷ˢ s))) later

-- The variables `crate` and `identities`.
pub record CargoFailures : Type 0 where
  pub crate : Option String
  pub identities : List String

unfoldable pub in_crate : Option String → String → String
unfolding qualified
in_crate none name = name
in_crate (some crate) name = qualified crate name

unfoldable pub add_failure : Option String → CargoFailures → CargoFailures
unfolding in_crate
add_failure none seen = seen
add_failure (some name) seen = record seen {
  identities = seen.identities ++ in_crate seen.crate name ∷ [];
}

unfoldable pub read_cargo_line : Option String → Option String → CargoFailures → CargoFailures
unfolding add_failure
read_cargo_line (some crate) test seen = record seen { crate = some crate }
read_cargo_line none test seen = add_failure test seen

unfoldable pub read_cargo_lines : List String → CargoFailures → CargoFailures
unfolding read_cargo_line cargo_binary cargo_fail
read_cargo_lines [] seen = seen
read_cargo_lines (line ∷ lines) seen =
    read_cargo_lines lines (read_cargo_line (cargo_binary false line) (cargo_fail line) seen)

-- `_cargo_failures`
unfoldable pub cargo_failures : String → List String
unfolding read_cargo_lines splitlines
cargo_failures output =
    (read_cargo_lines (splitlines output) (record { crate = none; identities = [] })).identities

-- `new_failures`
unfoldable pub new_failures : Option (List String) → Option (List String) → Option (List String)
unfolding filter elem
new_failures none baseline = none
new_failures (some current) none = none
new_failures (some current) (some baseline) = some (filter (λ t. not (elem t baseline)) current)

-- Where both sets are known, the new failures are those of now that the baseline does not have.
elem-new_failures :
    (current baseline : List String) (test : String)
    → (found : List String) × (new_failures (some current) (some baseline) ≡ some found)
      × (elem test found ≡ (elem test current && not (elem test baseline)))
unfolding new_failures
elem-new_failures current baseline test = (
  filter (λ t. not (elem t baseline)) current,
  refl,
  elem-filter (λ t. not (elem t baseline)) test current,
)
