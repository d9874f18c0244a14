-- ===== src/Replies.antt =====
-- src/dev_team/parsing.py: the JSON values of the agents' replies, and their coercion to the fields of
-- the models. A number is an integer of a fixed small unit in place of a float. A key that is
-- missing and a key with the value null are alike here, as `data.get(key)` makes them.
pub mod Slug
pub mod Parse
pub mod SafeIds
pub mod Verdicts
pub mod Extract
pub mod Scan
pub mod Tests
use dev_team.Prelude.{
  ℕ, zero, suc, String, Bool, true, false, not, Option, none, some, List, [], ◌∷◌, ◌==◌,
  if◌then◌else◌, elem,
}
use dev_team.Prelude.Int.{ℤ, pos, negsuc}
use dev_team.Prelude.Chars.{strip, lower, is_space}
use dev_team.Models.{
  TaskStatus, pending, in_progress, in_review, changes_requested, testing, done, failed, Severity,
  info, minor, major, critical, ChangeType, create, modify, delete, TestKind, unit, integration,
  e2e,
}
use dev_team.Replan.{ReplanAction, split, replace, drop}

mutual
  pub data Json : Type 0 where
    null : Json
    bool : Bool → Json
    num : ℤ → Json
    text : String → Json
    arr : Items → Json
    obj : Fields → Json

  pub data Items : Type 0 where
    nil : Items
    cons : Json → Items → Items

  pub data Fields : Type 0 where
    end : Fields
    field : String → Json → Fields → Fields

-- What the code takes from Python: `json.loads` (`none` is its JSONDecodeError), `str` of a number,
-- a list or a dict, `float` of a text (`none` is its ValueError), a number rounded to a text, and the
-- number 1 in the unit.
pub record Python : Type 0 where
  pub loads : String → Option Json
  pub show : Json → String
  pub parse_float : String → Option ℤ
  pub rounded : ℤ → String
  pub one : ℤ

-- `data.get(key)`
unfoldable pub get_value : Fields → String → Json
get_value end key = null
get_value (field k v d) key = let rest = get_value d key in if k == key then v else rest

unfoldable pub as_dict : Json → Fields
as_dict (obj d) = d
as_dict _ = end

-- `str(value)`
unfoldable pub str_of : Python → Json → String
str_of py null = "None"
str_of py (bool true) = "True"
str_of py (bool false) = "False"
str_of py (text s) = s
str_of py v = py.show v

unfoldable pub str_or : Python → String → Json → String
unfolding str_of
str_or py default null = default
str_or py default v = str_of py v

-- `as_str` without a default
unfoldable pub as_str : Python → Fields → String → String
unfolding str_or get_value
as_str py d key = str_or py "" (get_value d key)

-- `[str(item) for item in value if item is not None]`
unfoldable pub strings : Python → Items → List String
unfolding str_of
strings py nil = []
strings py (cons null vs) = strings py vs
strings py (cons v vs) = str_of py v ∷ strings py vs

unfoldable pub strings_of : Python → Json → List String
unfolding strings
strings_of py (arr vs) = strings py vs
strings_of py _ = []

unfoldable pub as_str_list : Python → Fields → String → List String
unfolding strings_of get_value
as_str_list py d key = strings_of py (get_value d key)

-- `value.strip().lower()`
unfoldable pub normal : String → String
unfolding strip lower is_space
normal s = lower (strip is_space s)

unfoldable pub is_zero : ℤ → Bool
is_zero (pos zero) = true
is_zero _ = false

unfoldable pub bool_or : Bool → Json → Bool
unfolding normal elem is_zero
bool_or default null = default
bool_or default (bool b) = b
bool_or default (text s) = elem (normal s) ("true" ∷ "yes" ∷ "1" ∷ "approved" ∷ "pass" ∷ [])
bool_or default (num n) = not (is_zero n)
bool_or default (arr nil) = false
bool_or default (arr (cons v vs)) = true
bool_or default (obj end) = false
bool_or default (obj (field k v d)) = true

-- `as_bool` without a default
unfoldable pub as_bool : Fields → String → Bool
unfolding bool_or get_value
as_bool d key = bool_or false (get_value d key)

unfoldable pub or_default : ℤ → Option ℤ → ℤ
or_default default none = default
or_default default (some n) = n

unfoldable pub float_or : Python → ℤ → Json → ℤ
unfolding or_default
float_or py default (num n) = n
float_or py default (bool true) = py.one
float_or py default (bool false) = pos 0
float_or py default (text s) = or_default default (py.parse_float s)
float_or py default _ = default

-- `as_float` without a default
unfoldable pub as_float : Python → Fields → String → ℤ
unfolding float_or get_value
as_float py d key = float_or py (pos 0) (get_value d key)

-- The member of an enum with a value, `enum_cls(text)`: `none` is its ValueError.
unfoldable pub status_named : String → Option TaskStatus
status_named s =
    if s == "pending"
    then some pending
    else if s == "in_progress"
    then some in_progress
    else if s == "in_review"
    then some in_review
    else if s == "changes_requested"
    then some changes_requested
    else if s == "testing"
    then some testing
    else if s == "done"
    then some done
    else if s == "failed"
    then some failed
    else none

unfoldable pub change_named : String → Option ChangeType
change_named s =
    if s == "create"
    then some create
    else if s == "modify"
    then some modify
    else if s == "delete"
    then some delete
    else none

unfoldable pub kind_named : String → Option TestKind
kind_named s =
    if s == "unit"
    then some unit
    else if s == "integration"
    then some integration
    else if s == "e2e"
    then some e2e
    else none

unfoldable pub action_named : String → Option ReplanAction
action_named s =
    if s == "split"
    then some split
    else if s == "replace"
    then some replace
    else if s == "drop"
    then some drop
    else none

unfoldable pub severity_named : String → Option Severity
severity_named s =
    if s == "info"
    then some info
    else if s == "minor"
    then some minor
    else if s == "major"
    then some major
    else if s == "critical"
    then some critical
    else none

unfoldable pub member_or {ℓ} : {E : Type ℓ} → E → Option E → E
member_or default none = default
member_or default (some e) = e

-- `as_enum`, the enum given by its members' names.
unfoldable pub as_enum {ℓ} : {E : Type ℓ} → (String → Option E) → Json → E → E
unfolding member_or normal
as_enum named (text s) default = member_or default (named (normal s))
as_enum named _ default = default

-- `_SEVERITY_SYNONYMS.get(text, Severity.MAJOR)`
unfoldable pub severity_synonym : String → Severity
severity_synonym s =
    if s == "blocker"
    then critical
    else if s == "high"
    then major
    else if s == "medium"
    then minor
    else if s == "low"
    then info
    else major

unfoldable pub as_severity : Json → Severity
unfolding member_or severity_synonym severity_named normal
as_severity null = info
as_severity (text s) = let t = normal s in member_or (severity_synonym t) (severity_named t)
as_severity _ = major

-- `[item for item in value if isinstance(item, dict)]`
unfoldable pub dicts : Items → List Fields
dicts nil = []
dicts (cons (obj d) vs) = d ∷ dicts vs
dicts (cons _ vs) = dicts vs

unfoldable pub dicts_of : Json → List Fields
unfolding dicts
dicts_of (arr vs) = dicts vs
dicts_of _ = []

unfoldable pub as_obj_list : Fields → String → List Fields
unfolding dicts_of get_value
as_obj_list d key = dicts_of (get_value d key)
