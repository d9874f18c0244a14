-- ===== src/Workspace.antt =====
-- src/dev_team/execution.py: the paths of the workspace, and its in-memory implementation; and
-- src/dev_team/changes.py: the test for a CI workflow file. Paths are split and joined in
-- Prelude/Split.antt.
pub mod Paths
pub mod Files
pub mod Tests
use dev_team.Prelude.{
  String, Bool, true, false, not, ◌&&◌, ◌||◌, Option, none, some, List, [], ◌∷◌, ◌==◌,
  if◌then◌else◌, filter,
}
use dev_team.Prelude.Dict.{Dict, get, has, set, remove}
use dev_team.Prelude.Split.{split, join, starts_with_slash}

-- What `_normalise` returns or raises.
pub data Normalised : Type 0 where
  normalised : String → Normalised
  absolute_path escaping_path empty_path : Normalised

pub is_skipped : String → Bool
is_skipped part = part == "" || part == "."

with_part : String → Option (List String) → Option (List String)
with_part part none = none
with_part part (some parts) = some (part ∷ parts)

-- The loop of `_normalise`; `none` is the error for a part "..".
pub collect_parts : List String → Option (List String)
collect_parts [] = some []
collect_parts (part ∷ rest) =
    let more = collect_parts rest in
    if is_skipped part then more else if part == ".." then none else with_part part more

joined : Option (List String) → Normalised
joined none = escaping_path
joined (some []) = empty_path
joined (some (p ∷ ps)) = normalised (join (p ∷ ps))

pub normalise : String → Normalised
normalise path =
    if starts_with_slash path then absolute_path else joined (collect_parts (split path))

is_workflow_start : List String → Bool
is_workflow_start (p ∷ q ∷ ps) = p == ".github" && (q == "workflows")
is_workflow_start _ = false

-- `tuple(parts[:2]) == CI_WORKFLOW_SEGMENTS`
pub is_ci_workflow_path : String → Bool
is_ci_workflow_path path = is_workflow_start (filter (λ part. not (is_skipped part)) (split path))

pub record InMemoryWorkspace : Type 0 where
  pub files : Dict String

-- A workspace operation returns, or raises WorkspaceError for its path, or for a missing file.
pub data Result (A : Type 0) : Type 0 where
  ok : A → Result A
  bad_path : Normalised → Result A
  no_such_file : Result A

pub with_key : {A : Type 0} → Normalised → (String → Result A) → Result A
with_key (normalised key) f = f key
with_key n f = bad_path n

found : Option String → Result String
found none = no_such_file
found (some content) = ok content

pub read_text : String → InMemoryWorkspace → Result String
read_text path w = with_key (normalise path) (λ key. found (get w.files key))

pub write_text : String → String → InMemoryWorkspace → Result InMemoryWorkspace
write_text path content w =
    with_key (normalise path) (λ key. ok (record { files = set w.files key content }))

pub exists : String → InMemoryWorkspace → Result Bool
exists path w = with_key (normalise path) (λ key. ok (has w.files key))

pub delete : String → InMemoryWorkspace → Result InMemoryWorkspace
delete path w = with_key (normalise path) (λ key. ok (record { files = remove w.files key }))
