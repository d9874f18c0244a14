-- ===== src/Backlog.antt =====
-- src/dev_team/backlog.py: the product backlog, its ids and its iterations, with the deletion of a
-- story by delete_story of src/dev_team/dispatch.py. The fields of a
-- story that these and src/dev_team/foreman.py read are kept. Ids are taken to be of ASCII characters, where `isdigit` and `int` are of plain digits.
pub mod MintId
pub mod Iterations
pub mod Tests
use dev_team.Prelude.{
  ℕ, zero, suc, ◌+◌, ◌-◌, max, String, Bool, true, false, not, ◌&&◌, Option, none, some, List, [],
  ◌∷◌, ◌++◌, map, ◌==◌, leb, if◌then◌else◌, filter, elem,
}
use dev_team.Prelude.Decimal.{value, isdigit, numbered, after_prefix}
use dev_team.Dispatch.{ItemStatus, todo, in_progress, done, blocked, declined}

pub record Story : Type 0 where
  pub id : String
  pub title : String
  pub description : String
  pub estimate : ℕ
  pub status : ItemStatus
  pub source_job : Option String
  pub depends_on : List String
  pub delivery_job : Option String

pub record Backlog : Type 0 where
  pub stories : List Story

abbrev pub story_ids : Backlog → List String
story_ids b = map (λ s. s.id) b.stories

-- The number of an id that begins with the prefix, and goes on with digits alone.
suffix_number : Option String → Option ℕ
suffix_number none = none
suffix_number (some suffix) = if isdigit suffix then some (value suffix 0) else none

raised_to : ℕ → Option ℕ → ℕ
raised_to highest none = highest
raised_to highest (some n) = max highest n

-- The loop of `_mint_id`.
highest_number : String → ℕ → List String → ℕ
highest_number prefix highest [] = highest
highest_number prefix highest (item_id ∷ rest) =
    highest_number prefix (raised_to highest (suffix_number (after_prefix prefix item_id))) rest

pub mint_id : String → List String → String
mint_id prefix existing = numbered prefix (suc (highest_number prefix 0 existing))

-- The story of `add_story`.
abbrev pub new_story : String → String → ℕ → Option String → Backlog → Story
new_story title description estimate source_job b = record {
  id = mint_id "S" (story_ids b);
  title = title;
  description = description;
  estimate = estimate;
  status = todo;
  source_job = source_job;
  depends_on = [];
  delivery_job = none;
}

-- `none` is the ValueError of an estimate below 1.
pub add_story : String → String → ℕ → Option String → Backlog → Option Backlog
add_story title description estimate source_job b =
    if leb 1 estimate
    then some
        (record { stories = b.stories ++ new_story title description estimate source_job b ∷ [] })
    else none

-- `backlog.stories.remove`: the first story with this id.
remove_first : String → List Story → List Story
remove_first story_id [] = []
remove_first story_id (s ∷ ss) =
    let rest = remove_first story_id ss in if s.id == story_id then ss else s ∷ rest

without_edge : String → Story → Story
without_edge story_id s = record s { depends_on = filter (λ d. not (d == story_id)) s.depends_on }

-- `none` is the 404.
pub delete_story : String → Backlog → Option Backlog
delete_story story_id b =
    if elem story_id (story_ids b)
    then some (record { stories = map (without_edge story_id) (remove_first story_id b.stories) })
    else none

unfoldable pub is_todo : ItemStatus → Bool
is_todo todo = true
is_todo _ = false

pub ready_stories : Backlog → List Story
ready_stories b = filter (λ s. is_todo s.status) b.stories

-- The loop of `plan_iteration`.
pub fill : ℕ → List Story → List Story
fill remaining [] = []
fill remaining (s ∷ ss) =
    let taken = fill (remaining - s.estimate) ss in
    let passed = fill remaining ss in if leb s.estimate remaining then s ∷ taken else passed

pub committed_points : List Story → ℕ
committed_points [] = 0
committed_points (s ∷ ss) = s.estimate + committed_points ss

pub plan_iteration : ℕ → Backlog → List Story
plan_iteration capacity b = fill capacity (ready_stories b)
