-- ===== src/Replan.antt =====
-- src/dev_team/replan.py: a failed task is split, replaced or dropped. The checks raise in the order
-- of the source; the messages are left out.
pub mod UniqueId
pub mod Ids
pub mod Accepted
pub mod Tests
use dev_team.Prelude.{
  ℕ, zero, suc, ◌+◌, String, Bool, true, false, not, ◌&&◌, ◌||◌, Option, none, some, List, [], ◌∷◌,
  ◌++◌, map, ◌==◌, leb, eqb, if◌then◌else◌, length, is_empty, filter, elem,
}
use dev_team.Prelude.Dict.{Dict, get, set}
use dev_team.Prelude.Decimal.{suffixed}
use dev_team.Models.{Task, Plan, ids}
use dev_team.Ordering.{Issue, lint_plan}

pub data ReplanAction : Type 0 where
  split replace drop : ReplanAction

pub record Replan : Type 0 where
  pub action : ReplanAction
  pub failed_task_id : String
  pub replacements : List Task
  pub rationale : String

-- `none` is "at least two".
required_replacements : ReplanAction → Option ℕ
required_replacements drop = some 0
required_replacements replace = some 1
required_replacements split = none

is_count_right : Option ℕ → ℕ → Bool
is_count_right none count = leb 2 count
is_count_right (some required) count = eqb count required

-- The loop of `_unique_id`.
probe : ℕ → String → List String → ℕ → String
probe zero candidate taken n = suffixed candidate n
probe (suc fuel) candidate taken n =
    let rest = probe fuel candidate taken (suc n) in
    if elem (suffixed candidate n) taken then rest else suffixed candidate n

-- As many rounds as there are ids taken are enough.
pub unique_id : String → List String → String
unique_id candidate taken =
    if elem candidate taken then probe (length taken) candidate taken 2 else candidate

-- The loop that fills `remap`.
pub assign_ids : List String → Dict String → List Task → Dict String
assign_ids taken remap [] = remap
assign_ids taken remap (repl ∷ rest) =
    let final = unique_id repl.id taken in assign_ids (final ∷ taken) (set remap repl.id final) rest

-- `remap.get(dep, dep)`, and `remap[repl.id]`, where the id is present.
pub lookup_or : Dict String → String → String
lookup_or remap tid = elim (get remap tid) [ none ↦ tid | some final ↦ final ]

-- `dict.fromkeys`: each id where it stands first.
without_repeats : List String → List String → List String
without_repeats seen [] = []
without_repeats seen (d ∷ ds) =
    let rest = without_repeats (d ∷ seen) ds in if elem d seen then rest else d ∷ rest

module _ (failed : String) (remap : Dict String) (replacement_ids : List String) where
  -- The loop of `_rewire`.
  rewire_all : Bool → List String → List String
  rewire_all is_replacement [] = []
  rewire_all is_replacement (dep ∷ deps) =
      let rest = rewire_all is_replacement deps in
      if dep == failed
      then (if is_replacement then rest else replacement_ids ++ rest)
      else if is_replacement
      then lookup_or remap dep ∷ rest
      else dep ∷ rest

  rewire : Bool → List String → List String
  rewire is_replacement deps = without_repeats [] (rewire_all is_replacement deps)

  pub build_replacement : Task → Task
  build_replacement repl = record repl {
    id = lookup_or remap repl.id;
    dependencies = rewire true repl.dependencies;
  }

  -- The loop that builds `tasks`.
  pub splice : List Task → List Task → List Task
  splice built [] = []
  splice built (t ∷ ts) =
      let rest = splice built ts in
      if t.id == failed
      then built ++ rest
      else record t { dependencies = rewire false t.dependencies } ∷ rest

pub survivors : Plan → String → List String
survivors plan failed = filter (λ tid. not (tid == failed)) (ids plan.tasks)

pub remap_of : Plan → Replan → Dict String
remap_of plan decision =
    assign_ids (survivors plan decision.failed_task_id) [] decision.replacements

pub replacement_ids_of : Plan → Replan → List String
replacement_ids_of plan decision =
    map (λ r. lookup_or (remap_of plan decision) r.id) decision.replacements

pub new_plan : Plan → Replan → Plan
new_plan plan decision =
    let failed = decision.failed_task_id in
    let remap = remap_of plan decision in
    let new_ids = replacement_ids_of plan decision in
    record plan {
      tasks =
          splice failed remap new_ids
            (map (build_replacement failed remap new_ids) decision.replacements) plan.tasks;
    }

pub data Replanned : Type 0 where
  replanned : Plan → Replanned
  no_such_task : String → Replanned
  wrong_count : ReplanAction → ℕ → Replanned
  invalid_graph : List Issue → Replanned

linted : Plan → List Issue → Replanned
linted plan [] = replanned plan
linted plan (i ∷ is) = invalid_graph (i ∷ is)

pub apply_replan : Plan → Replan → Replanned
apply_replan plan decision =
    let count = length decision.replacements in
    if not (elem decision.failed_task_id (ids plan.tasks))
    then no_such_task decision.failed_task_id
    else if not (is_count_right (required_replacements decision.action) count)
    then wrong_count decision.action count
    else linted (new_plan plan decision) (lint_plan (new_plan plan decision))
