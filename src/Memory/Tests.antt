-- ===== src/Memory/Tests.antt =====
-- Runs one after another, at concrete values.
use dev_team.Prelude.{
  ℕ, zero, suc, ◌≡◌, refl, String, true, Option, none, some, List, [], ◌∷◌, ◌==◌, length, elem,
  distinct, if◌then◌else◌, ◌+◌, ◌++◌,
}
use dev_team.Prelude.Dict.{get}
use dev_team.Prelude.Decimal.{str}
use dev_team.Memory.{
  DecisionRecord, Blackboard, new_blackboard, Stored, notes, decision_id, record_decision, seeded,
  save, prior_of, unseen, tail_of, drop_first, notes_of, max_decisions, max_retro_notes,
  RunCheckpoint, mark_done, is_done, path_for, save_checkpoint, load_checkpoint,
}
use dev_team.Memory.Merge.{decision_ids, FirstOfIds, IsLast, save_lem}
use dev_team.Memory.Numbering.{save-record_decision_full}
use dev_team.Memory.Checkpoints.{load_checkpoint-save}

run_once : Option Stored → Stored
run_once stored =
    save stored (record_decision "Architecture" "" "" "" (seeded stored new_blackboard))

runs : ℕ → Option Stored
runs zero = none
runs (suc n) = some (run_once (runs n))

abbrev after_51 : Stored
after_51 = prior_of (runs 51)

full_log : length after_51.decisions ≡ max_decisions
unfolding runs run_once save record_decision seeded new_blackboard unseen tail_of drop_first
    prior_of elem str
full_log = refl

distinct_log : distinct (decision_ids after_51.decisions) ≡ true
unfolding runs run_once save record_decision seeded new_blackboard unseen tail_of drop_first
    prior_of elem str distinct
distinct_log = refl

numbered_log : elem (decision_id (suc max_decisions)) (decision_ids after_51.decisions) ≡ true
unfolding runs run_once save record_decision seeded new_blackboard unseen tail_of drop_first
    prior_of elem str decision_id
numbered_log = refl

save-record_decision_full_example :
    (save
      (some after_51)
      (record_decision "New" "" "" "" (seeded (some after_51) new_blackboard))).decisions
    ≡ after_51.decisions
unfolding new_blackboard
save-record_decision_full_example =
    save-record_decision_full after_51 new_blackboard "New" "" "" "" refl refl full_log distinct_log
      numbered_log

abbrev noted : Blackboard
noted = record {
  entries = ("goal", notes []) ∷ ("retrospective", notes ("slow tests" ∷ [])) ∷ [];
  artifacts = [];
  decisions = [];
  decision_seq = 0;
}

save_lem_example :
    let after = save (some after_51) noted in
    (((merged : List DecisionRecord) × FirstOfIds [] (after_51.decisions ++ noted.decisions) merged
        × IsLast max_decisions merged after.decisions)
      × (distinct (decision_ids after.decisions) ≡ true))
    × IsLast max_retro_notes
        (notes_of (get after_51.entries "retrospective")
          ++ notes_of (get noted.entries "retrospective"))
        (notes_of (get after.entries "retrospective"))
    × (get after.entries "goal" ≡ get noted.entries "goal")
    × (after.artifacts ≡ noted.artifacts)
    × (after.runs ≡ after_51.runs + 1)
unfolding prior_of
save_lem_example = save_lem (some after_51) noted "goal" refl

abbrev tail_digest : String → String
tail_digest s = s

abbrev login : RunCheckpoint
login = record {
  feature_title = "Login";
  done_task_ids = [];
  fingerprints = [];
  baseline_sha = none;
  plan = none;
}

load_checkpoint-save_example :
    ((tid fp : String)
      → is_done tid fp (
          load_checkpoint tail_digest "Login"
            (save_checkpoint tail_digest (mark_done "T1" "f1" login) []))
        ≡ (if "T1" == tid then "f1" == fp else is_done tid fp login))
    × (load_checkpoint tail_digest "Logout"
          (save_checkpoint tail_digest (mark_done "T1" "f1" login) [])
        ≡ load_checkpoint tail_digest "Logout" [])
unfolding path_for
load_checkpoint-save_example = load_checkpoint-save tail_digest login [] "T1" "f1" "Logout" refl
