-- ===== src/Memory.antt =====
-- src/dev_team/memory.py: the team's blackboard, the memory that outlives a run, and checkpoints of
-- runs. What is stored as JSON is the value that is written; a file that cannot be read is `corrupt`.
-- The SHA-256 digest is a parameter.
pub mod Merge
pub mod Numbering
pub mod Checkpoints
pub mod Tests
use Prim.Native.String.{◌++◌ as ◌<>◌, [] as []ˢ, ◌∷◌ as ◌∷ˢ◌}
use dev_team.Prelude.{
  ℕ, zero, suc, ◌+◌, ◌-◌, max, String, Bool, true, false, not, ◌&&◌, Option, none, some, List, [],
  ◌∷◌, ◌++◌, ◌==◌, if◌then◌else◌, ltb, length, filter, elem, is_empty,
}
use dev_team.Prelude.Dict.{Dict, get, has, set, remove}
use dev_team.Prelude.Decimal.{str}
use dev_team.Models.{Plan}

pub record Artifact : Type 0 where
  pub kind : String
  pub key : String
  pub summary : String

pub record DecisionRecord : Type 0 where
  pub id : String
  pub title : String
  pub context : String
  pub decision : String
  pub consequences : String

-- A value of the working memory: a list of texts, such as the retrospective notes, or a text.
pub data Entry : Type 0 where
  notes : List String → Entry
  other : String → Entry

pub record Blackboard : Type 0 where
  pub entries : Dict Entry
  pub artifacts : List Artifact
  pub decisions : List DecisionRecord
  pub decision_seq : ℕ

unfoldable pub new_blackboard : Blackboard
new_blackboard = record { entries = []; artifacts = []; decisions = []; decision_seq = 0 }

unfoldable pub put : String → Entry → Blackboard → Blackboard
put key value b = record b { entries = set b.entries key value }

pub lookup_entry : Blackboard → String → Option Entry
lookup_entry b key = get b.entries key

pub has_entry : Blackboard → String → Bool
has_entry b key = has b.entries key

unfoldable pub post_artifact : String → String → String → Blackboard → Blackboard
post_artifact kind key summary b = record b {
  artifacts = b.artifacts ++ record { kind = kind; key = key; summary = summary } ∷ [];
}

pub artifacts_of_kind : String → Blackboard → List Artifact
artifacts_of_kind kind b = filter (λ a. a.kind == kind) b.artifacts

unfoldable pub seed_decision_ids : ℕ → Blackboard → Blackboard
seed_decision_ids count b = record b { decision_seq = max b.decision_seq count }

-- f"{n:03d}"
unfoldable pub padded : ℕ → String
padded n = if ltb n 10 then "00" <> str n else if ltb n 100 then "0" <> str n else str n

unfoldable pub decision_id : ℕ → String
unfolding padded
decision_id n = "ADR-" <> padded n

unfoldable pub record_decision : String → String → String → String → Blackboard → Blackboard
unfolding decision_id
record_decision title context decision consequences b =
    let n : ℕ = suc b.decision_seq in
    record b {
      decision_seq = n;
      decisions =
          b.decisions
          ++ record {
            id = decision_id n;
            title = title;
            context = context;
            decision = decision;
            consequences = consequences;
          }
            ∷ [];
    }

abbrev pub max_decisions : ℕ
max_decisions = 50

abbrev pub max_retro_notes : ℕ
max_retro_notes = 20

-- What `ProjectMemory` stores.
pub record Stored : Type 0 where
  pub entries : Dict Entry
  pub artifacts : List Artifact
  pub decisions : List DecisionRecord
  pub runs : ℕ

unfoldable pub nothing_stored : Stored
nothing_stored = record { entries = []; artifacts = []; decisions = []; runs = 0 }

-- `self.load() or {}`
unfoldable pub prior_of : Option Stored → Stored
unfolding nothing_stored
prior_of none = nothing_stored
prior_of (some stored) = stored

-- The loop of `save` over the decisions, with the ids that were seen.
unfoldable pub unseen : List String → List DecisionRecord → List DecisionRecord
unseen seen [] = []
unseen seen (r ∷ rs) =
    let rest = unseen (if elem r.id seen then seen else r.id ∷ seen) rs in
    if elem r.id seen then rest else r ∷ rest

module _ {ℓ} {A : Type ℓ} where
  unfoldable pub drop_first : ℕ → List A → List A
  drop_first zero xs = xs
  drop_first (suc n) [] = []
  drop_first (suc n) (x ∷ xs) = drop_first n xs

  -- `xs[-n:]`
  unfoldable pub tail_of : ℕ → List A → List A
  unfolding drop_first
  tail_of n xs = drop_first (length xs - n) xs

-- `list(text)`: its characters.
unfoldable pub characters : String → List String
characters []ˢ = []
characters (c ∷ˢ s) = (c ∷ˢ []ˢ) ∷ characters s

-- `list(value or [])`
unfoldable pub notes_of : Option Entry → List String
unfolding characters
notes_of none = []
notes_of (some (notes l)) = l
notes_of (some (other v)) = characters v

unfoldable pub with_notes : List String → Dict Entry → Dict Entry
unfolding tail_of
with_notes retro entries =
    if is_empty retro
    then entries
    else set entries "retrospective" (notes (tail_of max_retro_notes retro))

-- `ProjectMemory.save`: what is stored after it.
unfoldable pub save : Option Stored → Blackboard → Stored
unfolding prior_of unseen tail_of notes_of with_notes
save stored b =
    let prior = prior_of stored in
    record {
      entries =
          with_notes
            (notes_of (get prior.entries "retrospective")
              ++ notes_of (get b.entries "retrospective"))
            b.entries;
      artifacts = b.artifacts;
      decisions = tail_of max_decisions (unseen [] (prior.decisions ++ b.decisions));
      runs = prior.runs + 1;
    }

-- src/dev_team/engine.py: the numbering goes on after the stored decisions.
unfoldable pub seeded : Option Stored → Blackboard → Blackboard
unfolding seed_decision_ids prior_of
seeded stored b = seed_decision_ids (length (prior_of stored).decisions) b

pub record RunCheckpoint : Type 0 where
  pub feature_title : String
  pub done_task_ids : List String
  pub fingerprints : Dict String
  pub baseline_sha : Option String
  pub plan : Option Plan

unfoldable pub new_checkpoint : String → RunCheckpoint
new_checkpoint title = record {
  feature_title = title;
  done_task_ids = [];
  fingerprints = [];
  baseline_sha = none;
  plan = none;
}

unfoldable pub mark_done : String → String → RunCheckpoint → RunCheckpoint
mark_done task_id fingerprint c = record c {
  done_task_ids = c.done_task_ids ++ task_id ∷ [];
  fingerprints = set c.fingerprints task_id fingerprint;
}

unfoldable pub is_text : Option String → String → Bool
is_text none s = false
is_text (some t) s = t == s

unfoldable pub is_done : String → String → RunCheckpoint → Bool
unfolding is_text
is_done task_id fingerprint c =
    elem task_id c.done_task_ids && is_text (get c.fingerprints task_id) fingerprint

-- An empty sha reads as none.
unfoldable pub as_read : RunCheckpoint → RunCheckpoint
as_read c = record c {
  baseline_sha = elim c.baseline_sha [ none ↦ none | some s ↦ if s == "" then none else some s ];
}

-- What a checkpoint file holds.
pub data CheckpointFile : Type 0 where
  written : RunCheckpoint → CheckpointFile
  corrupt : CheckpointFile

module _ (digest : String → String) where
  unfoldable pub task_fingerprint : String → String → String
  task_fingerprint title description = digest (title <> ("\n" <> description))

  unfoldable pub path_for : String → String
  unfolding task_fingerprint
  path_for title = ".dev_team/checkpoint-" <> (task_fingerprint title "" <> ".json")

  unfoldable pub save_checkpoint : RunCheckpoint → Dict CheckpointFile → Dict CheckpointFile
  save_checkpoint c files = set files (path_for c.feature_title) (written c)

  -- `data.get("feature_title") != feature_title`, and the checkpoint that was read.
  unfoldable pub read_checkpoint : String → Option CheckpointFile → RunCheckpoint
  unfolding new_checkpoint as_read
  read_checkpoint title none = new_checkpoint title
  read_checkpoint title (some corrupt) = new_checkpoint title
  read_checkpoint title (some (written c)) =
      if c.feature_title == title then as_read c else new_checkpoint title

  unfoldable pub load_checkpoint : String → Dict CheckpointFile → RunCheckpoint
  unfolding read_checkpoint path_for
  load_checkpoint title files = read_checkpoint title (get files (path_for title))

  unfoldable pub clear_checkpoint : String → Dict CheckpointFile → Dict CheckpointFile
  clear_checkpoint title files = remove files (path_for title)
