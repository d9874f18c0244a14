-- ===== src/Backlog/Tests.antt =====
-- A small backlog, and the theorems about it.
use dev_team.Prelude.{none, ◌≤◌, ◌≡◌, refl, false, some, [], ◌∷◌, map, elem, filter, All, arith}
use dev_team.Prelude.Decimal.{numbered, after_prefix, str, value, isdigit}
use dev_team.Dispatch.{todo, done}
use dev_team.Backlog.{
  Story, Backlog, story_ids, suffix_number, raised_to, highest_number, mint_id, add_story,
  delete_story, fill, ready_stories, plan_iteration, committed_points, is_todo,
}
use dev_team.Backlog.MintId.{add_story-delete_story, mint_id-fresh}
use dev_team.Backlog.Iterations.{DoesNotFit, plan_iteration-greedy}

abbrev backlog : Backlog
backlog = record {
  stories =
      record {
        id = "S1";
        title = "a";
        description = "";
        estimate = 3;
        status = todo;
        source_job = none;
        depends_on = [];
        delivery_job = none;
      }
      ∷ record {
        id = "S12";
        title = "b";
        description = "";
        estimate = 4;
        status = todo;
        source_job = none;
        depends_on = "S1" ∷ [];
        delivery_job = none;
      }
      ∷ record {
        id = "Sx";
        title = "c";
        description = "";
        estimate = 1;
        status = done;
        source_job = none;
        depends_on = [];
        delivery_job = none;
      }
      ∷ record {
        id = "other";
        title = "d";
        description = "";
        estimate = 2;
        status = todo;
        source_job = none;
        depends_on = [];
        delivery_job = none;
      }
      ∷ [];
}

mint_id-backlog : mint_id "S" (story_ids backlog) ≡ "S13"
unfolding mint_id highest_number raised_to suffix_number after_prefix isdigit value numbered str
mint_id-backlog = refl

plan_iteration-backlog : map (λ (s : Story). s.id) (plan_iteration 5 backlog) ≡ "S1" ∷ "other" ∷ []
unfolding plan_iteration fill ready_stories is_todo filter
plan_iteration-backlog = refl

mint_id-fresh_example : elem (mint_id "S" (story_ids backlog)) (story_ids backlog) ≡ false
mint_id-fresh_example = mint_id-fresh "S" (story_ids backlog)

add_story-delete_story_example :
    (b' b'' : Backlog) × (add_story "e" "" 2 none backlog ≡ some b')
    × (delete_story (mint_id "S" (story_ids backlog)) b' ≡ some b'')
    × (mint_id "S" (story_ids b'') ≡ mint_id "S" (story_ids backlog))
add_story-delete_story_example = add_story-delete_story "e" "" 2 none backlog (omega arith)

plan_iteration-greedy_example :
    (committed_points (plan_iteration 5 backlog) ≤ 5)
    × All (DoesNotFit 5 (plan_iteration 5 backlog)) (ready_stories backlog)
plan_iteration-greedy_example = plan_iteration-greedy 5 backlog
