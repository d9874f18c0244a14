-- ===== src/Foreman/Tests.antt =====
-- The foreman over a concrete backlog.
use Prim.Native.String.{◌++◌ as ◌<>◌}
use dev_team.Prelude.{
  ◌≡◌, refl, String, true, none, some, List, [], ◌∷◌, map, all, elem, filter, length,
}
use dev_team.Prelude.Int.{pos}
use dev_team.Prelude.Decimal.{str}
use dev_team.Prelude.Dict.{set}
use dev_team.Dispatch.{
  ItemStatus, todo, done, blocked, declined, Dispatcher, initial, submit, put, count_queued,
}
use dev_team.Backlog.{Story, Backlog, is_todo}
use dev_team.Foreman.{
  Service, ready_for_delivery, story_job_description, deliver_batch, deliver_stories, deliver_story,
  is_ready, satisfied_ids, attempt, or_fallback, submit_story, after_submit, is_blank_text, skip,
}
use dev_team.Foreman.Request.{
  number, ForemanRequest, refused, foreman_run, count_out_of_range, valid_budget, counted_run,
  count_asked, refused_run, paid_run, repo_problem, stored_run,
}
use dev_team.Foreman.Runs.{RunEnds, foreman_run-RunEnds}

abbrev card : String → ItemStatus → List String → Story
card id status depends_on = record {
  id = id;
  title = "t";
  description = "  ";
  estimate = 1;
  status = status;
  source_job = none;
  depends_on = depends_on;
  delivery_job = none;
}

abbrev board : Backlog
board = record {
  stories =
      card "S1" done []
      ∷ card "S2" todo ("S1" ∷ [])
      ∷ card "S3" todo ("S2" ∷ [])
      ∷ card "S4" declined []
      ∷ card "S5" todo ("S4" ∷ [])
      ∷ card "S6" blocked []
      ∷ card "S7" todo []
      ∷ [];
}

ready_board : map (λ (s : Story). s.id) (ready_for_delivery board) ≡ "S2" ∷ "S5" ∷ "S7" ∷ []
unfolding ready_for_delivery filter all elem is_todo
ready_board = refl

blank_description : story_job_description (card "S2" todo []) ≡ "Implement backlog story S2: t"
unfolding story_job_description
blank_description = refl

-- The other threads do nothing here, and every repository parses.
abbrev quiet : Service
quiet = record {
  queue_cap = 4;
  story_repo = λ s. none;
  parses = λ r. true;
  next_id = λ (d : Dispatcher). "deliver-" <> str (length d.order);
  meanwhile = λ n d. d;
  before_cancel = λ j d. d;
  can_save = λ b. true;
  can_write_back = λ j b. true;
  has_workspace = true;
}

abbrev two_stories : ForemanRequest
two_stories = record {
  budget_usd = number (pos 5);
  max_stories = number (pos 2);
  repo = some "o/r";
}

foreman_run-RunEnds_example :
    RunEnds quiet two_stories board initial (foreman_run quiet two_stories board initial)
foreman_run-RunEnds_example = foreman_run-RunEnds quiet two_stories board initial

too_many :
    (foreman_run quiet (record two_stories { max_stories = number (pos 11) }) board initial).reply
    ≡ refused count_out_of_range
unfolding foreman_run valid_budget counted_run count_asked refused_run paid_run
too_many = refl

statuses :
    map
      (λ (s : Story). s.delivery_job)
      (foreman_run quiet two_stories board initial).backlog.stories
    ≡ none ∷ some "deliver-0" ∷ none ∷ none ∷ some "deliver-1" ∷ none ∷ none ∷ []
unfolding foreman_run valid_budget counted_run count_asked refused_run repo_problem stored_run
    deliver_batch deliver_stories deliver_story is_ready is_todo all satisfied_ids filter attempt
    or_fallback submit_story after_submit is_blank_text skip submit count_queued put elem str set
    paid_run
statuses = refl
