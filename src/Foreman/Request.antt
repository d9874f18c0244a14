-- ===== src/Foreman/Request.antt =====
-- src/dev_team/dispatch.py, foreman_run: the request, and what becomes of the batch.
use dev_team.Prelude.{
  ℕ, String, Bool, not, ◌&&◌, ◌⊎◌, inl, inr, Option, none, some, List, [], ◌∷◌, ◌++◌, leb,
  if◌then◌else◌, is_empty, elem, ◌==◌,
}
use dev_team.Prelude.Int.{ℤ, pos, negsuc}
use dev_team.Dispatch.{
  todo, JobRecord, Dispatcher, cancel_job, CancelReply, unknown_job, was_cancelled, not_queued,
}
use dev_team.Prelude.Dict.{get}
use dev_team.Backlog.{Story, Backlog, story_ids}
use dev_team.Foreman.{
  default_max_stories, max_stories_ceiling, is_blank_text, Enqueued, Skipped, Batch, Service,
  deliver_batch,
}

-- A number of the body: `other` is a value that is not a number of the right kind.
pub data Asked : Type 0 where
  absent other : Asked
  number : ℤ → Asked

-- The body; a repository that is not a text counts as an empty one.
pub record ForemanRequest : Type 0 where
  pub budget_usd : Asked
  pub max_stories : Asked
  pub repo : Option String

pub data Problem : Type 0 where
  no_workspace bad_budget bad_count count_out_of_range blank_repo unparsable_repo : Problem

pub data ForemanReply : Type 0 where
  refused : Problem → ForemanReply
  write_failed : (cancelled uncancellable : List Enqueued) → ForemanReply
  ran : List Enqueued → List Skipped → ForemanReply

-- `_valid_budget`: the budget, where it is valid.
unfoldable pub valid_budget : Asked → Option ℤ
valid_budget absent = none
valid_budget other = none
valid_budget (number (pos n)) = if leb 1 n then some (pos n) else none
valid_budget (number (negsuc n)) = none

-- `max_stories` where it is from 1 up to the ceiling.
unfoldable pub count_asked : Asked → Problem ⊎ ℕ
count_asked absent = inr default_max_stories
count_asked other = inl bad_count
count_asked (number (pos n)) =
    if leb 1 n && leb n max_stories_ceiling then inr n else inl count_out_of_range
count_asked (number (negsuc n)) = inl count_out_of_range

unfoldable pub repo_problem : Service → Option String → Option Problem
unfolding is_blank_text
repo_problem service none = none
repo_problem service (some repo) =
    if is_blank_text repo
    then some blank_repo
    else if service.parses repo
    then none
    else some unparsable_repo

-- `_write_back_story`, as a cancellation calls it: the first story with the id is to do again, and
-- has no job.
unfoldable pub reset_story : String → List Story → List Story
reset_story story_id [] = []
reset_story story_id (s ∷ ss) =
    let rest = reset_story story_id ss in
    if s.id == story_id then record s { status = todo; delivery_job = none } ∷ ss else s ∷ rest

unfoldable pub write_back_todo : (Backlog → Bool) → Option String → Backlog → Backlog
write_back_todo can_write none b = b
write_back_todo can_write (some story_id) b =
    let after : Backlog = record { stories = reset_story story_id b.stories } in
    if elem story_id (story_ids b) && can_write after then after else b

-- `record.spec.story_id`
unfoldable pub story_of : Option JobRecord → Option String
story_of none = none
story_of (some r) = r.spec.story_id

-- The jobs that were cancelled, those that were not, and what is stored then.
pub record Cancellation : Type 0 where
  pub cancelled : List Enqueued
  pub uncancellable : List Enqueued
  pub backlog : Backlog
  pub dispatcher : Dispatcher

-- The reply to one cancellation, given the backlog after its write-back.
unfoldable pub record_reply :
    Enqueued → Backlog → Dispatcher × CancelReply → Cancellation → Cancellation
record_reply entry b (d, was_cancelled) c = record {
  cancelled = c.cancelled ++ entry ∷ [];
  uncancellable = c.uncancellable;
  backlog = b;
  dispatcher = d;
}
record_reply entry b (d, unknown_job) c = record c {
  uncancellable = c.uncancellable ++ entry ∷ [];
  dispatcher = d;
}
record_reply entry b (d, not_queued st) c = record c {
  uncancellable = c.uncancellable ++ entry ∷ [];
  dispatcher = d;
}

-- The compensation of a write that failed; other threads act before each cancellation.
unfoldable pub cancel_all : Service → List Enqueued → Cancellation → Cancellation
cancel_all service [] c = c
cancel_all service (entry ∷ entries) c =
    let before = service.before_cancel entry.job_id c.dispatcher in
    let written =
      write_back_todo (service.can_write_back entry.job_id)
        (story_of (get before.registry entry.job_id)) c.backlog in
    cancel_all service entries (record_reply entry written (cancel_job entry.job_id before) c)

-- The reply, the backlog as it is stored, and the dispatcher.
pub record RunOutcome : Type 0 where
  pub reply : ForemanReply
  pub backlog : Backlog
  pub dispatcher : Dispatcher

unfoldable pub cancelled_run : Cancellation → RunOutcome
cancelled_run c = record {
  reply = write_failed c.cancelled c.uncancellable;
  backlog = c.backlog;
  dispatcher = c.dispatcher;
}

-- From `if enqueued` on, for the stories and the batch that the loop leaves.
unfoldable pub stored_run : Service → Backlog → List Story × Batch → RunOutcome
stored_run service b (stories, batch) =
    let after : Backlog = record { stories = stories } in
    let reply = ran batch.enqueued batch.skipped in
    if is_empty batch.enqueued
    then record { reply = reply; backlog = b; dispatcher = batch.dispatcher }
    else if service.can_save after
    then record { reply = reply; backlog = after; dispatcher = batch.dispatcher }
    else cancelled_run (
        cancel_all service batch.enqueued (record {
          cancelled = [];
          uncancellable = [];
          backlog = b;
          dispatcher = batch.dispatcher;
        }))

unfoldable pub refused_run : Problem → Backlog → Dispatcher → RunOutcome
refused_run problem b d = record { reply = refused problem; backlog = b; dispatcher = d }

unfoldable pub counted_run :
    Service → ℤ → Option String → Problem ⊎ ℕ → Option Problem → Backlog → Dispatcher → RunOutcome
counted_run service budget repo (inl problem) _ b d = refused_run problem b d
counted_run service budget repo (inr max_stories) (some problem) b d = refused_run problem b d
counted_run service budget repo (inr max_stories) none b d =
    stored_run service b (deliver_batch service budget max_stories repo b d)

unfoldable pub paid_run : Service → ForemanRequest → Option ℤ → Backlog → Dispatcher → RunOutcome
paid_run service request none b d = refused_run bad_budget b d
paid_run service request (some budget) b d =
    counted_run service budget request.repo (count_asked request.max_stories)
      (repo_problem service request.repo) b d

-- `foreman_run`, for the stored backlog
unfoldable pub foreman_run : Service → ForemanRequest → Backlog → Dispatcher → RunOutcome
foreman_run service request b d =
    if not service.has_workspace
    then refused_run no_workspace b d
    else paid_run service request (valid_budget request.budget_usd) b d
