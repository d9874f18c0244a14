-- ===== src/Foreman.antt =====
-- src/dev_team/foreman.py: which stories are ready, and the description of their jobs; and
-- src/dev_team/dispatch.py, foreman_run: the ready stories become jobs of the queue.
-- What the code takes from elsewhere is a parameter: the repository that the audit names for a story,
-- whether a repository parses, whether the backlog can be written, and the id of the next job. Other
-- threads hold the dispatcher's lock between two submissions, and before a cancellation, so that an
-- arbitrary function of the dispatcher stands for what they do. Of a job's specification the
-- fields that the run fills are kept, but for its mode, and times are left out. Budgets are integers
-- of a small unit. While a failed write is made good, other threads do not write the backlog.
pub mod Request
pub mod Deliveries
pub mod Cancels
pub mod Runs
pub mod Tests
use Prim.Native.String.{◌++◌ as ◌<>◌}
use dev_team.Prelude.{
  ℕ, zero, suc, ◌+◌, String, Bool, true, false, not, ◌&&◌, ◌||◌, ◌⊎◌, inl, inr, Option, none, some,
  List, [], ◌∷◌, ◌++◌, map, ◌==◌, leb, if◌then◌else◌, filter, all, elem, is_empty,
}
use dev_team.Prelude.Int.{ℤ, pos, negsuc, le}
use dev_team.Prelude.Chars.{is_blank, is_space, strip}
use dev_team.Dispatch.{
  ItemStatus, todo, in_progress, done, blocked, declined, JobSpec, Dispatcher, submit, put,
  cancel_job, CancelReply, unknown_job, was_cancelled, not_queued,
}
use dev_team.Backlog.{Story, Backlog, is_todo}

abbrev pub default_max_stories : ℕ
default_max_stories = 3

abbrev pub max_stories_ceiling : ℕ
max_stories_ceiling = 10

-- `status in _SATISFIED`
unfoldable pub is_satisfied : ItemStatus → Bool
is_satisfied done = true
is_satisfied declined = true
is_satisfied _ = false

unfoldable pub satisfied_ids : Backlog → List String
unfolding is_satisfied
satisfied_ids b = map (λ (s : Story). s.id) (filter (λ s. is_satisfied s.status) b.stories)

-- Whether a story is ready, given the ids of the stories that satisfy an edge.
unfoldable pub is_ready : List String → Story → Bool
unfolding elem
is_ready satisfied story = is_todo story.status && all (λ dep. elem dep satisfied) story.depends_on

unfoldable pub ready_for_delivery : Backlog → List Story
unfolding is_ready satisfied_ids
ready_for_delivery b = filter (is_ready (satisfied_ids b)) b.stories

-- `not s.strip()`
unfoldable pub is_blank_text : String → Bool
unfolding strip is_space is_blank
is_blank_text s = is_blank (strip is_space s)

unfoldable pub story_job_description : Story → String
unfolding is_blank_text
story_job_description story =
    if not (is_blank_text story.description)
    then story.description
    else "Implement backlog story " <> (story.id <> (": " <> story.title))

pub data SkipReason : Type 0 where
  no_title no_repository queue_full : SkipReason

pub record Enqueued : Type 0 where
  pub job_id : String
  pub story_id : String
  pub title : String
  pub position : ℕ

pub record Skipped : Type 0 where
  pub story_id : String
  pub reason : SkipReason

-- The variables of the loop, with the dispatcher that `submit` acts on.
pub record Batch : Type 0 where
  pub attempts : ℕ
  pub is_full : Bool
  pub enqueued : List Enqueued
  pub skipped : List Skipped
  pub dispatcher : Dispatcher

pub record Service : Type 0 where
  pub queue_cap : ℕ
  pub story_repo : Story → Option String
  pub parses : String → Bool
  pub next_id : Dispatcher → String
  pub meanwhile : ℕ → Dispatcher → Dispatcher
  pub before_cancel : String → Dispatcher → Dispatcher
  pub can_save : Backlog → Bool
  pub can_write_back : String → Backlog → Bool
  pub has_workspace : Bool

-- `skipped.append(...)`
unfoldable pub skip : Story → SkipReason → Batch → Batch
skip story reason batch = record batch {
  skipped = batch.skipped ++ record { story_id = story.id; reason = reason } ∷ [];
}

unfoldable pub or_fallback : Option String → Option String → Option String
or_fallback none fallback_repo = fallback_repo
or_fallback (some repo) fallback_repo = some repo

-- A story whose job is in the queue.
abbrev pub assigned : String → Story → Story
assigned job_id story = record story { status = in_progress; delivery_job = some job_id }

-- What follows `submit`: `none` is QueueFull.
unfoldable pub after_submit : Story → String → Batch → Option (Dispatcher × ℕ) → Story × Batch
after_submit story job_id batch none =
    (story, skip story queue_full (record batch { is_full = true }))
after_submit story job_id batch (some (d, place)) = (
  assigned job_id story,
  record batch {
    enqueued =
        batch.enqueued
        ++ record { job_id = job_id; story_id = story.id; title = story.title; position = place }
          ∷ [];
    dispatcher = put job_id d;
  },
)

-- `JobSpec(...)`
unfoldable pub job_spec : ℤ → Story → String → JobSpec
job_spec budget story repo = record {
  repo = repo;
  title = story.title;
  description = story_job_description story;
  budget_usd = some budget;
  story_id = some story.id;
}

module _ (service : Service) (budget : ℤ) where
  -- `self.submit(spec)`, after what the other threads did.
  unfoldable pub submit_story : Story → String → Batch → Story × Batch
  submit_story story repo batch =
      let before = service.meanwhile batch.attempts batch.dispatcher in
      let job_id = service.next_id before in
      after_submit story job_id (record batch { dispatcher = before })
        (submit service.queue_cap job_id (job_spec budget story repo) before)

  -- A story with a title, from `attempts += 1` on; `none` is a story without a repository.
  unfoldable pub attempt : Story → Option String → Batch → Story × Batch
  attempt story none batch = (story, skip story no_repository batch)
  attempt story (some repo) batch =
      let counted = record batch { attempts = suc batch.attempts } in
      if batch.is_full
      then (story, skip story queue_full counted)
      else submit_story story repo counted

  -- The body of the loop, for a ready story. After the `break` no story is looked at, and none is
  -- while `attempts` stays.
  unfoldable pub deliver_story : ℕ → Option String → Story → Batch → Story × Batch
  deliver_story max_stories fallback_repo story batch =
      if leb max_stories batch.attempts
      then (story, batch)
      else if is_blank_text story.title
      then (story, skip story no_title batch)
      else attempt story (or_fallback (service.story_repo story) fallback_repo) batch

  -- The loop over the ready stories, in the list that holds them all.
  unfoldable pub deliver_stories :
      ℕ → Option String → List String → List Story → Batch → List Story × Batch
  deliver_stories max_stories fallback_repo satisfied [] batch = ([], batch)
  deliver_stories max_stories fallback_repo satisfied (story ∷ stories) batch =
      let (story', batch') =
        if is_ready satisfied story
        then deliver_story max_stories fallback_repo story batch
        else (story, batch) in
      let (stories', final) = deliver_stories max_stories fallback_repo satisfied stories batch' in
      (story' ∷ stories', final)

  -- The block that runs with the backlog's lock, up to the write.
  unfoldable pub deliver_batch : ℕ → Option String → Backlog → Dispatcher → List Story × Batch
  deliver_batch max_stories fallback_repo b d =
      deliver_stories max_stories fallback_repo (satisfied_ids b) b.stories
        (record { attempts = 0; is_full = false; enqueued = []; skipped = []; dispatcher = d })
