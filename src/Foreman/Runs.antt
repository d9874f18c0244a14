-- ===== src/Foreman/Runs.antt =====
-- src/dev_team/dispatch.py, foreman_run: what one run puts in the queue, and what it writes.
use mathlib.Core.Path.{subst}
use dev_team.Prelude.{
  ℕ, ◌≤◌, ◌≡◌, refl, ◌⊎◌, inl, inr, true, false, not, ◌&&◌, Option, none, some, List, [], ◌∷◌, leb,
  length, is_empty, arith,
}
use dev_team.Prelude.Int.{ℤ, pos, negsuc}
use dev_team.Dispatch.{Dispatcher}
use dev_team.Backlog.{Story, Backlog}
use dev_team.Foreman.{
  max_stories_ceiling, satisfied_ids, Enqueued, Skipped, Batch, Service, deliver_batch,
}
use dev_team.Foreman.Request.{
  Asked, absent, other, number, ForemanReply, ForemanRequest, Problem, no_workspace, bad_budget,
  refused, write_failed, ran, count_asked, valid_budget, repo_problem, cancel_all, cancelled_run,
  RunOutcome, stored_run, refused_run, counted_run, paid_run, foreman_run,
}
use dev_team.Foreman.Deliveries.{
  if_ind, Delivered, Delivered-length, Delivered-none, deliver_stories-Delivers,
}
use dev_team.Foreman.Cancels.{Compensated, cancel_all-Cancels}

abbrev WithinCeiling : Problem ⊎ ℕ → Type 0
WithinCeiling (inl p) = 0 ≤ max_stories_ceiling
WithinCeiling (inr n) = n ≤ max_stories_ceiling

count_asked-WithinCeiling : (a : Asked) → WithinCeiling (count_asked a)
unfolding count_asked
count_asked-WithinCeiling absent = omega arith
count_asked-WithinCeiling other = omega arith
count_asked-WithinCeiling (number (pos m)) =
    if_ind WithinCeiling (leb 1 m && leb m max_stories_ceiling) (λ e. ground (arith, e))
      (λ e. omega arith)
count_asked-WithinCeiling (number (negsuc m)) = omega arith

empty_nil : (es : List Enqueued) → is_empty es ≡ true → es ≡ []
empty_nil [] e = refl
empty_nil (x ∷ es) e = cc

-- A request that is not refused, with its budget and its number of stories.
abbrev pub IsAccepted : Service → ForemanRequest → ℤ → ℕ → Type 0
IsAccepted service request budget max_stories =
    (service.has_workspace ≡ true)
    × (valid_budget request.budget_usd ≡ some budget)
    × (count_asked request.max_stories ≡ inr max_stories)
    × (repo_problem service request.repo ≡ none)
    × (max_stories ≤ max_stories_ceiling)

-- The jobs that are put in the queue for a backlog, at most as many as were asked for.
abbrev pub Queues :
    Service
    → ForemanRequest
    → Backlog
    → Dispatcher
    → List Enqueued
    → List Skipped
    → List Story
    → Dispatcher
    → Type 0
Queues service request b d es skipped stories d' =
    (budget : ℤ) × (max_stories : ℕ) × IsAccepted service request budget max_stories
    × (length es ≤ max_stories)
    × Delivered service budget request.repo (satisfied_ids b) max_stories false es skipped b.stories
        stories d d'

-- What a run comes to, by its reply.
abbrev pub Ended :
    Service → ForemanRequest → Backlog → Dispatcher → RunOutcome → ForemanReply → Type 0
Ended service request b d o (refused problem) =
    (o.backlog ≡ b)
    × (o.dispatcher ≡ d)
    × (((service.has_workspace ≡ false) × (problem ≡ no_workspace))
        ⊎ ((valid_budget request.budget_usd ≡ none) × (problem ≡ bad_budget))
        ⊎ (count_asked request.max_stories ≡ inl problem)
        ⊎ (repo_problem service request.repo ≡ some problem))
Ended service request b d o (write_failed cancelled uncancellable) =
    (es : List Enqueued) × (skipped : List Skipped) × (stories : List Story) × (d₁ : Dispatcher)
    × Queues service request b d es skipped stories d₁
    × (service.can_save (record { stories = stories }) ≡ false)
    × Compensated service es cancelled uncancellable b o.backlog d₁ o.dispatcher
Ended service request b d o (ran es skipped) =
    Queues service request b d es skipped o.backlog.stories o.dispatcher
    × ((es ≡ []) ⊎ (service.can_save o.backlog ≡ true))

abbrev pub RunEnds : Service → ForemanRequest → Backlog → Dispatcher → RunOutcome → Type 0
RunEnds service request b d o = Ended service request b d o o.reply

module _ (service : Service) (request : ForemanRequest) (b : Backlog) (d : Dispatcher) where
  abbrev Ends : RunOutcome → Type 0
  Ends o = RunEnds service request b d o

  cancelled_run-Ends :
      (es : List Enqueued) (skipped : List Skipped) (stories : List Story) (d₁ : Dispatcher)
      → Queues service request b d es skipped stories d₁
      → service.can_save (record { stories = stories }) ≡ false
      → Ends (
          cancelled_run (
            cancel_all service es
              (record { cancelled = []; uncancellable = []; backlog = b; dispatcher = d₁ })))
  unfolding cancelled_run
  cancelled_run-Ends es skipped stories d₁ queues unsaved =
      let (cs, us, e₁, e₂, h) =
        cancel_all-Cancels service es
          (record { cancelled = []; uncancellable = []; backlog = b; dispatcher = d₁ }) in
      (es, skipped, stories, d₁, queues, unsaved, rw (e₁, e₂) h)

  stored_run-Ends :
      (r : List Story × Batch)
      → Queues service request b d r.1.enqueued r.1.skipped r.0 r.1.dispatcher
      → Ends (stored_run service b r)
  unfolding stored_run
  stored_run-Ends r queues =
      if_ind Ends (is_empty r.1.enqueued)
        (λ e.
          let (budget, max_stories, accepted, few, h) = queues in
          let none_queued = empty_nil r.1.enqueued e in
          (
            (budget, max_stories, accepted, few, Delivered-none _ _ _ _ none_queued h),
            inl none_queued,
          ))
        (λ e.
          if_ind Ends (service.can_save (record { stories = r.0 })) (λ saved. (queues, inr saved))
            (λ unsaved.
              cancelled_run-Ends r.1.enqueued r.1.skipped r.0 r.1.dispatcher queues unsaved))

  counted_run-Ends :
      (budget : ℤ) (c : Problem ⊎ ℕ) (problem : Option Problem)
      → service.has_workspace ≡ true
      → valid_budget request.budget_usd ≡ some budget
      → count_asked request.max_stories ≡ c
      → repo_problem service request.repo ≡ problem
      → Ends (counted_run service budget request.repo c problem b d)
  unfolding counted_run refused_run deliver_batch
  counted_run-Ends budget (inl p) problem open_ paid asked named =
      (refl, refl, inr (inr (inl asked)))
  counted_run-Ends budget (inr n) (some problem) open_ paid asked named =
      (refl, refl, inr (inr (inr named)))
  counted_run-Ends budget (inr n) none open_ paid asked named =
      let first : Batch = record {
        attempts = 0;
        is_full = false;
        enqueued = [];
        skipped = [];
        dispatcher = d;
      } in
      let within = subst WithinCeiling asked (count_asked-WithinCeiling request.max_stories) in
      let (es, sk, e₁, e₂, h) =
        deliver_stories-Delivers service budget request.repo (satisfied_ids b) n b.stories n first
          (omega arith) in
      stored_run-Ends _ (
        budget,
        n,
        (open_, paid, asked, named, within),
        rw e₁ (Delivered-length _ _ _ _ h),
        rw (e₁, e₂) h,
      )

  paid_run-Ends :
      (budget : Option ℤ)
      → service.has_workspace ≡ true
      → valid_budget request.budget_usd ≡ budget
      → Ends (paid_run service request budget b d)
  unfolding paid_run refused_run
  paid_run-Ends none open_ unpaid = (refl, refl, inr (inl (unpaid, refl)))
  paid_run-Ends (some budget) open_ paid = counted_run-Ends budget _ _ open_ paid refl refl

-- A run of the foreman over any backlog, whatever other threads do to the jobs between its
-- submissions and its cancellations. A request is refused only for want of a workspace, a valid
-- budget, a number of stories from one to ten or a repository that parses, and then changes neither
-- the backlog nor the jobs. Any other run goes through the stories in order. A story that is not
-- ready, that comes when as many attempts were made as were asked for, that has no title or no
-- repository, or that finds the queue full or comes after one that did, stays as it was, the last
-- four with their reason in the reply. Each other one is in progress with one new job, of its
-- repository, title and description and of the budget asked for, that is registered as queued and
-- stands once more, at the end, in the queue; the run puts nothing else there, and there are at
-- most as many such jobs as were asked for. The backlog that is stored has these stories; it is
-- written where some job was queued. Where it cannot be written, a cancellation is asked for each
-- of the jobs; the reply tells which were cancelled, and the backlog is the one from before, but
-- for the stories of the cancelled jobs, which are written back as to do and without a job where
-- that can be written.
pub foreman_run-RunEnds :
    (service : Service) (request : ForemanRequest) (b : Backlog) (d : Dispatcher)
    → RunEnds service request b d (foreman_run service request b d)
unfolding foreman_run refused_run
foreman_run-RunEnds service request b d =
    if_ind (RunEnds service request b d) (not service.has_workspace)
      (λ e. (refl, refl, inl (ground (arith, e), refl)))
      (λ e. paid_run-Ends service request b d _ (ground (arith, e)) refl)
