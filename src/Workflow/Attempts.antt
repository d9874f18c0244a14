-- ===== src/Workflow/Attempts.antt =====
-- What the development of one task comes to.
use Prim.Native.Nat.{◌*◌}
use native.Mathlib.Nat.{suc-mul}
use dev_team.Prelude.{
  ℕ, zero, suc, ◌+◌, ◌≤◌, ◌<◌, ◌≡◌, refl, ◌⊎◌, inl, inr, String, Bool, true, false, ◌&&◌, Option,
  none, some, List, [], ◌∷◌, ◌++◌, arith,
}
use dev_team.Prelude.Int.{pos_part}
use dev_team.Models.{
  TaskStatus, pending, in_progress, in_review, changes_requested, testing, done, failed, Task,
  Design, Implementation, Review, TestReport, TaskResult,
}
use dev_team.Replies.{Python}
use dev_team.Agents.{Reply, Prompt, RunState, M, ◌>>=◌, ◌>>◌, set_status, review}
use dev_team.Agents.Posts.{
  FromAgents, Grown-refl, Runs, Runs-later, Runs-set, Runs-bind, Same, implement-Asks, review-Asks,
  test-Asks,
}
use dev_team.Workflow.{
  TeamConfig, Draft, task_result, no_draft, tests_pass, after_test, after_review, attempt_loop,
  develop_task,
}
use dev_team.Workflow.Statuses.{follows, starts_in, Traced, Traced-start, Traced-set, Traced-same}

again : follows changes_requested in_progress ≡ true
unfolding follows
again = refl

give_up : follows changes_requested failed ≡ true
unfolding follows
give_up = refl

-- The last review approves, and the last test report clears the bar.
abbrev pub IsPassed : TeamConfig → TaskResult → Type 0
IsPassed config r =
    ((v : Review) × (r.review ≡ some v) × (v.approved ≡ true))
    × ((t : TestReport) × (r.test_report ≡ some t) × (tests_pass config t ≡ true))

-- The Boolean form: whether the last review approves and the last test report clears the bar, where
-- none does neither.
pub approves : Option Review → Bool
approves none = false
approves (some v) = v.approved

pub clears : TeamConfig → Option TestReport → Bool
clears config none = false
clears config (some t) = tests_pass config t

abbrev pub passes : TeamConfig → Option Review → Option TestReport → Bool
passes config review_of report_of = approves review_of && clears config report_of

unapproved :
    (config : TeamConfig) (v : Review) (o : Option Review) (t : Option TestReport)
    → v.approved ≡ false
    → o ≡ some v
    → passes config o t ≡ false
unfolding approves
unapproved config v o t h e = rw (e, h) refl

uncleared :
    (config : TeamConfig) (o : Option Review) (t : TestReport)
    → tests_pass config t ≡ false
    → passes config o (some t) ≡ false
unfolding clears
uncleared config o t h = ground (arith, h)

pub no_review : (config : TeamConfig) (t : Option TestReport) → passes config none t ≡ false
unfolding approves
no_review config t = refl

-- A result of a task, with the path that its status took since some assignments were made.
pub record Settled (config : TeamConfig) (most : ℕ) (base : List (String × TaskStatus))
    (task : Task) (r : TaskResult) (w : RunState) : Type 0 where
  pub ending :
      ((r.task ≡ record task { status = done })
        × IsPassed config r
        × (0 < r.attempts)
        × (r.attempts ≤ most))
      ⊎ ((r.task ≡ record task { status = failed })
          × (r.attempts ≡ most)
          × (passes config r.review r.test_report ≡ false))
  pub trace : Traced base task.id r.task.status r.attempts w

module _ (py : Python) (runner : ℕ → Prompt → Option Reply) (json_retries : ℕ) (config : TeamConfig)
    (task : Task) (design : Design) (most : ℕ) (base : List (String × TaskStatus)) where
  abbrev each : ℕ
  each = suc json_retries

  -- What is to be shown of a computation that goes on from a world.
  abbrev Settles : ℕ → M TaskResult → RunState → Type 0
  Settles n m w = Runs FromAgents n (Settled config most base task) w (m w)

  abbrev Retries : ℕ → ℕ → (Option Review → Draft → M TaskResult) → Type 0
  Retries n attempts retry =
      (feedback : Option Review) (draft : Draft) (w : RunState)
      → passes config draft.review draft.test_report ≡ false
      → Traced base task.id changes_requested attempts w
      → Settles n (retry feedback draft) w

  after_test-Settles :
      (n attempts : ℕ) (retry : Option Review → Draft → M TaskResult) (draft : Draft)
      (verdict : Review) (report : TestReport) (b : Bool) (w : RunState)
      → tests_pass config report ≡ b
      → draft.review ≡ some verdict
      → verdict.approved ≡ true
      → 0 < attempts
      → attempts ≤ most
      → Retries n attempts retry
      → Traced base task.id testing attempts w
      → Settles n
          (after_test py runner json_retries config task design retry attempts draft report b)
          w
  unfolding after_test set_status task_result follows starts_in
  after_test-Settles n attempts retry draft verdict report true w p rv ap' pos le ih t = (
    record {
      ending = inl (refl, ((verdict, rv, ap'), (report, refl, p)), pos, le);
      trace = Traced-set base task.id testing done attempts attempts w refl (omega arith) t;
    },
    record {
      calls_from = omega arith;
      calls_to = omega arith;
      spending = omega arith;
      exhaustion = λ e. e;
    },
  )
  after_test-Settles n attempts retry draft verdict report false w p rv ap' pos le ih t =
      Runs-set FromAgents (Settled config most base task) n w _ _ refl refl (
        ih _ _ _ (uncleared config draft.review report p) (
          Traced-set base task.id testing changes_requested attempts attempts w refl (omega arith)
            t))

  after_review-Settles :
      (n attempts : ℕ) (retry : Option Review → Draft → M TaskResult) (draft : Draft)
      (implementation : Implementation) (verdict : Review) (b : Bool) (w : RunState)
      → verdict.approved ≡ b
      → draft.review ≡ some verdict
      → 0 < attempts
      → attempts ≤ most
      → Retries n attempts retry
      → Traced base task.id in_review attempts w
      → Settles
          (each + n)
          (after_review py runner json_retries config task design retry attempts draft
            implementation verdict b)
          w
  unfolding after_review set_status follows starts_in
  after_review-Settles n attempts retry draft implementation verdict false w p rv pos le ih t =
      Runs-set FromAgents (Settled config most base task) (each + n) w _ _ refl refl (
        Runs-later FromAgents (Settled config most base task) 0 n (each + n) _ _ _ (omega arith)
          (Grown-refl 0 _)
          (ih _ _ _ (unapproved config verdict draft.review draft.test_report p rv) (
            Traced-set base task.id in_review changes_requested attempts attempts w refl
              (omega arith) t)))
  after_review-Settles n attempts retry draft implementation verdict true w p rv pos le ih t =
      let tested : RunState = record w { statuses = w.statuses ++ (task.id, testing) ∷ [] } in
      let traced : Traced base task.id testing attempts tested =
        Traced-set base task.id in_review testing attempts attempts w refl (omega arith) t in
      Runs-set FromAgents (Settled config most base task) (each + n) w tested _ refl refl (
        Runs-bind FromAgents (Same tested) (Settled config most base task) each n (each + n) tested
          _ _ (omega arith) (test-Asks py runner json_retries task implementation tested)
          λ report v same.
            after_test-Settles n attempts retry draft verdict report _ v refl rv p pos le ih
              (Traced-same base task.id testing attempts tested v same traced))

  abbrev judged :
      ℕ → (Option Review → Draft → M TaskResult) → Draft → Implementation → Review → M TaskResult
  judged attempts retry draft implementation verdict =
      after_review py runner json_retries config task design retry attempts
        (record draft { implementation = some implementation; review = some verdict })
        implementation verdict verdict.approved

  reviewed-Settles :
      (n attempts : ℕ) (retry : Option Review → Draft → M TaskResult) (draft : Draft)
      (implementation : Implementation) (w : RunState)
      → 0 < attempts
      → attempts ≤ most
      → Retries n attempts retry
      → Traced base task.id in_progress attempts w
      → Settles
          (each + (each + n))
          (set_status task.id in_review
            >> (review py runner json_retries task implementation
                >>= judged attempts retry draft implementation))
          w
  unfolding set_status follows starts_in
  reviewed-Settles n attempts retry draft implementation w pos le ih t =
      let sent : RunState = record w { statuses = w.statuses ++ (task.id, in_review) ∷ [] } in
      let traced : Traced base task.id in_review attempts sent =
        Traced-set base task.id in_progress in_review attempts attempts w refl (omega arith) t in
      Runs-set FromAgents (Settled config most base task) (each + (each + n)) w sent _ refl refl (
        Runs-bind FromAgents (Same sent) (Settled config most base task) each (each + n)
          (each + (each + n)) sent _ _ (omega arith)
          (review-Asks py runner json_retries task implementation sent)
          λ verdict v same.
            after_review-Settles n attempts retry _ implementation verdict verdict.approved v refl
              refl pos le ih (Traced-same base task.id in_review attempts sent v same traced))

  -- What the loop does with some attempts left.
  attempt_loop-Settles :
      (left attempts : ℕ)
      → attempts + left ≡ most
      → (at : TaskStatus) → follows at in_progress ≡ true
      → follows at failed ≡ true
      → (feedback : Option Review) (draft : Draft) (w : RunState)
      → passes config draft.review draft.test_report ≡ false
      → Traced base task.id at attempts w
      → Settles
          (left * (each + (each + each)))
          (attempt_loop py runner json_retries config task design left attempts feedback draft)
          w
  unfolding attempt_loop set_status task_result starts_in
  attempt_loop-Settles zero attempts sum at go stop feedback draft w bad t = (
    record {
      ending = inr (refl, omega (arith, sum), bad);
      trace = Traced-set base task.id at failed attempts attempts w stop (omega arith) t;
    },
    record {
      calls_from = omega arith;
      calls_to = omega arith;
      spending = omega arith;
      exhaustion = λ e. e;
    },
  )
  attempt_loop-Settles (suc left) attempts sum at go stop feedback draft w bad t =
      let started : RunState = record w { statuses = w.statuses ++ (task.id, in_progress) ∷ [] } in
      let traced : Traced base task.id in_progress (suc attempts) started =
        Traced-set base task.id at in_progress attempts (suc attempts) w go (omega arith) t in
      let n : ℕ = left * (each + (each + each)) in
      Runs-set FromAgents (Settled config most base task) _ w started _ refl refl (
        Runs-bind FromAgents (Same started) (Settled config most base task) each (each + (each + n))
          _ started _ _ (omega (arith, suc-mul left (each + (each + each))))
          (implement-Asks py runner json_retries task design feedback started)
          λ implementation v same.
            reviewed-Settles n (suc attempts)
              (attempt_loop py runner json_retries config task design left (suc attempts)) draft
              implementation v (omega arith) (omega (arith, sum))
              (λ feedback' draft' u bad' tu.
                attempt_loop-Settles left (suc attempts) (omega (arith, sum)) changes_requested
                  again give_up feedback' draft' u bad' tu)
              (Traced-same base task.id in_progress (suc attempts) started v same traced))

-- The attempts that a configuration allows, and the calls of the model that they may take: three
-- questions for each attempt.
abbrev pub attempts_allowed : TeamConfig → ℕ
attempts_allowed config = pos_part config.max_task_attempts

abbrev pub calls_allowed : ℕ → TeamConfig → ℕ
calls_allowed json_retries config =
    attempts_allowed config * (suc json_retries + (suc json_retries + suc json_retries))

module _ (py : Python) (runner : ℕ → Prompt → Option Reply) (json_retries : ℕ)
    (config : TeamConfig) where
  -- The development of a task makes no more calls of the model than three questions for each attempt
  -- that is allowed, and ends with a result or with an exception of the agents: the budget error only
  -- where the budget is exhausted. In a result the task is done, after one attempt at least and no
  -- more than are allowed, the last review approving and the last test report clearing the bar; or it
  -- has failed, after exactly the attempts allowed, and the last review does not approve, or the
  -- last test report does not clear the bar. The statuses assigned meanwhile are this task's: a
  -- walk from pending, by the steps that `follows` allows, to the status in the result, which starts
  -- the task as often as the result counts attempts.
  pub develop_task-Settled :
      (task : Task) (design : Design) (w : RunState)
      → Runs FromAgents
          (calls_allowed json_retries config)
          (Settled config (attempts_allowed config) w.statuses task)
          w
          (develop_task py runner json_retries config task design w)
  unfolding develop_task follows
  develop_task-Settled task design w =
      attempt_loop-Settles py runner json_retries config task design (attempts_allowed config)
        w.statuses (attempts_allowed config) 0 (omega arith) pending refl refl none no_draft w
        (no_review config none) (Traced-start w.statuses task.id w refl)
