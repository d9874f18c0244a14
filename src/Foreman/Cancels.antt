-- ===== src/Foreman/Cancels.antt =====
-- src/dev_team/dispatch.py, foreman_run: what a run does whose backlog could not be written.
use dev_team.Prelude.{
  ◌≡◌, ◌≢◌, refl, ap, sym, ◌⊎◌, inl, inr, String, Bool, true, false, ◌&&◌, Option, none, some, List,
  [], ◌∷◌, ◌++◌, ◌==◌, map, Bool-cases, elem, eq_iff, append-nil, append_assoc, arith,
}
use dev_team.Prelude.Dict.{get}
use dev_team.Dispatch.{
  todo, Dispatcher, cancel_job, CancelReply, unknown_job, was_cancelled, not_queued,
}
use dev_team.Backlog.{Story, Backlog, story_ids}
use dev_team.Foreman.{Enqueued, Service}
use dev_team.Foreman.Deliveries.{if_ind}
use dev_team.Foreman.Request.{
  reset_story, write_back_todo, story_of, Cancellation, record_reply, cancel_all,
}

-- The first story with an id is to do again and has no job, and all others are as they were.
abbrev pub IsReset : String → Backlog → Backlog → Type 0
IsReset story_id b b' =
    (front : List Story) × (s : Story) × (back : List Story) × (b.stories ≡ front ++ s ∷ back)
    × (s.id ≡ story_id)
    × (elem story_id (map (λ (t : Story). t.id) front) ≡ false)
    × (b'.stories ≡ front ++ record s { status = todo; delivery_job = none } ∷ back)

-- The write-back for the story of a cancelled job: where there is one, it is in the backlog and the
-- backlog can be written, the story is reset; elsewhere the backlog is as it was.
abbrev pub IsWrittenBack : (Backlog → Bool) → Option String → Backlog → Backlog → Type 0
IsWrittenBack can_write none b b' = b' ≡ b
IsWrittenBack can_write (some story_id) b b' =
    (IsReset story_id b b' × (can_write b' ≡ true))
    ⊎ ((b' ≡ b)
        × ((elem story_id (story_ids b) ≡ false)
            ⊎ ((lost : Backlog) × IsReset story_id b lost × (can_write lost ≡ false))))

reset_story_lem :
    (story_id : String) (ss : List Story)
    → elem story_id (map (λ (t : Story). t.id) ss) ≡ true
    → IsReset story_id (record { stories = ss }) (record { stories = reset_story story_id ss })
unfolding reset_story elem
reset_story_lem story_id [] m = cc
reset_story_lem story_id (s ∷ ss) m = elim (Bool-cases (s.id == story_id)) [
  | inl same ↦ ([], s, ss, refl, (eq_iff s.id story_id).0 same, refl, rw same refl)
  | inr differs ↦
      let (front, t, back, e₁, named, new, e₂) =
        reset_story_lem story_id ss (ground (arith, m, differs)) in
      (
        s ∷ front,
        t,
        back,
        ap (λ l. s ∷ l) e₁,
        named,
        ground (arith, differs, new),
        rw differs (ap (λ l. s ∷ l) e₂),
      )
]

write_back_todo-IsWrittenBack :
    (can_write : Backlog → Bool) (story : Option String) (b : Backlog)
    → IsWrittenBack can_write story b (write_back_todo can_write story b)
unfolding write_back_todo
write_back_todo-IsWrittenBack can_write none b = refl
write_back_todo-IsWrittenBack can_write (some story_id) b =
    let after : Backlog = record { stories = reset_story story_id b.stories } in
    let known = elem story_id (story_ids b) in
    if_ind (IsWrittenBack can_write (some story_id) b) (known && can_write after)
      (λ e. inl (reset_story_lem story_id b.stories (ground (arith, e)), ground (arith, e)))
      (λ e. inr (
        refl,
        elim (Bool-cases known) [
          | inr absent ↦ inl absent
          | inl present ↦
              inr (after, reset_story_lem story_id b.stories present, ground (arith, e, present))
        ],
      ))

module _ (service : Service) where
  -- What is asked for one job, after what other threads did: `cancel_job`, whose reply counts.
  abbrev pub asked_for : Enqueued → Dispatcher → Dispatcher × CancelReply
  asked_for e d = cancel_job e.job_id (service.before_cancel e.job_id d)

  -- The jobs, one after the other: those that were cancelled and those that could not be; the backlog
  -- before and after, and the dispatcher before and after.
  pub data Compensated
      : List Enqueued
        → List Enqueued
        → List Enqueued
        → Backlog
        → Backlog
        → Dispatcher
        → Dispatcher
        → Type 0 where
    nothing_left : {b : Backlog} {d : Dispatcher} → Compensated [] [] [] b b d d
    pulled_back :
        {e : Enqueued} {es cs us : List Enqueued} {b b₁ b' : Backlog} {d d' : Dispatcher}
        → (asked_for e d).1 ≡ was_cancelled
        → IsWrittenBack
            (service.can_write_back e.job_id)
            (story_of (get (service.before_cancel e.job_id d).registry e.job_id))
            b
            b₁
        → Compensated es cs us b₁ b' (asked_for e d).0 d'
        → Compensated (e ∷ es) (e ∷ cs) us b b' d d'
    too_late :
        {e : Enqueued} {es cs us : List Enqueued} {b b' : Backlog} {d d' : Dispatcher}
        → (asked_for e d).1 ≢ was_cancelled
        → Compensated es cs us b b' (asked_for e d).0 d'
        → Compensated (e ∷ es) cs (e ∷ us) b b' d d'

  -- What the cancellations add to a record of them.
  abbrev pub Cancels : List Enqueued → Cancellation → Cancellation → Type 0
  Cancels es c c' =
      (cs : List Enqueued) × (us : List Enqueued) × (c'.cancelled ≡ c.cancelled ++ cs)
      × (c'.uncancellable ≡ c.uncancellable ++ us)
      × Compensated es cs us c.backlog c'.backlog c.dispatcher c'.dispatcher

  replied-Cancels :
      (e : Enqueued) (es : List Enqueued) (c : Cancellation) (b₁ : Backlog)
      (r : Dispatcher × CancelReply)
      → asked_for e c.dispatcher ≡ r
      → IsWrittenBack
          (service.can_write_back e.job_id)
          (story_of (get (service.before_cancel e.job_id c.dispatcher).registry e.job_id))
          c.backlog
          b₁
      → ((c₁ : Cancellation) → Cancels es c₁ (cancel_all service es c₁))
      → Cancels (e ∷ es) c (cancel_all service es (record_reply e b₁ r c))
  unfolding record_reply
  replied-Cancels e es c b₁ (d₁, was_cancelled) asked back rest =
      let (cs, us, e₁, e₂, h) = rest (record_reply e b₁ (d₁, was_cancelled) c) in
      (
        e ∷ cs,
        us,
        rw (e₁, append_assoc) refl,
        e₂,
        pulled_back (ap (λ x. x.1) asked) back (rw asked h),
      )
  replied-Cancels e es c b₁ (d₁, unknown_job) asked back rest =
      let (cs, us, e₁, e₂, h) = rest (record_reply e b₁ (d₁, unknown_job) c) in
      (
        cs,
        e ∷ us,
        e₁,
        rw (e₂, append_assoc) refl,
        too_late (λ was. absurd (cc (asked, was))) (rw asked h),
      )
  replied-Cancels e es c b₁ (d₁, not_queued st) asked back rest =
      let (cs, us, e₁, e₂, h) = rest (record_reply e b₁ (d₁, not_queued st) c) in
      (
        cs,
        e ∷ us,
        e₁,
        rw (e₂, append_assoc) refl,
        too_late (λ was. absurd (cc (asked, was))) (rw asked h),
      )

  pub cancel_all-Cancels :
      (es : List Enqueued) (c : Cancellation) → Cancels es c (cancel_all service es c)
  unfolding cancel_all
  cancel_all-Cancels [] c =
      ([], [], sym (append-nil c.cancelled), sym (append-nil c.uncancellable), nothing_left)
  cancel_all-Cancels (e ∷ es) c =
      replied-Cancels e es c _ _ refl
        (write_back_todo-IsWrittenBack (service.can_write_back e.job_id)
          (story_of (get (service.before_cancel e.job_id c.dispatcher).registry e.job_id))
          c.backlog)
        (cancel_all-Cancels es)
