-- ===== src/Foreman/Deliveries.antt =====
-- src/dev_team/dispatch.py, foreman_run: what the loop makes of the stories and of the queue.
use dev_team.Prelude.{
  ℕ, zero, suc, ◌+◌, ◌≤◌, ◌<◌, ◌≡◌, refl, sym, String, Bool, true, false, Option, none, some, List,
  [], ◌∷◌, ◌++◌, leb, if◌then◌else◌, length, append-nil, append_assoc, arith,
}
use dev_team.Prelude.Int.{ℤ}
use dev_team.Prelude.Dict.{set}
use dev_team.Dispatch.{queued, Dispatcher, count_queued, submit, put}
use dev_team.Backlog.{Story}
use dev_team.Foreman.{
  is_ready, is_blank_text, story_job_description, Enqueued, Skipped, SkipReason, no_title,
  no_repository, queue_full, Batch, Service, skip, or_fallback, assigned, after_submit, job_spec,
  submit_story, attempt, deliver_story, deliver_stories,
}

-- What holds of both branches, each under its condition, holds of the choice.
pub if_ind {ℓ κ} :
    {A : Type ℓ} (P : A → Type κ) (c : Bool) {x y : A}
    → (c ≡ true → P x)
    → (c ≡ false → P y)
    → P (if c then x else y)
if_ind P true f g = f refl
if_ind P false f g = g refl

module _ (service : Service) (budget : ℤ) (fallback_repo : Option String)
    (satisfied : List String) where
  -- A ready story that has a title, and the repository that its job is for, if there is one.
  abbrev pub IsOffered : Story → Option String → Type 0
  IsOffered s repo =
      (is_ready satisfied s ≡ true)
      × (is_blank_text s.title ≡ false)
      × (or_fallback (service.story_repo s) fallback_repo ≡ repo)

  -- The job of a story, and the dispatcher with it: one record, queued, and its id once at the end of
  -- the order and once at the end of the queue.
  abbrev pub job_for : Story → Dispatcher → Enqueued
  job_for s d = record {
    job_id = service.next_id d;
    story_id = s.id;
    title = s.title;
    position = count_queued d.registry;
  }

  abbrev pub with_job : Story → String → Dispatcher → Dispatcher
  with_job s repo d = record d {
    registry = set d.registry (service.next_id d) (record {
      spec = record {
        repo = repo;
        title = s.title;
        description = story_job_description s;
        budget_usd = some budget;
        story_id = some s.id;
      };
      state = queued;
    });
    order = d.order ++ service.next_id d ∷ [];
    queue = d.queue ++ service.next_id d ∷ [];
  }

  abbrev pub skipped_for : Story → SkipReason → Skipped
  skipped_for s reason = record { story_id = s.id; reason = reason }

  -- The stories, one after the other, with as many attempts left, and whether the queue was full before;
  -- the jobs in the queue and the stories skipped; the stories before and after; and the dispatcher
  -- before and after. `meanwhile` is what other threads did.
  pub data Delivered
      : ℕ
        → Bool
        → List Enqueued
        → List Skipped
        → List Story
        → List Story
        → Dispatcher
        → Dispatcher
        → Type 0 where
    nobody : {left : ℕ} {full : Bool} {d : Dispatcher} → Delivered left full [] [] [] [] d d
    not_ready :
        {left : ℕ} {full : Bool} {es : List Enqueued} {sk : List Skipped} {s : Story}
        {ss ss' : List Story} {d d' : Dispatcher}
        → is_ready satisfied s ≡ false
        → Delivered left full es sk ss ss' d d'
        → Delivered left full es sk (s ∷ ss) (s ∷ ss') d d'
    none_left :
        {full : Bool} {es : List Enqueued} {sk : List Skipped} {s : Story} {ss ss' : List Story}
        {d d' : Dispatcher}
        → Delivered 0 full es sk ss ss' d d'
        → Delivered 0 full es sk (s ∷ ss) (s ∷ ss') d d'
    untitled :
        {left : ℕ} {full : Bool} {es : List Enqueued} {sk : List Skipped} {s : Story}
        {ss ss' : List Story} {d d' : Dispatcher}
        → is_blank_text s.title ≡ true
        → Delivered (suc left) full es sk ss ss' d d'
        → Delivered (suc left) full es (skipped_for s no_title ∷ sk) (s ∷ ss) (s ∷ ss') d d'
    homeless :
        {left : ℕ} {full : Bool} {es : List Enqueued} {sk : List Skipped} {s : Story}
        {ss ss' : List Story} {d d' : Dispatcher}
        → IsOffered s none
        → Delivered (suc left) full es sk ss ss' d d'
        → Delivered (suc left) full es (skipped_for s no_repository ∷ sk) (s ∷ ss) (s ∷ ss') d d'
    turned_away :
        {left : ℕ} {full : Bool} {es : List Enqueued} {sk : List Skipped} {s : Story}
        {ss ss' : List Story} {d d' : Dispatcher} {repo : String}
        → full ≡ true
        → IsOffered s (some repo)
        → Delivered left full es sk ss ss' d d'
        → Delivered (suc left) full es (skipped_for s queue_full ∷ sk) (s ∷ ss) (s ∷ ss') d d'
    finds_full :
        {left : ℕ} {full : Bool} {es : List Enqueued} {sk : List Skipped} {s : Story}
        {ss ss' : List Story} {d d' : Dispatcher} {repo : String} {n : ℕ}
        → full ≡ false
        → IsOffered s (some repo)
        → service.queue_cap ≤ count_queued (service.meanwhile n d).registry
        → Delivered left true es sk ss ss' (service.meanwhile n d) d'
        → Delivered (suc left) full es (skipped_for s queue_full ∷ sk) (s ∷ ss) (s ∷ ss') d d'
    enters :
        {left : ℕ} {full : Bool} {es : List Enqueued} {sk : List Skipped} {s : Story}
        {ss ss' : List Story} {d d' : Dispatcher} {repo : String} {n : ℕ}
        → full ≡ false
        → IsOffered s (some repo)
        → count_queued (service.meanwhile n d).registry < service.queue_cap
        → Delivered left full es sk ss ss' (with_job s repo (service.meanwhile n d)) d'
        → Delivered
            (suc left)
            full
            (job_for s (service.meanwhile n d) ∷ es)
            sk
            (s ∷ ss)
            (assigned (service.next_id (service.meanwhile n d)) s ∷ ss')
            d
            d'

  pub Delivered-length :
      {left : ℕ} {full : Bool} {es : List Enqueued} {sk : List Skipped} {ss ss' : List Story}
      {d d' : Dispatcher}
      → Delivered left full es sk ss ss' d d'
      → length es ≤ left
  Delivered-length nobody = omega arith
  Delivered-length (not_ready _ h) = Delivered-length h
  Delivered-length (none_left h) = Delivered-length h
  Delivered-length (untitled _ h) = Delivered-length h
  Delivered-length (homeless _ h) = Delivered-length h
  Delivered-length (turned_away _ _ h) = omega (arith, Delivered-length h)
  Delivered-length (finds_full _ _ _ h) = omega (arith, Delivered-length h)
  Delivered-length (enters _ _ _ h) = omega (arith, Delivered-length h)

  -- Without a job in the queue, no story has changed.
  pub Delivered-none :
      {left : ℕ} {full : Bool} {es : List Enqueued} {sk : List Skipped} {ss ss' : List Story}
      {d d' : Dispatcher}
      → es ≡ []
      → Delivered left full es sk ss ss' d d'
      → Delivered left full es sk ss ss d d'
  Delivered-none e nobody = nobody
  Delivered-none e (not_ready r h) = not_ready r (Delivered-none e h)
  Delivered-none e (none_left h) = none_left (Delivered-none e h)
  Delivered-none e (untitled t h) = untitled t (Delivered-none e h)
  Delivered-none e (homeless o h) = homeless o (Delivered-none e h)
  Delivered-none e (turned_away f o h) = turned_away f o (Delivered-none e h)
  Delivered-none e (finds_full f o c h) = finds_full f o c (Delivered-none e h)
  Delivered-none e (enters f o c h) = absurd (cc (e))

  -- What the loop adds to a batch.
  abbrev pub Delivers : ℕ → List Story → Batch → List Story × Batch → Type 0
  Delivers left ss b (ss', b') =
      (es : List Enqueued) × (sk : List Skipped) × (b'.enqueued ≡ b.enqueued ++ es)
      × (b'.skipped ≡ b.skipped ++ sk)
      × Delivered left b.is_full es sk ss ss' b.dispatcher b'.dispatcher

  module _ (max_stories : ℕ) where
    abbrev loop : List Story → Batch → List Story × Batch
    loop = deliver_stories service budget max_stories fallback_repo satisfied

    -- The stories from one on, where the body makes `r` of it.
    abbrev Goes : ℕ → Story → List Story → Batch → Story × Batch → Type 0
    Goes left s ss b r = Delivers left (s ∷ ss) b (r.0 ∷ (loop ss r.1).0, (loop ss r.1).1)

    abbrev Rest : List Story → Type 0
    Rest ss =
        (left : ℕ) (b : Batch) → b.attempts + left ≡ max_stories → Delivers left ss b (loop ss b)

    submit_story-Goes :
        (left : ℕ) (s : Story) (ss : List Story) (repo : String) (b : Batch)
        → b.is_full ≡ false
        → IsOffered s (some repo)
        → suc b.attempts + left ≡ max_stories
        → Rest ss
        → Goes
            (suc left)
            s
            ss
            b
            (submit_story service budget s repo (record b { attempts = suc b.attempts }))
    unfolding submit_story after_submit submit put skip job_spec
    submit_story-Goes left s ss repo b room offered sum rest =
        let before = service.meanwhile (suc b.attempts) b.dispatcher in
        let job_id = service.next_id before in
        let asked : Batch = record b { attempts = suc b.attempts; dispatcher = before } in
        if_ind (λ taken. Goes (suc left) s ss b (after_submit s job_id asked taken))
          (leb service.queue_cap (count_queued before.registry))
          (λ e.
            let (es, sk, e₁, e₂, h) =
              rest left (skip s queue_full (record asked { is_full = true })) sum in
            (
              es,
              skipped_for s queue_full ∷ sk,
              e₁,
              rw (e₂, append_assoc) refl,
              finds_full room offered (ground (arith, e)) h,
            ))
          (λ e.
            let queued_batch : Batch = record asked {
              enqueued = b.enqueued ++ job_for s before ∷ [];
              dispatcher = with_job s repo before;
            } in
            let (es, sk, e₁, e₂, h) = rest left queued_batch sum in
            (
              job_for s before ∷ es,
              sk,
              rw (e₁, append_assoc) refl,
              e₂,
              enters room offered (ground (arith, e)) h,
            ))

    attempt-Goes :
        (left : ℕ) (s : Story) (ss : List Story) (repo : Option String) (b : Batch)
        → IsOffered s repo
        → b.attempts + suc left ≡ max_stories
        → Rest ss
        → Goes (suc left) s ss b (attempt service budget s repo b)
    unfolding attempt skip
    attempt-Goes left s ss none b offered sum rest =
        let (es, sk, e₁, e₂, h) = rest (suc left) (skip s no_repository b) sum in
        (es, skipped_for s no_repository ∷ sk, e₁, rw (e₂, append_assoc) refl, homeless offered h)
    attempt-Goes left s ss (some repo) b offered sum rest =
        let counted : Batch = record b { attempts = suc b.attempts } in
        if_ind (Goes (suc left) s ss b) b.is_full
          (λ e.
            let (es, sk, e₁, e₂, h) = rest left (skip s queue_full counted) (omega (arith, sum)) in
            (
              es,
              skipped_for s queue_full ∷ sk,
              e₁,
              rw (e₂, append_assoc) refl,
              turned_away e offered h,
            ))
          (λ e. submit_story-Goes left s ss repo b e offered (omega (arith, sum)) rest)

    deliver_story-Goes :
        (left : ℕ) (s : Story) (ss : List Story) (b : Batch)
        → is_ready satisfied s ≡ true
        → b.attempts + left ≡ max_stories
        → Rest ss
        → Goes left s ss b (deliver_story service budget max_stories fallback_repo s b)
    unfolding deliver_story skip
    deliver_story-Goes zero s ss b ready sum rest =
        if_ind (Goes 0 s ss b) (leb max_stories b.attempts)
          (λ e. let (es, sk, e₁, e₂, h) = rest 0 b sum in (es, sk, e₁, e₂, none_left h))
          (λ e. absurd (ground (arith, e, sum)))
    deliver_story-Goes (suc left) s ss b ready sum rest =
        if_ind (Goes (suc left) s ss b) (leb max_stories b.attempts)
          (λ e. absurd (ground (arith, e, sum)))
          (λ e.
            if_ind (Goes (suc left) s ss b) (is_blank_text s.title)
              (λ blank.
                let (es, sk, e₁, e₂, h) = rest (suc left) (skip s no_title b) sum in
                (es, skipped_for s no_title ∷ sk, e₁, rw (e₂, append_assoc) refl, untitled blank h))
              (λ titled. attempt-Goes left s ss _ b (ready, titled, refl) sum rest))

    -- The loop does to the stories what `Delivered` says, from any batch on.
    pub deliver_stories-Delivers : (ss : List Story) → Rest ss
    unfolding deliver_stories
    deliver_stories-Delivers [] left b sum =
        ([], [], sym (append-nil b.enqueued), sym (append-nil b.skipped), nobody)
    deliver_stories-Delivers (s ∷ ss) left b sum =
        if_ind (Goes left s ss b) (is_ready satisfied s)
          (λ ready. deliver_story-Goes left s ss b ready sum (deliver_stories-Delivers ss))
          (λ unready.
            let (es, sk, e₁, e₂, h) = deliver_stories-Delivers ss left b sum in
            (es, sk, e₁, e₂, not_ready unready h))
