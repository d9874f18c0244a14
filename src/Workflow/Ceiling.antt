-- ===== src/Workflow/Ceiling.antt =====
-- A whole run: it stops gracefully at the budget's ceiling, and what it reports is sound.
use mathlib.Core.Path.{subst}
use dev_team.Prelude.{
  ℕ, ◌≡◌, refl, sym, ◌⊎◌, inl, inr, String, true, Option, none, some, List, [], ◌∷◌, ◌==◌,
  Bool-cases,
}
use dev_team.Models.{Plan, FeatureRequest, TaskResult, DeploymentPlan, ProjectResult}
use dev_team.Budget.{exhausted, spent}
use dev_team.Replies.{Python}
use dev_team.Agents.{
  Reply, Prompt, RunState, over_budget, response_error, runner_raised, dependency_cycle,
  run_aborted, unanswered, Outcome, ok, raised, M, continue, create_plan,
}
use dev_team.Agents.Posts.{
  FromAgents, Runs, create_plan-Asks, make_design-Asks, plan_deployment-Asks,
}
use dev_team.Workflow.{
  TeamConfig, Progress, nothing_done, after_stage, Answer, judge_plan, review_loop, reviewed_plan,
  deployed, developed, designed, planned, stages, project_result, plan_or, run,
}
use dev_team.Workflow.Order.{PassesPlan, develop_tasks-Reported}
use dev_team.Workflow.Reports.{Reported, Reported-later}

-- The budget error, only where the budget is exhausted; a value with a property.
abbrev Steps : {A : Type 0} → (A → RunState → Type 0) → Outcome A × RunState → Type 0
Steps P (ok a, w) = P a w
Steps P (raised (over_budget e), w) = exhausted w.budget ≡ true
Steps P (raised _, w) = Unit

-- After a step, an exhausted budget is exhausted.
abbrev Stays : {A : Type 0} → RunState → A → RunState → Type 0
Stays u a v = exhausted u.budget ≡ true → exhausted v.budget ≡ true

Steps-of_Runs :
    {A : Type 0} (n : ℕ) (Q : A → RunState → Type 0) (u : RunState) (r : Outcome A × RunState)
    → Runs FromAgents n Q u r
    → Steps (Stays u) r
Steps-of_Runs n Q u (ok a, w) h = h.1.exhaustion
Steps-of_Runs n Q u (raised (over_budget e), w) h = h.0
Steps-of_Runs n Q u (raised (response_error x t), w) h = tt
Steps-of_Runs n Q u (raised runner_raised, w) h = tt
Steps-of_Runs n Q u (raised (dependency_cycle l), w) h = tt
Steps-of_Runs n Q u (raised run_aborted, w) h = tt
Steps-of_Runs n Q u (raised unanswered, w) h = tt

Steps-any :
    {A : Type 0} (P : A → RunState → Type 0) (r : Outcome A × RunState)
    → Steps P r
    → Steps (λ _ _. Unit) r
Steps-any P (ok a, w) h = tt
Steps-any P (raised (over_budget e), w) h = h
Steps-any P (raised (response_error x t), w) h = tt
Steps-any P (raised runner_raised, w) h = tt
Steps-any P (raised (dependency_cycle l), w) h = tt
Steps-any P (raised run_aborted, w) h = tt
Steps-any P (raised unanswered, w) h = tt

Steps-bind :
    {A B : Type 0} (P : A → RunState → Type 0) (Q : B → RunState → Type 0) (f : A → M B)
    (r : Outcome A × RunState)
    → Steps P r
    → ((a : A) (v : RunState) → P a v → Steps Q (f a v))
    → Steps Q (continue f r)
Steps-bind P Q f (ok a, w) h next = next a w h
Steps-bind P Q f (raised (over_budget e), w) h next = h
Steps-bind P Q f (raised (response_error x t), w) h next = tt
Steps-bind P Q f (raised runner_raised, w) h next = tt
Steps-bind P Q f (raised (dependency_cycle l), w) h next = tt
Steps-bind P Q f (raised run_aborted, w) h next = tt
Steps-bind P Q f (raised unanswered, w) h next = tt

-- No results, and the budget exhausted; or those of the tasks of the plan that is kept.
abbrev pub IsSound : TeamConfig → Option Plan → List TaskResult → RunState → Type 0
IsSound config plan results w =
    ((results ≡ []) × (exhausted w.budget ≡ true))
    ⊎ ((kept : Plan) × (plan ≡ some kept) × Reported config kept.tasks results w)

-- A run that got as far as a deployment plan, or that the budget stopped.
abbrev pub IsHalted : Option DeploymentPlan → RunState → Type 0
IsHalted deployment w = ((d : DeploymentPlan) × (deployment ≡ some d)) ⊎ (exhausted w.budget ≡ true)

abbrev Final : TeamConfig → Outcome Progress × RunState → Type 0
Final config (ok p, w) = IsSound config p.plan p.task_results w × IsHalted p.deployment w
Final config (raised (over_budget e), w) = ⊥
Final config (raised _, w) = Unit

stage-Final :
    {A : Type 0} (config : TeamConfig) (P : A → RunState → Type 0) (p : Progress)
    (next : A → M Progress) (r : Outcome A × RunState)
    → ((w : RunState) → exhausted w.budget ≡ true → IsSound config p.plan p.task_results w)
    → Steps P r
    → ((a : A) (v : RunState) → P a v → Final config (next a v))
    → Final config (after_stage p next r)
unfolding after_stage
stage-Final config P p next (ok a, w) sound h rest = rest a w h
stage-Final config P p next (raised (over_budget e), w) sound h rest = (sound w h, inr h)
stage-Final config P p next (raised (response_error x t), w) sound h rest = tt
stage-Final config P p next (raised runner_raised, w) sound h rest = tt
stage-Final config P p next (raised (dependency_cycle l), w) sound h rest = tt
stage-Final config P p next (raised run_aborted, w) sound h rest = tt
stage-Final config P p next (raised unanswered, w) sound h rest = tt

-- How a run of a request ends.
abbrev pub Ran : TeamConfig → FeatureRequest → Outcome ProjectResult × RunState → Type 0
Ran config request (ok r, w) =
    (r.request ≡ request)
    × (r.cost_usd ≡ spent w.budget)
    × (((r.task_results ≡ []) × (exhausted w.budget ≡ true))
        ⊎ Reported config r.plan.tasks r.task_results w)
    × IsHalted r.deployment w
Ran config request (raised (over_budget e), w) = ⊥
Ran config request (raised _, w) = Unit

sound_results :
    (config : TeamConfig) (plan : Option Plan) (results : List TaskResult) (w : RunState)
    → IsSound config plan results w
    → ((results ≡ []) × (exhausted w.budget ≡ true))
      ⊎ Reported config (plan_or plan).tasks results w
unfolding plan_or
sound_results config plan results w (inl e) = inl e
sound_results config none results w (inr (kept, e, reported)) = absurd (cc (e))
sound_results config (some plan) results w (inr (kept, e, reported)) =
    inr (subst (λ o. Reported config (plan_or o).tasks results w) (sym e) reported)

project_result-Ran :
    (config : TeamConfig) (request : FeatureRequest) (r : Outcome Progress × RunState)
    → Final config r
    → Ran config request (continue (project_result request) r)
unfolding project_result plan_or
project_result-Ran config request (ok p, w) h =
    (refl, refl, sound_results config p.plan p.task_results w h.0, h.1)
project_result-Ran config request (raised (over_budget e), w) h = h
project_result-Ran config request (raised (response_error x t), w) h = tt
project_result-Ran config request (raised runner_raised, w) h = tt
project_result-Ran config request (raised (dependency_cycle l), w) h = tt
project_result-Ran config request (raised run_aborted, w) h = tt
project_result-Ran config request (raised unanswered, w) h = tt

module _ (py : Python) (runner : ℕ → Prompt → Option Reply) (json_retries : ℕ) (config : TeamConfig)
    (request : FeatureRequest) where
  create_plan-Steps :
      (feedback : Option String) (w : RunState)
      → Steps (λ _ _. Unit) (create_plan py runner json_retries request feedback w)
  create_plan-Steps feedback w =
      Steps-any _ _
        (Steps-of_Runs _ _ w _ (create_plan-Asks py runner json_retries request feedback w))

  review_loop-Steps :
      (answers : List Answer) (plan : Plan) (w : RunState)
      → Steps (λ _ _. Unit) (review_loop py runner json_retries config request answers plan w)
  unfolding review_loop judge_plan
  review_loop-Steps [] plan w = tt
  review_loop-Steps (answer ∷ answers) plan w = elim (Bool-cases (answer.choice == "approve")) [
    | inl yes_ ↦ rw yes_ tt
    | inr other ↦ rw other (elim (Bool-cases (answer.choice == "abort")) [
      | inl stop ↦ rw stop tt
      | inr revise ↦ rw revise (
          Steps-bind (λ _ _. Unit) (λ _ _. Unit)
            (review_loop py runner json_retries config request answers) _ (create_plan-Steps _ w)
            (λ plan' v _. review_loop-Steps answers plan' v))
    ])
  ]

  reviewed_plan-Steps :
      (interaction : Option (List Answer)) (plan : Plan) (w : RunState)
      → Steps (λ _ _. Unit) (reviewed_plan py runner json_retries config request interaction plan w)
  unfolding reviewed_plan
  reviewed_plan-Steps none plan w = tt
  reviewed_plan-Steps (some answers) plan w = review_loop-Steps answers plan w

  tasks-Steps :
      (plan : Plan) (w : RunState) (r : Outcome (List TaskResult) × RunState) (n : ℕ)
      → Runs (PassesPlan plan.tasks) n (Reported config plan.tasks) w r
      → Steps (Reported config plan.tasks) r
  tasks-Steps plan w (ok rs, v) n h = h.0
  tasks-Steps plan w (raised (over_budget e), v) n h = elim h.0 [ ]
  tasks-Steps plan w (raised (response_error x t), v) n h = tt
  tasks-Steps plan w (raised runner_raised, v) n h = tt
  tasks-Steps plan w (raised (dependency_cycle l), v) n h = tt
  tasks-Steps plan w (raised run_aborted, v) n h = tt
  tasks-Steps plan w (raised unanswered, v) n h = tt

  stages-Final :
      (interaction : Option (List Answer)) (w : RunState)
      → Final config (stages py runner json_retries config request interaction w)
  unfolding stages nothing_done planned designed developed deployed
  stages-Final interaction w =
      stage-Final config (λ _ _. Unit) _ _ _ (λ _ over. inl (refl, over)) (create_plan-Steps none w)
        λ plan v _.
          stage-Final config (λ _ _. Unit) _ _ _ (λ _ over. inl (refl, over))
            (reviewed_plan-Steps interaction plan v)
            λ plan' v' _.
              stage-Final config (Stays v') _ _ _ (λ _ over. inl (refl, over))
                (Steps-of_Runs _ _ v' _ (make_design-Asks py runner json_retries request plan' v'))
                λ design u _.
                  stage-Final config (Reported config plan'.tasks) _ _ _
                    (λ _ over. inl (refl, over))
                    (tasks-Steps plan' u _ _
                      (develop_tasks-Reported py runner json_retries config design plan' u))
                    λ results u' reported.
                      let sound : (v'' : RunState)
                          → Stays u' results v''
                          → IsSound config (some plan') results v'' =
                        λ v'' stays. inr (
                          plan',
                          refl,
                          Reported-later config plan'.tasks results u' v'' stays reported,
                        ) in
                      stage-Final config (Stays u') _ _ _ (λ v'' over. sound v'' (λ _. over))
                        (Steps-of_Runs _ _ u' _
                          (plan_deployment-Asks py runner json_retries request design u'))
                        λ deployment v'' stays. (sound v'' stays, inl (deployment, refl))

  -- A run never raises the budget error. Where it returns, it has all that was spent as its cost;
  -- it has a deployment plan, unless the budget is exhausted; and it has a result for each task of
  -- the plan that it returns, unless the budget is exhausted and there is none at all. A result is
  -- done where its last review approves and its last test report clears the bar, and else failed. A
  -- task fails only after exactly the attempts allowed, or where not all of its dependencies on
  -- other tasks of the plan are done before it, or where the budget is exhausted. The done ones
  -- stand behind those that they depend on.
  pub run-Ran :
      (interaction : Option (List Answer)) (w : RunState)
      → Ran config request (run py runner json_retries config request interaction w)
  unfolding run
  run-Ran interaction w = project_result-Ran config request _ (stages-Final interaction w)
