-- ===== src/Agents/Retries.antt =====
-- How an agent's call ends, and how many calls of the model it makes.
use dev_team.Prelude.{
  ℕ, zero, suc, ◌+◌, ◌-◌, ◌≤◌, ◌<◌, ◌≡◌, refl, ap, ◌∙◌, String, true, Option, none, some, arith,
}
use dev_team.Budget.{
  AgentResult, Budget, CallOutcome, answered, refused, overspent, call_raised, exhausted, spent,
  run_call,
}
use dev_team.Budget.Calls.{Accounted, Stopped, run_call-Accounted, run_call-Stopped}
use dev_team.Replies.{Python, Fields}
use dev_team.Agents.{
  Reply, Prompt, corrected, RunState, over_budget, response_error, runner_raised, dependency_cycle,
  run_aborted, unanswered, Outcome, ok, raised, continue, usage_of, after_call, Usable, usable,
  unusable, ask, usable_reply, or_again, ask_loop, ask_json,
}

-- What one call leaves alone, how many calls it adds, and that it takes back no spending and leaves
-- an exhausted budget exhausted.
pub record Within (most : ℕ) (w w' : RunState) : Type 0 where
  pub statuses : w'.statuses ≡ w.statuses
  pub calls_from : w.calls ≤ w'.calls
  pub calls_to : w'.calls ≤ w.calls + most
  pub spending : spent w.budget ≤ spent w'.budget
  pub exhaustion : exhausted w.budget ≡ true → exhausted w'.budget ≡ true

pub Within-refl : (most : ℕ) (w : RunState) → Within most w w
Within-refl most w = record {
  statuses = refl;
  calls_from = omega arith;
  calls_to = omega arith;
  spending = omega arith;
  exhaustion = λ e. e;
}

pub Within-trans :
    (m n k : ℕ) (u v w : RunState) → m + n ≤ k → Within m u v → Within n v w → Within k u w
Within-trans m n k u v w le a b = record {
  statuses = b.statuses ∙ a.statuses;
  calls_from = omega (arith, a, b);
  calls_to = omega (arith, a, b);
  spending = omega (arith, a, b);
  exhaustion = λ e. b.exhaustion (a.exhaustion e);
}

-- The outcomes of one question: a reply, and it is the model's; a budget that is exhausted; or an
-- exception of the runner.
abbrev Told : Option Reply → RunState → Outcome Reply × RunState → Type 0
Told told w (ok reply, w') = (w'.calls ≡ suc w.calls) × (told ≡ some reply) × Within 1 w w'
Told told w (raised (over_budget e), w') = (exhausted w'.budget ≡ true) × Within 1 w w'
Told told w (raised runner_raised, w') = (w'.calls ≡ suc w.calls) × Within 1 w w'
Told told w (raised _, w') = ⊥

Accounted-spending :
    (b : Budget) (inner : Option AgentResult) (r : Budget × CallOutcome)
    → Accounted b inner r
    → spent b ≤ spent r.0
Accounted-spending b inner (b', refused e) h = rw h.0 (omega arith)
Accounted-spending b inner (b', call_raised) h = rw h.0 (omega arith)
Accounted-spending b inner (b', answered r) h = omega (arith, h.1)
Accounted-spending b inner (b', overspent e) h =
    let ((r, i, s), p, _, _, _) = h in omega (arith, s, p)

Accounted-exhausted :
    (b : Budget) (inner : Option AgentResult) (r : Budget × CallOutcome)
    → Accounted b inner r
    → exhausted b ≡ true
    → exhausted r.0 ≡ true
Accounted-exhausted b inner (b', refused e) h x = rw h.0 x
Accounted-exhausted b inner (b', call_raised) h x = rw h.0 x
Accounted-exhausted b inner (b', answered r) (_, _, _, free) x = absurd (cc (free, x))
Accounted-exhausted b inner (b', overspent e) (_, _, _, _, free) x = absurd (cc (free, x))

moved :
    (w : RunState) (b : Budget) (n : ℕ)
    → spent w.budget ≤ spent b
    → (exhausted w.budget ≡ true → exhausted b ≡ true)
    → w.calls ≤ n
    → n ≤ suc w.calls
    → Within 1 w (record w { budget = b; calls = n })
moved w b n sp ex from to = record {
  statuses = refl;
  calls_from = from;
  calls_to = omega (arith, to);
  spending = sp;
  exhaustion = ex;
}

after_call-Told :
    (told : Option Reply) (w : RunState) (r : Budget × CallOutcome)
    → spent w.budget ≤ spent r.0
    → (exhausted w.budget ≡ true → exhausted r.0 ≡ true)
    → Stopped r
    → Told told w (after_call told r w)
unfolding after_call
after_call-Told told w (b', refused e) sp ex st =
    (st, moved w b' w.calls sp ex (omega arith) (omega arith))
after_call-Told told w (b', overspent e) sp ex st =
    (st, moved w b' (suc w.calls) sp ex (omega arith) (omega arith))
after_call-Told told w (b', call_raised) sp ex st =
    (refl, moved w b' (suc w.calls) sp ex (omega arith) (omega arith))
after_call-Told none w (b', answered r) sp ex st =
    (refl, moved w b' (suc w.calls) sp ex (omega arith) (omega arith))
after_call-Told (some reply) w (b', answered r) sp ex st =
    (refl, refl, moved w b' (suc w.calls) sp ex (omega arith) (omega arith))

module _ (py : Python) (runner : ℕ → Prompt → Option Reply) where
  ask-Told :
      (role : String) (prompt : Prompt) (w : RunState)
      → Told (runner w.calls prompt) w (ask py runner role prompt w)
  unfolding ask
  ask-Told role prompt w =
      let inner = usage_of (runner w.calls prompt) in
      after_call-Told (runner w.calls prompt) w (run_call role inner w.budget)
        (Accounted-spending w.budget inner _ (run_call-Accounted role inner w.budget))
        (Accounted-exhausted w.budget inner _ (run_call-Accounted role inner w.budget))
        (run_call-Stopped role inner w.budget)

  -- How the loop ends with some attempts left, the last response being of a call made before.
  abbrev pub Ended : ℕ → String → RunState → Outcome Fields × RunState → Type 0
  Ended left role w (ok d, w') =
      ((prompt : Prompt) × (reply : Reply) × (runner (w'.calls - 1) prompt ≡ some reply)
        × (usable_reply py reply ≡ usable d))
      × (w.calls < w'.calls)
      × Within left w w'
  Ended left role w (raised (over_budget e), w') = (exhausted w'.budget ≡ true) × Within left w w'
  Ended left role w (raised runner_raised, w') = (w.calls < w'.calls) × Within left w w'
  Ended left role w (raised (response_error r t), w') =
      (r ≡ role) × (w'.calls ≡ w.calls + left) × Within left w w'
  Ended left role w (raised _, w') = ⊥

  Ended-later :
      (left : ℕ) (role : String) (u v : RunState) (r : Outcome Fields × RunState)
      → v.calls ≡ suc u.calls
      → Within 1 u v
      → Ended left role v r
      → Ended (suc left) role u r
  Ended-later left role u v (ok d, w') c h e =
      (e.0, omega (arith, e.1, h), Within-trans 1 left (suc left) u v w' (omega arith) h e.2)
  Ended-later left role u v (raised (over_budget x), w') c h e =
      (e.0, Within-trans 1 left (suc left) u v w' (omega arith) h e.1)
  Ended-later left role u v (raised runner_raised, w') c h e =
      (omega (arith, e.0, h), Within-trans 1 left (suc left) u v w' (omega arith) h e.1)
  Ended-later left role u v (raised (response_error x t), w') c h e =
      (e.0, omega (arith, e.1), Within-trans 1 left (suc left) u v w' (omega arith) h e.2)
  Ended-later left role u v (raised (dependency_cycle l), w') c h e = elim e [ ]
  Ended-later left role u v (raised run_aborted, w') c h e = elim e [ ]
  Ended-later left role u v (raised unanswered, w') c h e = elim e [ ]

  Within-suc : (left : ℕ) (u w' : RunState) → Within 1 u w' → Within (suc left) u w'
  Within-suc left u w' h = record {
    statuses = h.statuses;
    calls_from = h.calls_from;
    calls_to = omega (arith, h);
    spending = h.spending;
    exhaustion = h.exhaustion;
  }

  after_ask :
      (left : ℕ) (role : String) (prompt attempt : Prompt) (w : RunState)
      (r : Outcome Reply × RunState)
      → ((attempt' : Prompt) (last : String) (v : RunState)
          → Ended left role v (ask_loop py runner left role prompt attempt' last v))
      → Told (runner w.calls attempt) w r
      → Ended (suc left) role w (
          continue
            (λ reply.
              or_again (ask_loop py runner left role prompt) prompt reply (usable_reply py reply))
            r)
  unfolding or_again
  after_ask left role prompt attempt w (raised (over_budget e), w') ih h =
      (h.0, Within-suc left w w' h.1)
  after_ask left role prompt attempt w (raised runner_raised, w') ih h =
      (omega (arith, h.0), Within-suc left w w' h.1)
  after_ask left role prompt attempt w (raised (response_error x t), w') ih h = elim h [ ]
  after_ask left role prompt attempt w (raised (dependency_cycle l), w') ih h = elim h [ ]
  after_ask left role prompt attempt w (raised run_aborted, w') ih h = elim h [ ]
  after_ask left role prompt attempt w (raised unanswered, w') ih h = elim h [ ]
  after_ask left role prompt attempt w (ok reply, w') ih h = judged (usable_reply py reply) refl
    where
      judged :
          (u : Usable)
          → usable_reply py reply ≡ u
          → Ended
              (suc left)
              role
              w
              (or_again (ask_loop py runner left role prompt) prompt reply u w')
      judged (usable d) e = (
        (attempt, reply, ap (λ n. runner n attempt) (omega (arith, h.0)) ∙ h.1, e),
        omega (arith, h.0),
        Within-suc left w w' h.2,
      )
      judged (unusable why) e =
          Ended-later left role w w' _ h.0 h.2 (ih (corrected prompt why reply.text) reply.text w')

  ask_loop-Ended :
      (left : ℕ) (role : String) (prompt attempt : Prompt) (last : String) (w : RunState)
      → Ended left role w (ask_loop py runner left role prompt attempt last w)
  unfolding ask_loop
  ask_loop-Ended zero role prompt attempt last w = (refl, omega arith, Within-refl 0 w)
  ask_loop-Ended (suc left) role prompt attempt last w =
      after_ask left role prompt attempt w _ (ask_loop-Ended left role prompt)
        (ask-Told role attempt w)

  -- A question of an agent makes one call of the model for each retry that it may make, and one more,
  -- at most; it assigns no status of a task, and takes no spending back. It ends with an object that
  -- is read off the model's last reply; or with a budget that is exhausted; or with an exception of
  -- the runner; or, only after all of its calls, with the error that no response could be used.
  pub ask_json-Ended :
      (json_retries : ℕ) (role : String) (prompt : Prompt) (w : RunState)
      → Ended (suc json_retries) role w (ask_json py runner json_retries role prompt w)
  unfolding ask_json
  ask_json-Ended json_retries role prompt w =
      ask_loop-Ended (suc json_retries) role prompt prompt "" w
