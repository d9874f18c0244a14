-- ===== src/Scheduler/Invariant.antt =====
-- What holds of the scheduler's state between any two of its steps, and that giving a task its
-- status keeps it.
use mathlib.Core.Path.{subst, subst₂, ap}
use mathlib.Core.Option.{some-injective}
use mathlib.Core.Bool.{false≢true}
use dev_team.Prelude.{
  ℕ, ◌≤◌, String, ◌≡◌, refl, sym, ◌∙◌, Bool, true, false, ◌||◌, Option, none, some, List, ◌==◌,
  eq_iff, length, elem, map, map-append, arith, all_mono, any_mono, distinct, distinct-append-one,
  Bool-cases, inl, inr,
}
use dev_team.Prelude.Dict.{
  Dict, get, has, set, keys, get-set, has-set, get-none, set-absent, has-keys,
}
use dev_team.Models.{ids}
use dev_team.Ordering.{deps_of}
use dev_team.Scheduler.{
  ScheduleStatus, done, failed, skipped, ScheduledResult, State, resolve, is_done, is_doomed,
  is_blocked, is_startable,
}

-- A task is skipped for a dependency that failed or was skipped; it runs, to whatever end, when
-- all its dependencies are done.
abbrev pub Justified : Dict (List String) → Dict ScheduleStatus → String → ScheduleStatus → Type 0
Justified deps status tid skipped = is_blocked deps status tid ≡ true
Justified deps status tid done = is_startable deps status tid ≡ true
Justified deps status tid failed = is_startable deps status tid ≡ true

abbrev pub entry : ScheduledResult → String × ScheduleStatus
entry r = (r.task_id, r.status)

-- Of the ids that are `known`, and up to `cap` tasks at once.
pub record IsSound (deps : Dict (List String)) (known : List String) (cap : ℕ) (s : State)
    : Type 0 where
  pub keys_unique : distinct (keys s.status) ≡ true
  pub keys_known : (tid : String) → has s.status tid ≡ true → elem tid known ≡ true
  pub flying_known : (tid : String) → elem tid (ids s.in_flight) ≡ true → elem tid known ≡ true
  pub flying_open : (tid : String) → elem tid (ids s.in_flight) ≡ true → has s.status tid ≡ false
  pub flying_started :
      (tid : String) → elem tid (ids s.in_flight) ≡ true → elem tid s.started ≡ true
  pub flying_ready :
      (tid : String) → elem tid (ids s.in_flight) ≡ true → is_startable deps s.status tid ≡ true
  pub within : length s.in_flight ≤ cap
  pub settled :
      (tid : String) (st : ScheduleStatus)
      → get s.status tid ≡ some st
      → Justified deps s.status tid st
  pub heard : map entry s.notified ≡ s.status

-- A task that was started is in flight, or has its status.
abbrev pub Tracked : State → Type 0
Tracked s =
    (tid : String)
    → elem tid s.started ≡ true
    → (has s.status tid || elem tid (ids s.in_flight)) ≡ true

module _ (deps : Dict (List String)) (s : State) (tid : String) (o : ScheduleStatus)
    (error : Option String) (fresh : has s.status tid ≡ false) where
  -- A status that is set stays as it is, so what it allowed or forbade stays so too.
  status-resolve :
      (p : Option ScheduleStatus → Bool)
      → p none ≡ false
      → (d : String) → p (get s.status d) ≡ true
      → p (get (set s.status tid o) d) ≡ true
  status-resolve p base d h = elim (Bool-cases (tid == d)) [
    | inl same ↦ absurd (
        false≢true (
          sym base
          ∙ ap p (
              sym (
                get-none s.status d
                  (subst (λ k. has s.status k ≡ false) ((eq_iff tid d).0 same) fresh)))
          ∙ h))
    | inr other ↦ rw (get-set s.status tid d o) (rw other h)
  ]

  pub is_startable-resolve :
      (k : String)
      → is_startable deps s.status k ≡ true
      → is_startable deps (set s.status tid o) k ≡ true
  unfolding is_startable is_done
  is_startable-resolve k = all_mono _ _ (deps_of deps k) (λ d h. status-resolve is_done refl d h)

  pub is_blocked-resolve :
      (k : String)
      → is_blocked deps s.status k ≡ true
      → is_blocked deps (set s.status tid o) k ≡ true
  unfolding is_blocked is_doomed
  is_blocked-resolve k = any_mono _ _ (deps_of deps k) (λ d h. status-resolve is_doomed refl d h)

  pub Justified-resolve :
      (k : String) (st : ScheduleStatus)
      → Justified deps s.status k st
      → Justified deps (set s.status tid o) k st
  Justified-resolve k skipped h = is_blocked-resolve k h
  Justified-resolve k done h = is_startable-resolve k h
  Justified-resolve k failed h = is_startable-resolve k h

  settled-resolve :
      {known : List String} {cap : ℕ}
      → IsSound deps known cap s
      → Justified deps s.status tid o
      → (j : String) (st : ScheduleStatus) → get (set s.status tid o) j ≡ some st
      → Justified deps (set s.status tid o) j st
  settled-resolve v why j st h = elim (Bool-cases (tid == j)) [
    | inl same ↦
        subst₂ (Justified deps (set s.status tid o)) ((eq_iff tid j).0 same)
          (some-injective o st (ground (arith, get-set s.status tid j o)))
          (Justified-resolve tid o why)
    | inr other ↦ Justified-resolve j st (v.settled j st (ground (arith, get-set s.status tid j o)))
  ]

  pub resolve-IsSound :
      {known : List String} {cap : ℕ}
      → IsSound deps known cap s
      → elem tid (ids s.in_flight) ≡ false
      → elem tid known ≡ true
      → Justified deps s.status tid o
      → IsSound deps known cap (resolve tid o error s)
  unfolding resolve
  resolve-IsSound v landed k why = record {
    keys_unique = rw (set-absent s.status tid o fresh) (
        rw map-append (
          distinct-append-one (keys s.status) tid v.keys_unique
            (rw (has-keys s.status tid) at fresh)));
    keys_known = λ j h. ground (arith, v.keys_known j, has-set s.status tid j o, eq_iff tid j);
    flying_known = v.flying_known;
    flying_open = λ j h. ground (arith, v.flying_open j, has-set s.status tid j o, eq_iff tid j);
    flying_started = v.flying_started;
    flying_ready = λ j h. is_startable-resolve j (v.flying_ready j h);
    within = v.within;
    settled = λ j st h. settled-resolve v why j st h;
    heard = rw (map-append, v.heard, set-absent s.status tid o fresh);
  }
