-- ===== src/Workflow/Statuses.antt =====
-- The statuses that a task under development goes through.
use dev_team.Prelude.{
  ℕ, ◌+◌, ◌≡◌, refl, ap, ◌∙◌, String, Bool, true, false, ◌&&◌, List, [], ◌∷◌, ◌++◌, map, arith,
  append_assoc, map-append, append-nil,
}
use dev_team.Models.{
  TaskStatus, pending, in_progress, in_review, changes_requested, testing, done, failed,
}
use dev_team.Agents.{RunState}

-- The statuses that may come next: a task starts or is given up at once; it goes to review, to
-- testing and to done; or changes are requested, and it starts again or is given up.
unfoldable pub follows : TaskStatus → TaskStatus → Bool
follows pending in_progress = true
follows pending failed = true
follows in_progress in_review = true
follows in_review testing = true
follows in_review changes_requested = true
follows testing done = true
follows testing changes_requested = true
follows changes_requested in_progress = true
follows changes_requested failed = true
follows _ _ = false

unfoldable pub is_walk : TaskStatus → List TaskStatus → Bool
unfolding follows
is_walk s [] = true
is_walk s (t ∷ ts) = follows s t && is_walk t ts

unfoldable pub ends_at : TaskStatus → List TaskStatus → TaskStatus
ends_at s [] = s
ends_at s (t ∷ ts) = ends_at t ts

starts_attempt : TaskStatus → ℕ
starts_attempt in_progress = 1
starts_attempt _ = 0

-- How often a task was started.
unfoldable pub starts_in : List TaskStatus → ℕ
unfolding starts_attempt
starts_in [] = 0
starts_in (t ∷ ts) = starts_attempt t + starts_in ts

pub is_walk-snoc :
    (s t : TaskStatus) (path : List TaskStatus)
    → is_walk s path ≡ true
    → follows (ends_at s path) t ≡ true
    → is_walk s (path ++ t ∷ []) ≡ true
unfolding is_walk ends_at
is_walk-snoc s t [] w f = rw f refl
is_walk-snoc s t (u ∷ path) w f = ground (arith, is_walk-snoc u t path, w, f)

pub ends_at-snoc : (s t : TaskStatus) (path : List TaskStatus) → ends_at s (path ++ t ∷ []) ≡ t
unfolding ends_at
ends_at-snoc s t [] = refl
ends_at-snoc s t (u ∷ path) = ends_at-snoc u t path

pub starts_in-snoc :
    (t : TaskStatus) (path : List TaskStatus)
    → starts_in (path ++ t ∷ []) ≡ starts_in path + starts_in (t ∷ [])
unfolding starts_in
starts_in-snoc t [] = omega arith
starts_in-snoc t (u ∷ path) = omega (arith, starts_in-snoc t path)

-- The path of a task since some assignments were made, and where it stands.
pub record Traced (base : List (String × TaskStatus)) (tid : String) (at : TaskStatus) (starts : ℕ)
    (w : RunState) : Type 0 where
  pub path : List TaskStatus
  pub assigned : w.statuses ≡ base ++ map (λ s. (tid, s)) path
  pub walks : is_walk pending path ≡ true
  pub stands : ends_at pending path ≡ at
  pub started : starts_in path ≡ starts

module _ (base : List (String × TaskStatus)) (tid : String) where
  pub Traced-start : (w : RunState) → w.statuses ≡ base → Traced base tid pending 0 w
  unfolding is_walk ends_at starts_in
  Traced-start w e = record {
    path = [];
    assigned = e ∙ rw append-nil refl;
    walks = refl;
    stands = refl;
    started = refl;
  }

  pub Traced-set :
      (at next : TaskStatus) (n m : ℕ) (w : RunState)
      → follows at next ≡ true
      → n + starts_in (next ∷ []) ≡ m
      → Traced base tid at n w
      → Traced base tid next m (record w { statuses = w.statuses ++ (tid, next) ∷ [] })
  Traced-set at next n m w f e t = record {
    path = t.path ++ next ∷ [];
    assigned = rw (t.assigned, map-append, append_assoc) refl;
    walks = is_walk-snoc pending next t.path t.walks (rw t.stands f);
    stands = ends_at-snoc pending next t.path;
    started = starts_in-snoc next t.path ∙ ap (λ k. k + starts_in (next ∷ [])) t.started ∙ e;
  }

  pub Traced-same :
      (at : TaskStatus) (n : ℕ) (w v : RunState)
      → v.statuses ≡ w.statuses
      → Traced base tid at n w
      → Traced base tid at n v
  Traced-same at n w v e t = record {
    path = t.path;
    assigned = e ∙ t.assigned;
    walks = t.walks;
    stands = t.stands;
    started = t.started;
  }
