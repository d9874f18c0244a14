-- ===== src/Backlog/Iterations.antt =====
-- `plan_iteration` of src/dev_team/backlog.py keeps to the capacity, and leaves nothing out that
-- fits.
use dev_team.Prelude.{
  ℕ, ◌+◌, ◌-◌, ◌≤◌, ◌<◌, ◌≡◌, String, false, List, [], ◌∷◌, map, leb, elem, All, All-map, arith,
  eq_refl, Bool-cases, inl, inr,
}
use dev_team.Backlog.{Story, Backlog, fill, committed_points, ready_stories, plan_iteration}

abbrev pub ids_of : List Story → List String
ids_of ss = map (λ s. s.id) ss

committed_points-fill-le :
    (remaining : ℕ) (ss : List Story) → committed_points (fill remaining ss) ≤ remaining
unfolding fill committed_points
committed_points-fill-le remaining [] = omega arith
committed_points-fill-le remaining (s ∷ ss) = ground (
  arith,
  committed_points-fill-le (remaining - s.estimate) ss,
  committed_points-fill-le remaining ss,
)

-- The stories of a list that are not among the committed ones do not fit beside them.
abbrev pub DoesNotFit : ℕ → List Story → Story → Type 0
DoesNotFit capacity committed s =
    elem s.id (ids_of committed) ≡ false → capacity < committed_points committed + s.estimate

fill-DoesNotFit :
    (remaining : ℕ) (ss : List Story) → All (DoesNotFit remaining (fill remaining ss)) ss
unfolding fill committed_points elem
fill-DoesNotFit remaining [] = tt
fill-DoesNotFit remaining (s ∷ ss) = elim (Bool-cases (leb s.estimate remaining)) [
  | inl fits ↦ (
    λ m. absurd (ground (arith, eq_refl s.id, m, fits)),
    All-map (DoesNotFit (remaining - s.estimate) (fill (remaining - s.estimate) ss))
        (DoesNotFit remaining (fill remaining (s ∷ ss))) ss (λ t h m. ground (arith, fits, m, h))
        (fill-DoesNotFit (remaining - s.estimate) ss),
  )
  | inr big ↦ (
    λ m. ground (arith, big),
    All-map (DoesNotFit remaining (fill remaining ss))
        (DoesNotFit remaining (fill remaining (s ∷ ss))) ss (λ t h m. ground (arith, big, m, h))
        (fill-DoesNotFit remaining ss),
  )
]

-- An iteration commits to no more points than its capacity, and each story to do that it leaves out
-- would exceed the capacity beside those it commits to.
pub plan_iteration-greedy :
    (capacity : ℕ) (b : Backlog)
    → (committed_points (plan_iteration capacity b) ≤ capacity)
      × All (DoesNotFit capacity (plan_iteration capacity b)) (ready_stories b)
unfolding plan_iteration
plan_iteration-greedy capacity b = (
  committed_points-fill-le capacity (ready_stories b),
  fill-DoesNotFit capacity (ready_stories b),
)
