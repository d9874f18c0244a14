-- ===== src/Replan/UniqueId.antt =====
-- `_unique_id` of src/dev_team/replan.py ends, with an id that is not taken.
use dev_team.Prelude.{
  ℕ, zero, suc, ◌<◌, ◌≡◌, refl, String, true, false, List, [], ◌∷◌, length, elem, distinct,
  length-le_of_elem, arith, eq_iff, Bool-cases, inl, inr,
}
use dev_team.Prelude.Decimal.{suffixed, suffixed-inj}
use dev_team.Replan.{probe, unique_id}

-- The ids that the loop tries in `fuel` rounds and one more.
tried : ℕ → String → ℕ → List String
tried zero candidate n = suffixed candidate n ∷ []
tried (suc fuel) candidate n = suffixed candidate n ∷ tried fuel candidate (suc n)

length-tried : (fuel : ℕ) (candidate : String) (n : ℕ) → length (tried fuel candidate n) ≡ suc fuel
unfolding tried
length-tried zero candidate n = refl
length-tried (suc fuel) candidate n = omega (arith, length-tried fuel candidate (suc n))

-- Ids with a smaller number are not among them.
tried-above :
    (fuel : ℕ) (candidate : String) (m n : ℕ)
    → m < n
    → elem (suffixed candidate m) (tried fuel candidate n) ≡ false
unfolding tried elem
tried-above zero candidate m n h =
    ground (arith, suffixed-inj candidate n m, eq_iff (suffixed candidate n) (suffixed candidate m))
tried-above (suc fuel) candidate m n h = ground (
  arith,
  suffixed-inj candidate n m,
  eq_iff (suffixed candidate n) (suffixed candidate m),
  tried-above fuel candidate m (suc n),
)

distinct-tried : (fuel : ℕ) (candidate : String) (n : ℕ) → distinct (tried fuel candidate n) ≡ true
unfolding tried distinct elem
distinct-tried zero candidate n = refl
distinct-tried (suc fuel) candidate n =
    ground (arith, distinct-tried fuel candidate (suc n), tried-above fuel candidate n (suc n))

-- Where the result is taken, all the ids that were tried are.
probe-taken :
    (fuel : ℕ) (candidate : String) (taken : List String) (n : ℕ)
    → elem (probe fuel candidate taken n) taken ≡ true
    → (x : String) → elem x (tried fuel candidate n) ≡ true
    → elem x taken ≡ true
unfolding probe tried elem
probe-taken zero candidate taken n h x m = ground (arith, eq_iff (suffixed candidate n) x)
probe-taken (suc fuel) candidate taken n h x m =
    elim (Bool-cases (elem (suffixed candidate n) taken)) [
      | inl used ↦ ground (
        arith,
        used,
        eq_iff (suffixed candidate n) x,
        probe-taken fuel candidate taken (suc n) (rw used at h) x,
      )
      | inr free ↦ absurd (ground (arith, free, rw free at h))
    ]

-- The id is not taken.
pub unique_id-fresh :
    (candidate : String) (taken : List String) → elem (unique_id candidate taken) taken ≡ false
unfolding unique_id
unique_id-fresh candidate taken = elim (Bool-cases (elem candidate taken)) [
  | inr free ↦ rw free free
  | inl used ↦ rw used (elim (Bool-cases (elem (probe (length taken) candidate taken 2) taken)) [
    | inr free ↦ free
    | inl all_used ↦ absurd (
        omega (
          arith,
          length-tried (length taken) candidate 2,
          length-le_of_elem (tried (length taken) candidate 2) taken
              (distinct-tried (length taken) candidate 2)
              (probe-taken (length taken) candidate taken 2 all_used),
        ))
  ])
]
