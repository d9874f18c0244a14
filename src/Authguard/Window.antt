-- ===== src/Authguard/Window.antt =====
-- The failures that are still in the window.
use dev_team.Prelude.{
  ℕ, ◌+◌, ◌≤◌, ◌≡◌, refl, Bool, List, [], ◌∷◌, ◌++◌, ltb, leb, filter, arith, Bool-cases, inl, inr,
}
use dev_team.Authguard.{prune}

abbrev pub is_recent : ℕ → ℕ → ℕ → Bool
is_recent window now t = leb now (t + window)

-- In order, and between two times.
abbrev pub Ascending : ℕ → ℕ → List ℕ → Type 0
Ascending lo hi [] = lo ≤ hi
Ascending lo hi (t ∷ ts) = (lo ≤ t) × Ascending t hi ts

Ascending-le : (lo hi : ℕ) (ts : List ℕ) → Ascending lo hi ts → lo ≤ hi
Ascending-le lo hi [] a = a
Ascending-le lo hi (t ∷ ts) a = omega (arith, Ascending-le t hi ts a.1)

Ascending-lower :
    (lo lo' hi : ℕ) (ts : List ℕ) → lo' ≤ lo → Ascending lo hi ts → Ascending lo' hi ts
Ascending-lower lo lo' hi [] h a = omega arith
Ascending-lower lo lo' hi (t ∷ ts) h a = (omega (arith, a.0), a.1)

pub Ascending-append :
    (lo hi hi' : ℕ) (ts : List ℕ)
    → hi ≤ hi'
    → Ascending lo hi ts
    → Ascending lo hi' (ts ++ hi' ∷ [])
Ascending-append lo hi hi' [] h a = (omega arith, omega arith)
Ascending-append lo hi hi' (t ∷ ts) h a = (a.0, Ascending-append t hi hi' ts h a.1)

pub Ascending-upper :
    (lo hi hi' : ℕ) (ts : List ℕ) → hi ≤ hi' → Ascending lo hi ts → Ascending lo hi' ts
Ascending-upper lo hi hi' [] h a = omega arith
Ascending-upper lo hi hi' (t ∷ ts) h a = (a.0, Ascending-upper t hi hi' ts h a.1)

pub Ascending-filter :
    (p : ℕ → Bool) (lo hi : ℕ) (ts : List ℕ) → Ascending lo hi ts → Ascending lo hi (filter p ts)
unfolding filter
Ascending-filter p lo hi [] a = a
Ascending-filter p lo hi (t ∷ ts) a = elim (Bool-cases (p t)) [
  | inl kept ↦ rw kept (a.0, Ascending-filter p t hi ts a.1)
  | inr gone ↦ rw gone (Ascending-lower t lo hi (filter p ts) a.0 (Ascending-filter p t hi ts a.1))
]

-- What comes after a recent time is recent.
filter-recent :
    (window now lo hi : ℕ) (ts : List ℕ)
    → now ≤ lo + window
    → Ascending lo hi ts
    → filter (is_recent window now) ts ≡ ts
unfolding filter
filter-recent window now lo hi [] h a = refl
filter-recent window now lo hi (t ∷ ts) h a =
    ground (arith, a.0, filter-recent window now t hi ts (omega (arith, a.0)) a.1)

-- The loop of `_prune` keeps the recent times, and no others.
pub prune-filter :
    (window now lo hi : ℕ) (ts : List ℕ)
    → Ascending lo hi ts
    → prune window now ts ≡ filter (is_recent window now) ts
unfolding prune filter
prune-filter window now lo hi [] a = refl
prune-filter window now lo hi (t ∷ ts) a = elim (Bool-cases (ltb (t + window) now)) [
  | inl stale ↦ rw stale (ground (arith, prune-filter window now t hi ts a.1))
  | inr fresh ↦ rw fresh (ground (arith, filter-recent window now t hi ts (ground arith) a.1))
]

-- What is recent later was recent before.
pub filter-filter :
    (window now n : ℕ) (ts : List ℕ)
    → n ≤ now
    → filter (is_recent window now) (filter (is_recent window n) ts)
      ≡ filter (is_recent window now) ts
unfolding filter
filter-filter window now n [] h = refl
filter-filter window now n (t ∷ ts) h = ground (arith, filter-filter window now n ts h)

pub filter-append :
    (p : ℕ → Bool) (xs ys : List ℕ) → filter p (xs ++ ys) ≡ filter p xs ++ filter p ys
unfolding filter
filter-append p [] ys = refl
filter-append p (x ∷ xs) ys = ground (arith, filter-append p xs ys)
