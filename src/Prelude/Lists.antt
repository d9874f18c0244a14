-- ===== src/Prelude/Lists.antt =====
-- Lists measured by native numbers and filtered by Boolean tests, under the library's names.
use Prim.Native.Nat.{ℕ, suc, ◌+◌, ◌≤◌}
use mathlib.Core.Path.{◌≡◌, refl, ap}
use mathlib.Core.Bool.{Bool, true, false, not, ◌&&◌, ◌||◌}
use mathlib.Core.List.{List, [], ◌∷◌, ◌++◌, map}
use native.Mathlib.Omega.{arith}
use dev_team.Prelude.Tests.{if◌then◌else◌}

module _ {ℓ} {A : Type ℓ} where
  abbrev pub length : List A → ℕ
  length [] = 0
  length (x ∷ xs) = suc (length xs)

  abbrev pub is_empty : List A → Bool
  is_empty [] = true
  is_empty (x ∷ xs) = false

  -- `[x for x in xs if p(x)]`
  unfoldable pub filter : (A → Bool) → List A → List A
  filter p [] = []
  filter p (x ∷ xs) = let rest = filter p xs in if p x then x ∷ rest else rest

  -- `all(p(x) for x in xs)` and `any(p(x) for x in xs)`
  unfoldable pub all : (A → Bool) → List A → Bool
  all p [] = true
  all p (x ∷ xs) = p x && all p xs

  unfoldable pub any : (A → Bool) → List A → Bool
  any p [] = false
  any p (x ∷ xs) = p x || any p xs

  abbrev pub All {κ} : (A → Type κ) → List A → Type κ
  All P [] = Unit
  All P (x ∷ xs) = P x × All P xs

module _ {ℓ} {A : Type ℓ} where
  pub length-append : (xs ys : List A) → length (xs ++ ys) ≡ length xs + length ys
  length-append [] ys = omega arith
  length-append (x ∷ xs) ys = omega (arith, length-append xs ys)

  pub length-map {κ} : {B : Type κ} (f : A → B) (xs : List A) → length (map f xs) ≡ length xs
  length-map f [] = refl
  length-map f (x ∷ xs) = ap suc (length-map f xs)

  pub length-filter-le : (p : A → Bool) (xs : List A) → length (filter p xs) ≤ length xs
  unfolding filter
  length-filter-le p [] = omega arith
  length-filter-le p (x ∷ xs) = ground (arith, length-filter-le p xs)

  pub length-filter-add-reject :
      (p : A → Bool) (xs : List A)
      → length (filter p xs) + length (filter (λ x. not (p x)) xs) ≡ length xs
  unfolding filter
  length-filter-add-reject p [] = omega arith
  length-filter-add-reject p (x ∷ xs) = ground (arith, length-filter-add-reject p xs)

  pub All-append {κ} : (P : A → Type κ) (xs ys : List A) → All P xs → All P ys → All P (xs ++ ys)
  All-append P [] ys h k = k
  All-append P (x ∷ xs) ys h k = (h.0, All-append P xs ys h.1 k)

  pub All-filter {κ} :
      (P : A → Type κ) (p : A → Bool) (xs : List A) → All P xs → All P (filter p xs)
  unfolding filter
  All-filter P p [] h = tt
  All-filter P p (x ∷ xs) h = ground (arith, All-filter P p xs h.1)

  pub All-map {κ μ} :
      (P : A → Type κ) (Q : A → Type μ) (xs : List A) → ((x : A) → P x → Q x) → All P xs → All Q xs
  All-map P Q [] f h = tt
  All-map P Q (x ∷ xs) f h = (f x h.0, All-map P Q xs f h.1)

  -- What a filter keeps passes its test.
  pub All-filter_test : (p : A → Bool) (xs : List A) → All (λ x. p x ≡ true) (filter p xs)
  unfolding filter
  All-filter_test p [] = tt
  All-filter_test p (x ∷ xs) = ground (arith, All-filter_test p xs)

  pub all_iff : (p : A → Bool) (xs : List A) → all p xs ≡ true → All (λ x. p x ≡ true) xs
  unfolding all
  all_iff p [] h = tt
  all_iff p (x ∷ xs) h = ground (arith, all_iff p xs)

module _ {ℓ} {A : Type ℓ} where
  pub All-map₂ {κ μ ν} :
      (P : A → Type κ) (Q : A → Type μ) (R : A → Type ν) (xs : List A)
      → ((x : A) → P x → Q x → R x)
      → All P xs
      → All Q xs
      → All R xs
  All-map₂ P Q R [] f h k = tt
  All-map₂ P Q R (x ∷ xs) f h k = (f x h.0 k.0, All-map₂ P Q R xs f h.1 k.1)

  -- An element in the middle of a list.
  pub any-middle :
      (p : A → Bool) (xs ys : List A) (x : A) → any p (xs ++ x ∷ ys) ≡ (p x || any p (xs ++ ys))
  unfolding any
  any-middle p [] ys x = refl
  any-middle p (z ∷ xs) ys x = ground (arith, any-middle p xs ys x)
