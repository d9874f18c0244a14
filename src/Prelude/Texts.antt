-- ===== src/Prelude/Texts.antt =====
-- Membership in a list of texts; a Python set of texts is such a list, read by membership alone.
use Prim.Native.String.{String}
use Prim.Native.Nat.{suc, ◌≤◌}
use mathlib.Core.Path.{◌≡◌, refl}
use mathlib.Core.Bool.{Bool, true, false, not, ◌&&◌, ◌||◌}
use mathlib.Core.List.{List, [], ◌∷◌, ◌++◌}
use native.Mathlib.Omega.{arith}
use text.Mathlib.Text.{◌==◌}
use text.Mathlib.TextEquality.{eq_iff}
use text.Mathlib.TextPositions.{eq_refl}
use mathlib.Core.Logic.{inl, inr}
use dev_team.Prelude.Tests.{Bool-cases}
use dev_team.Prelude.Lists.{filter, all, any, length, length-filter-le}

-- `x in xs`
unfoldable pub elem : String → List String → Bool
elem x [] = false
elem x (y ∷ ys) = y == x || elem x ys

pub elem-append : (x : String) (ys zs : List String) → elem x (ys ++ zs) ≡ (elem x ys || elem x zs)
unfolding elem
elem-append x [] zs = refl
elem-append x (y ∷ ys) zs = ground (arith, elem-append x ys zs)

pub elem-filter :
    (p : String → Bool) (x : String) (ys : List String) → elem x (filter p ys) ≡ (elem x ys && p x)
unfolding elem filter
elem-filter p x [] = refl
elem-filter p x (y ∷ ys) = ground (arith, elem-filter p x ys, eq_iff y x)

-- No text stands twice.
unfoldable pub distinct : List String → Bool
unfolding elem
distinct [] = true
distinct (x ∷ xs) = not (elem x xs) && distinct xs

pub all-elem :
    (p : String → Bool) (x : String) (ys : List String)
    → all p ys ≡ true
    → elem x ys ≡ true
    → p x ≡ true
unfolding all elem
all-elem p x [] h m = cc
all-elem p x (y ∷ ys) h m = ground (arith, all-elem p x ys, eq_iff y x)

-- A test that does not hold of all fails somewhere.
pub all-false :
    (p : String → Bool) (ys : List String)
    → all p ys ≡ false
    → (x : String) × (elem x ys ≡ true) × (p x ≡ false)
unfolding all elem
all-false p [] h = cc
all-false p (y ∷ ys) h = elim (Bool-cases (p y)) [
  | inl passes ↦ let (x, m, f) = all-false p ys (ground arith) in (x, ground arith, f)
  | inr fails ↦ (y, ground (arith, eq_iff y y), fails)
]

pub all_mono :
    (p q : String → Bool) (xs : List String)
    → ((x : String) → p x ≡ true → q x ≡ true)
    → all p xs ≡ true
    → all q xs ≡ true
unfolding all
all_mono p q [] f h = refl
all_mono p q (x ∷ xs) f h = ground (arith, f x, all_mono p q xs f)

pub any_mono :
    (p q : String → Bool) (xs : List String)
    → ((x : String) → p x ≡ true → q x ≡ true)
    → any p xs ≡ true
    → any q xs ≡ true
unfolding any
any_mono p q [] f h = cc
any_mono p q (x ∷ xs) f h = ground (arith, f x, any_mono p q xs f)

pub distinct-append-one :
    (xs : List String) (x : String)
    → distinct xs ≡ true
    → elem x xs ≡ false
    → distinct (xs ++ x ∷ []) ≡ true
unfolding distinct elem
distinct-append-one [] x h f = refl
distinct-append-one (y ∷ ys) x h f =
    ground (arith, distinct-append-one ys x, elem-append y ys (x ∷ []), eq_iff x y, eq_iff y x)

abbrev without : String → List String → List String
without x = filter (λ y. not (y == x))

length-without-lt :
    (x : String) (ys : List String) → elem x ys ≡ true → suc (length (without x ys)) ≤ length ys
unfolding elem filter
length-without-lt x [] m = cc
length-without-lt x (y ∷ ys) m =
    ground (arith, length-without-lt x ys, length-filter-le (λ z. not (z == x)) ys)

-- Distinct texts among others are no more than those.
pub length-le_of_elem :
    (xs ys : List String)
    → distinct xs ≡ true
    → ((x : String) → elem x xs ≡ true → elem x ys ≡ true)
    → length xs ≤ length ys
unfolding distinct elem
length-le_of_elem [] ys d sub = omega arith
length-le_of_elem (x ∷ xs) ys d sub = omega (
  arith,
  length-without-lt x ys (sub x (ground (arith, eq_refl x))),
  length-le_of_elem xs (without x ys) (ground arith)
      (λ z m. ground (arith, sub z, elem-filter (λ w. not (w == x)) z ys, eq_iff z x, eq_iff x z)),
)

pub distinct-filter :
    (p : String → Bool) (ys : List String) → distinct ys ≡ true → distinct (filter p ys) ≡ true
unfolding distinct filter
distinct-filter p [] h = refl
distinct-filter p (y ∷ ys) h = ground (arith, distinct-filter p ys, elem-filter p y ys)

-- Distinct texts among others that are no more than they are: they are all of them.
pub pigeonhole :
    (xs ys : List String)
    → distinct xs ≡ true
    → ((x : String) → elem x xs ≡ true → elem x ys ≡ true)
    → length ys ≤ length xs
    → (y : String) → elem y ys ≡ true
    → elem y xs ≡ true
unfolding distinct elem
pigeonhole xs ys d sub le y m = elim (Bool-cases (elem y xs)) [
  | inl there ↦ there
  | inr missing ↦ absurd (
      omega (
        arith,
        length-le_of_elem (y ∷ xs) ys (ground arith) (λ z h. ground (arith, sub z, eq_iff y z)),
      ))
]

pub any-elem :
    (p : String → Bool) (x : String) (ys : List String)
    → any p ys ≡ false
    → elem x ys ≡ true
    → p x ≡ false
unfolding any elem
any-elem p x [] h m = cc
any-elem p x (y ∷ ys) h m = ground (arith, any-elem p x ys, eq_iff y x)
