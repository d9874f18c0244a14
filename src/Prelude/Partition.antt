-- ===== src/Prelude/Partition.antt =====
-- A filter and its complement hold together what the list holds; the length of a rearrangement.
use mathlib.Core.Bool.{Bool, not}
use mathlib.Core.List.Perm
use mathlib.Core.List.{List, [], ◌∷◌, ◌++◌, Perm, perm_middle}
use native.Mathlib.Omega.{arith}
use dev_team.Prelude.Lists.{filter, length}
use Prim.Native.Nat.{suc}
use native.Mathlib.Nat.{ℕ_set}
use mathlib.Core.Path.{◌≡◌, refl, ap, ◌∙◌}
use mathlib.Core.Logic.{∥∥₁_elim}
use mathlib.Core.List.{Permᴰ}

pub filter-append-reject-perm {ℓ} :
    {A : Type ℓ} (p : A → Bool) (xs : List A) → Perm (filter p xs ++ filter (λ x. not (p x)) xs) xs
unfolding filter
filter-append-reject-perm p [] = Perm.refl []
filter-append-reject-perm p (x ∷ xs) =
    let kept = Perm.cons x (filter-append-reject-perm p xs) in
    ground (arith, kept, Perm.trans (perm_middle (filter p xs) (filter (λ y. not (p y)) xs)) kept)

length-Permᴰ {ℓ} : {A : Type ℓ} {xs ys : List A} → Permᴰ xs ys → length xs ≡ length ys
length-Permᴰ Permᴰ.nil = refl
length-Permᴰ (Permᴰ.cons e p) = ap suc (length-Permᴰ p)
length-Permᴰ (Permᴰ.swap e f) = refl
length-Permᴰ (Permᴰ.trans p q) = length-Permᴰ p ∙ length-Permᴰ q

-- A rearrangement has as many elements.
pub perm-length {ℓ} : {A : Type ℓ} {xs ys : List A} → Perm xs ys → length xs ≡ length ys
perm-length {A} {xs} {ys} p = ∥∥₁_elim p (ℕ_set (length xs) (length ys)) length-Permᴰ
