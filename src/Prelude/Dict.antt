-- ===== src/Prelude/Dict.antt =====
-- A Python dict with text keys, as the list of its items in insertion order: writing to a present
-- key keeps its place, and a new key goes to the end.
use dev_team.Prelude.Tests.{if◌then◌else◌, Bool-cases}
use Prim.Native.Nat.{suc, ◌≤◌}
use dev_team.Prelude.Lists.{length, length-append}
use dev_team.Prelude.Texts.{elem}
use mathlib.Core.Logic.{inl, inr}
use mathlib.Core.Bool.{true}
use mathlib.Core.List.{◌++◌, map}
use Prim.Native.String.{String}
use mathlib.Core.Path.{◌≡◌, refl}
use mathlib.Core.Bool.{Bool, false, not, ◌&&◌, ◌||◌}
use mathlib.Core.Option.{Option, none, some}
use mathlib.Core.List.{List, [], ◌∷◌}
use native.Mathlib.Omega.{arith}
use text.Mathlib.Text.{◌==◌}
use text.Mathlib.TextEquality.{eq_iff}

abbrev pub Dict {ℓ} : Type ℓ → Type ℓ
Dict V = List (String × V)

module _ {ℓ} {V : Type ℓ} where
  -- `d.get(k)`
  unfoldable pub get : Dict V → String → Option V
  get [] k = none
  get ((j, v) ∷ d) k = let rest = get d k in if j == k then some v else rest

  -- `k in d`
  unfoldable pub has : Dict V → String → Bool
  has [] k = false
  has ((j, v) ∷ d) k = j == k || has d k

  -- `d[k] = v`
  unfoldable pub set : Dict V → String → V → Dict V
  set [] k v = (k, v) ∷ []
  set ((j, w) ∷ d) k v = let rest = set d k v in if j == k then (j, v) ∷ d else (j, w) ∷ rest

  -- `d.pop(k, None)`
  unfoldable pub remove : Dict V → String → Dict V
  remove [] k = []
  remove ((j, w) ∷ d) k = let rest = remove d k in if j == k then rest else (j, w) ∷ rest

  pub get-set :
      (d : Dict V) (k j : String) (v : V) → get (set d k v) j ≡ (if k == j then some v else get d j)
  unfolding get set
  get-set [] k j v = refl
  get-set ((i, w) ∷ d) k j v = ground (arith, get-set d k j v, eq_iff k j, eq_iff i k, eq_iff i j)

  pub has-set : (d : Dict V) (k j : String) (v : V) → has (set d k v) j ≡ (k == j || has d j)
  unfolding has set
  has-set [] k j v = refl
  has-set ((i, w) ∷ d) k j v = ground (arith, has-set d k j v, eq_iff k j, eq_iff i k, eq_iff i j)

  pub get-remove :
      (d : Dict V) (k j : String) → get (remove d k) j ≡ (if k == j then none else get d j)
  unfolding get remove
  get-remove [] k j = ground arith
  get-remove ((i, w) ∷ d) k j = ground (arith, get-remove d k j, eq_iff k j, eq_iff i k, eq_iff i j)

  pub has-remove : (d : Dict V) (k j : String) → has (remove d k) j ≡ (not (k == j) && has d j)
  unfolding has remove
  has-remove [] k j = ground arith
  has-remove ((i, w) ∷ d) k j = ground (arith, has-remove d k j, eq_iff k j, eq_iff i k, eq_iff i j)

pub ruleset dict_laws = (get-set, has-set, get-remove, has-remove)

module _ {ℓ} {V : Type ℓ} where
  -- `list(d)`
  abbrev pub keys : Dict V → List String
  keys d = map (λ e. e.0) d

  pub has-keys : (d : Dict V) (k : String) → has d k ≡ elem k (keys d)
  unfolding has elem
  has-keys [] k = refl
  has-keys ((j, v) ∷ d) k = ground (arith, has-keys d k)

  pub get-none : (d : Dict V) (k : String) → has d k ≡ false → get d k ≡ none
  unfolding has get
  get-none [] k h = refl
  get-none ((j, v) ∷ d) k h = ground (arith, get-none d k)

  pub get-some : (d : Dict V) (k : String) → has d k ≡ true → (v : V) × (get d k ≡ some v)
  unfolding has get
  get-some [] k h = cc
  get-some ((j, v) ∷ d) k h = elim (Bool-cases (j == k)) [
    | inl same ↦ (v, rw same)
    | inr other ↦ let (w, e) = get-some d k (ground arith) in (w, rw (other, e))
  ]

  -- A new key goes to the end.
  pub set-absent :
      (d : Dict V) (k : String) (v : V) → has d k ≡ false → set d k v ≡ d ++ (k, v) ∷ []
  unfolding has set
  set-absent [] k v h = refl
  set-absent ((j, w) ∷ d) k v h = ground (arith, set-absent d k v)

  pub length-set-le : (d : Dict V) (k : String) (v : V) → length d ≤ length (set d k v)
  unfolding set
  length-set-le [] k v = omega arith
  length-set-le ((j, w) ∷ d) k v = ground (arith, length-set-le d k v)

  pub length-set :
      (d : Dict V) (k : String) (v : V) → has d k ≡ false → length (set d k v) ≡ suc (length d)
  length-set d k v h = rw (set-absent d k v h) (ground (arith, length-append d ((k, v) ∷ [])))
