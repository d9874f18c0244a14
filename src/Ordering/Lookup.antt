-- ===== src/Ordering/Lookup.antt =====
-- Dicts made from a list of tasks: their keys, and what stands at a key.
use dev_team.Prelude.{
  String, ◌≡◌, refl, Bool, true, false, not, ◌&&◌, ◌||◌, some, List, [], ◌∷◌, arith, ◌==◌, eq_iff,
  eq_refl, All, All-map, ◌≢◌, elem, elem-filter, distinct, Bool-cases, Option-cases, inl, inr,
}
use mathlib.Core.Path.{fun_ext, subst₂}
use dev_team.Prelude.Dict.{Dict, get, has, set, get-set, has-set}
use dev_team.Models.{Task, ids}
use dev_team.Ordering.{dict_from, real_deps, deps_map, deps_of}

module _ {ℓ} {V : Type ℓ} (f : Task → V) where
  has-dict_from :
      (d : Dict V) (tasks : List Task) (k : String)
      → has (dict_from f d tasks) k ≡ (has d k || elem k (ids tasks))
  unfolding dict_from elem
  has-dict_from d [] k = ground arith
  has-dict_from d (t ∷ ts) k =
      ground (arith, has-dict_from (set d t.id (f t)) ts k, has-set d t.id k (f t))

  get-dict_from_absent :
      (d : Dict V) (tasks : List Task) (k : String)
      → elem k (ids tasks) ≡ false
      → get (dict_from f d tasks) k ≡ get d k
  unfolding dict_from elem
  get-dict_from_absent d [] k h = refl
  get-dict_from_absent d (t ∷ ts) k h =
      ground (arith, get-dict_from_absent (set d t.id (f t)) ts k, get-set d t.id k (f t))

  get-dict_from :
      (d : Dict V) (tasks : List Task)
      → distinct (ids tasks) ≡ true
      → All (λ t. get (dict_from f d tasks) t.id ≡ some (f t)) tasks
  unfolding dict_from distinct elem
  get-dict_from d [] h = tt
  get-dict_from d (t ∷ ts) h = (
    ground (
      arith,
      get-dict_from_absent (set d t.id (f t)) ts t.id,
      get-set d t.id t.id (f t),
      eq_refl t.id,
    ),
    get-dict_from (set d t.id (f t)) ts (ground arith),
  )

  -- What holds of every item that is written holds of every item that is found.
  get-dict_from_inv {κ} :
      (P : String → V → Type κ) (d : Dict V)
      → ((k : String) (v : V) → get d k ≡ some v → P k v)
      → (tasks : List Task) → All (λ t. P t.id (f t)) tasks
      → (k : String) (v : V) → get (dict_from f d tasks) k ≡ some v
      → P k v
  unfolding dict_from
  get-dict_from_inv P d old [] own k v h = old k v h
  get-dict_from_inv P d old (t ∷ ts) own k v h =
      get-dict_from_inv P (set d t.id (f t))
        (λ j w e. elim (Bool-cases (t.id == j)) [
          | inl same ↦
              subst₂ P ((eq_iff t.id j).0 same) (ground (arith, get-set d t.id j (f t))) own.0
          | inr other ↦ old j w (ground (arith, get-set d t.id j (f t)))
        ])
        ts own.1 k v h

-- The keys of `by_id` are the ids of the tasks.
pub has-by_id :
    (tasks : List Task) → has (dict_from (λ t. t) [] tasks) ≡ (λ dep. elem dep (ids tasks))
unfolding has
has-by_id tasks = fun_ext λ dep. has-dict_from (λ t. t) [] tasks dep

-- A dependency that counts: on a task of the list, and not on the task itself.
pub deps_map-real_deps :
    (tasks : List Task)
    → deps_map tasks ≡ dict_from (real_deps (λ dep. elem dep (ids tasks))) [] tasks
unfolding deps_map
deps_map-real_deps tasks = rw has-by_id

pub deps_of-deps_map :
    (tasks : List Task)
    → distinct (ids tasks) ≡ true
    → All (λ t. deps_of (deps_map tasks) t.id ≡ real_deps (λ dep. elem dep (ids tasks)) t) tasks
unfolding deps_of
deps_of-deps_map tasks h =
    let own = real_deps (λ dep. elem dep (ids tasks)) in
    rw (deps_map-real_deps tasks) (
      All-map (λ t. get (dict_from own [] tasks) t.id ≡ some (own t)) _ tasks
        (λ t e. rw (e, deps_of)) (get-dict_from own [] tasks h))

-- What holds of each task's own dependencies holds of what the dict has at its id.
pub deps_of_inv :
    (P : String → String → Type 0) (tasks : List Task)
    → All
        (λ t.
          (dep : String)
          → elem dep t.dependencies ≡ true
          → elem dep (ids tasks) ≡ true
          → dep ≢ t.id
          → P t.id dep)
        tasks
    → (tid dep : String) → elem dep (deps_of (deps_map tasks) tid) ≡ true
    → P tid dep
unfolding deps_of elem real_deps get
deps_of_inv P tasks own tid dep h = elim (Option-cases (get (deps_map tasks) tid)) [
  | inl absent ↦ absurd (ground arith)
  | inr (l, found) ↦
      get-dict_from_inv (real_deps known) (λ k l. (d : String) → elem d l ≡ true → P k d) []
        (λ k v e. cc) tasks (All-map _ _ tasks real own) tid l
        (rw (deps_map-real_deps tasks) at found) dep (ground arith)
]
  where
    known : String → Bool
    known d = elem d (ids tasks)

    real :
        (t : Task)
        → ((d : String) → elem d t.dependencies ≡ true → known d ≡ true → d ≢ t.id → P t.id d)
        → (d : String) → elem d (real_deps known t) ≡ true
        → P t.id d
    real t f d m =
        let both = elem-filter (λ e. known e && not (e == t.id)) d t.dependencies in
        f d (ground (arith, both)) (ground (arith, both)) (λ e. ground (arith, both, eq_iff d t.id))

-- What a task depends on, by the dict, is a task of the list.
pub elem-deps_of :
    (tasks : List Task) (tid dep : String)
    → elem dep (deps_of (deps_map tasks) tid) ≡ true
    → elem dep (ids tasks) ≡ true
elem-deps_of tasks = deps_of_inv (λ _ dep. elem dep (ids tasks) ≡ true) tasks (every tasks)
  where
    every :
        (ts : List Task)
        → All
            (λ t.
              (dep : String)
              → elem dep t.dependencies ≡ true
              → elem dep (ids tasks) ≡ true
              → dep ≢ t.id
              → elem dep (ids tasks) ≡ true)
            ts
    every [] = tt
    every (t ∷ ts) = (λ dep _ k _. k, every ts)
