-- ===== src/Ordering/Order.antt =====
-- What `topological_order` returns is the given tasks, each behind its dependencies.
use mathlib.Core.List.{Perm}
use mathlib.Core.List.Perm
use mathlib.Core.Path.{subst}
use dev_team.Prelude.{
  String, ◌≡◌, refl, ◌≢◌, true, not, ◌&&◌, List, [], ◌∷◌, ◌++◌, append-nil, append_assoc,
  map-append, arith, ◌==◌, eq_iff, All, All-filter, All-map, All-filter_test, elem, elem-append,
  elem-filter, distinct, filter-append-reject-perm, all-elem, All-map₂,
}
use dev_team.Prelude.Dict.{Dict}
use dev_team.Models.{Task, ids}
use dev_team.Ordering.{
  Sorted, ordered, is_ready, ready_tasks, real_deps, deps_map, deps_of, topological_order,
}
use dev_team.Ordering.Loop.{LoopRule, topological_order_ind}
use dev_team.Ordering.Lookup.{deps_of-deps_map}

-- `R` holds of the order, if there is one.
abbrev OnOrdered : (List Task → Type 0) → Sorted → Type 0
OnOrdered R (ordered out) = R out
OnOrdered R _ = Unit

-- The result holds the given tasks, each as often as it was given.
pub topological_order-perm :
    (tasks out : List Task) → topological_order tasks ≡ ordered out → Perm out tasks
topological_order-perm tasks out e = subst (OnOrdered (λ l. Perm l tasks)) e (
    topological_order_ind {Q = OnOrdered (λ l. Perm l tasks)}
      (λ placed _ remaining. Perm (placed ++ remaining) tasks) tasks rule (Perm.refl tasks))
  where
    rule :
        LoopRule
          (deps_map tasks)
          (λ placed _ remaining. Perm (placed ++ remaining) tasks)
          (OnOrdered (λ l. Perm l tasks))
    rule = record {
      settle = λ placed _ p. rw append-nil at p;
      halt = λ _ _ _ _ _ _. tt;
      advance = λ placed resolved remaining p.
          Perm.trans
            (rw append_assoc (
              Perm.append_left placed (
                filter-append-reject-perm (λ t. is_ready (deps_map tasks) resolved t.id)
                  remaining)))
            p;
    }

-- Behind the tasks whose ids are `seen`, each task stands behind its dependencies on known ids
-- other than its own.
abbrev pub Precedes : List String → List String → List Task → Type 0
Precedes known seen [] = Unit
Precedes known seen (t ∷ ts) =
    ((dep : String)
      → elem dep t.dependencies ≡ true
      → elem dep known ≡ true
      → dep ≢ t.id
      → elem dep seen ≡ true)
    × Precedes known (seen ++ t.id ∷ []) ts

module _ (known : List String) where
  Precedes-append :
      (seen : List String) (xs ys : List Task)
      → Precedes known seen xs
      → Precedes known (seen ++ ids xs) ys
      → Precedes known seen (xs ++ ys)
  Precedes-append seen [] ys h k = rw append-nil at k
  Precedes-append seen (x ∷ xs) ys h k =
      (h.0, Precedes-append (seen ++ x.id ∷ []) xs ys h.1 (rw append_assoc k))

  -- More may have been seen, and tasks whose dependencies are all seen may follow in any order.
  All→Precedes :
      (seen : List String) (xs : List Task)
      → All
          (λ t.
            (dep : String)
            → elem dep t.dependencies ≡ true
            → elem dep known ≡ true
            → dep ≢ t.id
            → elem dep seen ≡ true)
          xs
      → Precedes known seen xs
  All→Precedes seen [] h = tt
  All→Precedes seen (x ∷ xs) h = (
    h.0,
    All→Precedes (seen ++ x.id ∷ []) xs (
        All-map _ _ xs (λ t f dep m k d. rw (elem-append dep seen (x.id ∷ [])) (rw (f dep m k d)))
          h.1),
  )

  -- A ready task's dependencies are resolved.
  is_ready-seen :
      (deps : Dict (List String)) (seen : List String) (t : Task)
      → deps_of deps t.id ≡ real_deps (λ dep. elem dep known) t
      → is_ready deps seen t.id ≡ true
      → (dep : String) → elem dep t.dependencies ≡ true
      → elem dep known ≡ true
      → dep ≢ t.id
      → elem dep seen ≡ true
  unfolding is_ready real_deps
  is_ready-seen deps seen t own ready dep m k d =
      all-elem (λ e. elem e seen) dep (real_deps (λ e. elem e known) t) (rw own at ready)
        (ground (
          arith,
          elem-filter (λ e. elem e known && not (e == t.id)) dep t.dependencies,
          eq_iff dep t.id,
        ))

-- With distinct ids, each task of the result stands behind all its dependencies on tasks of the
-- list, other than itself.
pub topological_order-Precedes :
    (tasks out : List Task)
    → distinct (ids tasks) ≡ true
    → topological_order tasks ≡ ordered out
    → Precedes (ids tasks) [] out
topological_order-Precedes tasks out unique e = subst (OnOrdered (Precedes known [])) e (
    topological_order_ind {Q = OnOrdered (Precedes known [])} Inv tasks rule
      (refl, tt, deps_of-deps_map tasks unique))
  where
    known : List String
    known = ids tasks

    deps : Dict (List String)
    deps = deps_map tasks

    Own : Task → Type 0
    Own t = deps_of deps t.id ≡ real_deps (λ dep. elem dep known) t

    Inv : List Task → List String → List Task → Type 0
    Inv placed resolved remaining =
        (resolved ≡ ids placed) × Precedes known [] placed × All Own remaining

    rule : LoopRule deps Inv (OnOrdered (Precedes known []))
    rule = record {
      settle = λ placed _ p. p.1;
      halt = λ _ _ _ _ _ _. tt;
      advance = λ placed resolved remaining p. (
        rw (p.0, map-append),
        Precedes-append known [] placed (ready_tasks deps resolved remaining) p.1 (
            All→Precedes known (ids placed) (ready_tasks deps resolved remaining) (
              All-map₂ Own (λ t. is_ready deps resolved t.id ≡ true) _ _
                (λ t own ready. is_ready-seen known deps (ids placed) t own (rw p.0 at ready))
                (All-filter Own _ remaining p.2) (All-filter_test _ remaining))),
        All-filter Own _ remaining p.2,
      );
    }
