-- ===== src/Replan/Ids.antt =====
-- The ids of a plan that was changed.
use dev_team.Prelude.{
  ◌≡◌, refl, ap, ◌∙◌, String, true, false, not, ◌&&◌, ◌||◌, List, [], ◌∷◌, ◌++◌, map, ◌==◌,
  if◌then◌else◌, elem, elem-append, distinct, arith, eq_iff, eq_refl, Bool-cases, inl, inr,
}
use dev_team.Prelude.Dict.{Dict, get, set, get-set}
use dev_team.Models.{Task, Plan, ids}
use dev_team.Replan.{
  Replan, unique_id, assign_ids, lookup_or, splice, build_replacement, replacement_ids_of, new_plan,
}
use dev_team.Replan.UniqueId.{unique_id-fresh}

-- The ids of the tasks, with `new` in the place of `failed`.
pub splice_ids : String → List String → List String → List String
splice_ids failed new [] = []
splice_ids failed new (x ∷ xs) =
    let rest = splice_ids failed new xs in if x == failed then new ++ rest else x ∷ rest

map-append_ids : (xs ys : List Task) → ids (xs ++ ys) ≡ ids xs ++ ids ys
map-append_ids [] ys = refl
map-append_ids (x ∷ xs) ys = ap (λ l. x.id ∷ l) (map-append_ids xs ys)

ids-splice :
    (failed : String) (remap : Dict String) (new : List String) (built tasks : List Task)
    → ids (splice failed remap new built tasks) ≡ splice_ids failed (ids built) (ids tasks)
unfolding splice splice_ids
ids-splice failed remap new built [] = refl
ids-splice failed remap new built (t ∷ ts) = elim (Bool-cases (t.id == failed)) [
  | inl same ↦
      rw
        (
          same,
          map-append_ids built (splice failed remap new built ts),
          ids-splice failed remap new built ts,
        )
        refl
  | inr other ↦ rw (other, ids-splice failed remap new built ts) refl
]

ids-built :
    (failed : String) (remap : Dict String) (new : List String) (rs : List Task)
    → ids (map (build_replacement failed remap new) rs) ≡ map (λ r. lookup_or remap r.id) rs
unfolding build_replacement
ids-built failed remap new [] = refl
ids-built failed remap new (r ∷ rs) =
    ap (λ l. lookup_or remap r.id ∷ l) (ids-built failed remap new rs)

pub ids-new_plan :
    (plan : Plan) (decision : Replan)
    → ids (new_plan plan decision).tasks
      ≡ splice_ids decision.failed_task_id (replacement_ids_of plan decision) (ids plan.tasks)
unfolding new_plan replacement_ids_of
ids-new_plan plan decision =
    ids-splice _ _ _ _ plan.tasks
    ∙ ap (λ l. splice_ids decision.failed_task_id l (ids plan.tasks))
        (ids-built _ _ _ decision.replacements)

pub elem-splice_ids :
    (failed x : String) (new l : List String)
    → elem x (splice_ids failed new l)
      ≡ ((elem x new && elem failed l) || (elem x l && not (x == failed)))
unfolding splice_ids elem
elem-splice_ids failed x new [] = ground arith
elem-splice_ids failed x new (y ∷ l) = ground (
  arith,
  elem-splice_ids failed x new l,
  elem-append x new (splice_ids failed new l),
  eq_iff y failed,
  eq_iff y x,
  eq_iff x failed,
)

-- What is distinct on both sides, and shared by none.
distinct-append :
    (xs ys : List String)
    → distinct xs ≡ true
    → distinct ys ≡ true
    → ((x : String) → elem x xs ≡ true → elem x ys ≡ false)
    → distinct (xs ++ ys) ≡ true
unfolding distinct elem
distinct-append [] ys d e f = e
distinct-append (x ∷ xs) ys d e f = ground (
  arith,
  f x,
  eq_refl x,
  elem-append x xs ys,
  distinct-append xs ys (ground arith) e (λ z m. ground (arith, f z)),
)

distinct-append_inv : (xs ys : List String) → distinct (xs ++ ys) ≡ true → distinct xs ≡ true
unfolding distinct
distinct-append_inv [] ys d = refl
distinct-append_inv (x ∷ xs) ys d = ground (arith, elem-append x xs ys, distinct-append_inv xs ys)

pub distinct-splice_ids :
    (failed : String) (new l : List String)
    → distinct new ≡ true
    → distinct l ≡ true
    → ((x : String) → elem x new ≡ true → (elem x l && not (x == failed)) ≡ false)
    → distinct (splice_ids failed new l) ≡ true
unfolding splice_ids distinct elem
distinct-splice_ids failed new [] dn dl apart = refl
distinct-splice_ids failed new (y ∷ l) dn dl apart =
    let rest =
      distinct-splice_ids failed new l dn (ground arith) (λ x m. ground (arith, apart x m)) in
    elim (Bool-cases (y == failed)) [
      | inl same ↦ rw same (
          distinct-append new (splice_ids failed new l) dn rest (λ x m. ground (
            arith,
            same,
            apart x m,
            elem-splice_ids failed x new l,
            eq_iff y failed,
            eq_iff x failed,
          )))
      | inr other ↦
          rw other (ground (arith, other, rest, apart y, eq_refl y, elem-splice_ids failed y new l))
    ]

pub distinct-splice_ids_inv :
    (failed : String) (new l : List String)
    → elem failed l ≡ true
    → distinct (splice_ids failed new l) ≡ true
    → distinct new ≡ true
unfolding splice_ids distinct elem
distinct-splice_ids_inv failed new [] m d = cc
distinct-splice_ids_inv failed new (y ∷ l) m d = elim (Bool-cases (y == failed)) [
  | inl same ↦ distinct-append_inv new (splice_ids failed new l) (rw same at d)
  | inr other ↦
      distinct-splice_ids_inv failed new l (ground (arith, other)) (ground (arith, rw other at d))
]

-- Later replacements do not change what an id is mapped to.
get-assign_ids :
    (taken : List String) (remap : Dict String) (rs : List Task) (k : String)
    → elem k (ids rs) ≡ false
    → get (assign_ids taken remap rs) k ≡ get remap k
unfolding assign_ids elem
get-assign_ids taken remap [] k m = refl
get-assign_ids taken remap (r ∷ rs) k m = ground (
  arith,
  get-set remap r.id k (unique_id r.id taken),
  get-assign_ids (unique_id r.id taken ∷ taken) (set remap r.id (unique_id r.id taken)) rs k,
)

abbrev pub mapped : Dict String → List Task → List String
mapped remap rs = map (λ r. lookup_or remap r.id) rs

elem-mapped :
    (remap : Dict String) (k : String) (rs : List Task)
    → elem k (ids rs) ≡ true
    → elem (lookup_or remap k) (mapped remap rs) ≡ true
unfolding elem
elem-mapped remap k [] m = m
elem-mapped remap k (r ∷ rs) m = elim (Bool-cases (r.id == k)) [
  | inl same ↦ rw ((eq_iff r.id k).0 same) (ground (arith, eq_refl (lookup_or remap k)))
  | inr other ↦ ground (arith, elem-mapped remap k rs (ground (arith, other)))
]

lookup-assign_ids :
    (taken : List String) (remap : Dict String) (r : Task) (rs : List Task)
    → elem r.id (ids rs) ≡ false
    → lookup_or (assign_ids taken remap (r ∷ rs)) r.id ≡ unique_id r.id taken
unfolding lookup_or assign_ids
lookup-assign_ids taken remap r rs m =
    let final = unique_id r.id taken in
    ground (
      arith,
      m,
      eq_refl r.id,
      get-set remap r.id r.id final,
      get-assign_ids (final ∷ taken) (set remap r.id final) rs r.id,
    )

pub mapped-assign_ids :
    (taken : List String) (remap : Dict String) (rs : List Task)
    → distinct (ids rs) ≡ true
    → (distinct (mapped (assign_ids taken remap rs) rs) ≡ true)
      × ((x : String)
          → elem x (mapped (assign_ids taken remap rs) rs) ≡ true
          → elem x taken ≡ false)
unfolding distinct elem assign_ids
mapped-assign_ids taken remap [] d = (refl, λ x m. cc)
mapped-assign_ids taken remap (r ∷ rs) d =
    let final = unique_id r.id taken in
    let first = lookup-assign_ids taken remap r rs (ground arith) in
    let rest = mapped-assign_ids (final ∷ taken) (set remap r.id final) rs (ground arith) in
    (
      ground (arith, first, rest.0, rest.1 final, eq_refl final),
      λ x m. ground (arith, first, rest.1 x, eq_iff final x, unique_id-fresh r.id taken),
    )

-- Equal ids are mapped to equal ids.
pub distinct-mapped_inv :
    (remap : Dict String) (rs : List Task)
    → distinct (mapped remap rs) ≡ true
    → distinct (ids rs) ≡ true
unfolding distinct elem
distinct-mapped_inv remap [] d = refl
distinct-mapped_inv remap (r ∷ rs) d =
    ground (arith, distinct-mapped_inv remap rs, elem-mapped remap r.id rs)
