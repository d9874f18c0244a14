-- ===== src/Workspace/Paths.antt =====
-- What `_normalise` of src/dev_team/execution.py returns, and what it keeps of a path.
use mathlib.Core.Path.{subst}
use dev_team.Prelude.{
  ◌≡◌, refl, sym, ap, ◌∙◌, String, Bool, true, false, not, Option, none, some, List, [], ◌∷◌, ◌==◌,
  filter, All, arith, Bool-cases, inl, inr,
}
use dev_team.Prelude.Split.{
  split, join, starts_with_slash, is_segment, split-All, split-join, starts_with_slash-join,
}
use dev_team.Workspace.{
  normalised, is_skipped, with_part, collect_parts, joined, normalise, is_workflow_start,
  is_ci_workflow_path,
}

abbrev pub is_kept : String → Bool
is_kept part = not (is_skipped part)

-- What the loop collects: the parts that are kept, none of them "..".
record IsCollected (given parts : List String) : Type 0 where
  kept : filter is_kept given ≡ parts
  again : filter is_kept parts ≡ parts
  same : collect_parts parts ≡ some parts
  whole : All (λ p. is_segment p ≡ true) parts
  named : All (λ p. (p == "") ≡ false) parts

IsCollected-cons :
    (p : String) (rest ps : List String)
    → is_segment p ≡ true
    → is_skipped p ≡ false
    → (p == "..") ≡ false
    → IsCollected rest ps
    → IsCollected (p ∷ rest) (p ∷ ps)
unfolding with_part filter collect_parts is_skipped
IsCollected-cons p rest ps sg k d v = record {
  kept = ground (arith, k, v.kept);
  again = ground (arith, k, v.again);
  same = ground (arith, k, d, v.same);
  whole = (sg, v.whole);
  named = (ground (arith, k), v.named);
}

IsCollected-skip :
    (p : String) (rest ps : List String)
    → is_skipped p ≡ true
    → IsCollected rest ps
    → IsCollected (p ∷ rest) ps
unfolding filter
IsCollected-skip p rest ps k v = record {
  kept = ground (arith, k, v.kept);
  again = v.again;
  same = v.same;
  whole = v.whole;
  named = v.named;
}

abbrev parts_of : Option (List String) → List String
parts_of none = []
parts_of (some ps) = ps

with_part_inv :
    (p : String) (o : Option (List String)) (parts : List String)
    → with_part p o ≡ some parts
    → (o ≡ some (parts_of o)) × (p ∷ parts_of o ≡ parts)
unfolding with_part
with_part_inv p none parts e = cc
with_part_inv p (some ps) parts e = (refl, ap parts_of e)

collect_parts-IsCollected :
    (given parts : List String)
    → All (λ p. is_segment p ≡ true) given
    → collect_parts given ≡ some parts
    → IsCollected given parts
unfolding collect_parts filter
collect_parts-IsCollected [] parts a e =
    subst (IsCollected []) (ap parts_of e)
      (record { kept = refl; again = refl; same = refl; whole = tt; named = tt })
collect_parts-IsCollected (p ∷ given) parts a e = elim (Bool-cases (is_skipped p)) [
  | inl skipped ↦
      IsCollected-skip p given parts skipped
        (collect_parts-IsCollected given parts a.1 (rw skipped at e))
  | inr kept ↦ elim (Bool-cases (p == "..")) [
    | inl up ↦ absurd (ground (arith, rw (kept, up) at e))
    | inr other ↦
        let (some_parts, same) =
          with_part_inv p (collect_parts given) parts (rw (kept, other) at e) in
        subst (IsCollected (p ∷ given)) same (
          IsCollected-cons p given (parts_of (collect_parts given)) a.0 kept other
            (collect_parts-IsCollected given (parts_of (collect_parts given)) a.1 some_parts))
  ]
]

-- A path that is accepted, taken apart.
record IsAccepted (path key : String) : Type 0 where
  first : String
  others : List String
  collected : IsCollected (split path) (first ∷ others)
  key_is : key ≡ join (first ∷ others)

joined_inv :
    (path key : String) (o : Option (List String))
    → collect_parts (split path) ≡ o
    → joined o ≡ normalised key
    → IsAccepted path key
unfolding joined
joined_inv path key none f e = absurd (ground (arith, e))
joined_inv path key (some []) f e = absurd (ground (arith, e))
joined_inv path key (some (p ∷ ps)) f e = record {
  first = p;
  others = ps;
  collected = collect_parts-IsCollected (split path) (p ∷ ps) (split-All path) f;
  key_is = ground (arith, e);
}

normalise_inv : (path key : String) → normalise path ≡ normalised key → IsAccepted path key
unfolding normalise
normalise_inv path key e = elim (Bool-cases (starts_with_slash path)) [
  | inl slash ↦ absurd (ground (arith, rw slash at e))
  | inr relative ↦ joined_inv path key (collect_parts (split path)) refl (rw relative at e)
]

split-key : (path key : String) (v : IsAccepted path key) → split key ≡ v.first ∷ v.others
split-key path key v = ap split v.key_is ∙ split-join v.first v.others v.collected.whole

-- The key that a path is stored under is its own key, and the path names a CI workflow file exactly
-- where the key does: the test on the path that an engineer gave agrees with the file that is
-- written.
pub is_ci_workflow_path-normalise :
    (path key : String)
    → normalise path ≡ normalised key
    → (normalise key ≡ normalised key) × (is_ci_workflow_path key ≡ is_ci_workflow_path path)
unfolding normalise joined is_ci_workflow_path
is_ci_workflow_path-normalise path key e =
    let v = normalise_inv path key e in
    let parts = split-key path key v in
    let relative =
      ap starts_with_slash v.key_is
      ∙ starts_with_slash-join v.first v.others v.collected.whole.0 v.collected.named.0 in
    (
      rw relative (
          ap (λ l. joined (collect_parts l)) parts
          ∙ ap joined v.collected.same
          ∙ ap normalised (sym v.key_is)),
      ap is_workflow_start (ap (filter is_kept) parts ∙ v.collected.again ∙ sym v.collected.kept),
    )

-- A part that is not empty and not a dot or two is normalised to itself.
pub normalise-segment :
    (p : String)
    → is_segment p ≡ true
    → starts_with_slash p ≡ false
    → (p == "") ≡ false
    → (p == ".") ≡ false
    → (p == "..") ≡ false
    → normalise p ≡ normalised p
unfolding normalise joined collect_parts with_part join is_skipped
normalise-segment p seg start blank dot dots =
    rw start (
      ap (λ ps. joined (collect_parts ps)) (split-join p [] (seg, tt)) ∙ rw (blank, dot, dots) refl)
