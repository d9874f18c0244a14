-- ===== src/Memory/Merge.antt =====
-- What the merge of a run into the stored memory keeps.
use native.Mathlib.Decide.{dec_le}
use dev_team.Prelude.{
  ℕ, zero, suc, ◌+◌, ◌-◌, ◌≤◌, ◌≡◌, refl, ap, sym, ◌⊎◌, ◌∙◌, String, true, false, Option, List, [],
  ◌∷◌, ◌++◌, map, arith, length, elem, distinct, is_empty, ◌==◌, eq_iff, eq_refl, Bool-cases, inl,
  inr,
}
use dev_team.Prelude.Dict.{Dict, get, get-set}
use dev_team.Memory.{
  DecisionRecord, Blackboard, Entry, notes, Stored, prior_of, unseen, drop_first, tail_of,
  max_decisions, max_retro_notes, notes_of, with_notes, save,
}

abbrev pub decision_ids : List DecisionRecord → List String
decision_ids rs = map (λ r. r.id) rs

module _ {ℓ} {A : Type ℓ} where
  pub length-drop_first : (n : ℕ) (xs : List A) → length (drop_first n xs) ≡ length xs - n
  unfolding drop_first
  length-drop_first zero xs = omega arith
  length-drop_first (suc n) [] = omega arith
  length-drop_first (suc n) (x ∷ xs) = omega (arith, length-drop_first n xs)

distinct-drop_first :
    (n : ℕ) (rs : List DecisionRecord)
    → distinct (decision_ids rs) ≡ true
    → distinct (decision_ids (drop_first n rs)) ≡ true
unfolding drop_first distinct
distinct-drop_first zero rs d = d
distinct-drop_first (suc n) [] d = refl
distinct-drop_first (suc n) (r ∷ rs) d = distinct-drop_first n rs (ground (arith, d))

elem-unseen :
    (seen : List String) (rs : List DecisionRecord) (x : String)
    → elem x seen ≡ true
    → elem x (decision_ids (unseen seen rs)) ≡ false
unfolding unseen elem
elem-unseen seen [] x m = refl
elem-unseen seen (r ∷ rs) x m = elim (Bool-cases (elem r.id seen)) [
  | inl old ↦ rw old (elem-unseen seen rs x m)
  | inr new ↦ rw new (ground (arith, elem-unseen (r.id ∷ seen) rs x, eq_iff r.id x))
]

distinct-unseen :
    (seen : List String) (rs : List DecisionRecord)
    → distinct (decision_ids (unseen seen rs)) ≡ true
unfolding unseen distinct elem
distinct-unseen seen [] = refl
distinct-unseen seen (r ∷ rs) = elim (Bool-cases (elem r.id seen)) [
  | inl old ↦ rw old (distinct-unseen seen rs)
  | inr new ↦ rw new (
      ground
        (arith, elem-unseen (r.id ∷ seen) rs r.id, distinct-unseen (r.id ∷ seen) rs, eq_refl r.id))
]

drop_first-nil {ℓ} : {A : Type ℓ} (n : ℕ) → drop_first {A = A} n [] ≡ []
unfolding drop_first
drop_first-nil zero = refl
drop_first-nil (suc n) = refl

notes-with_notes :
    (retro : List String) (entries : Dict Entry)
    → (is_empty retro ≡ true → notes_of (get entries "retrospective") ≡ [])
    → notes_of (get (with_notes retro entries) "retrospective") ≡ tail_of max_retro_notes retro
unfolding with_notes notes_of tail_of
notes-with_notes [] entries h = h refl ∙ sym (drop_first-nil (0 - max_retro_notes))
notes-with_notes (t ∷ ts) entries h =
    rw (get-set entries "retrospective" "retrospective" (notes (tail_of max_retro_notes (t ∷ ts))))
      refl

distinct-tail_of :
    (n : ℕ) (rs : List DecisionRecord)
    → distinct (decision_ids rs) ≡ true
    → distinct (decision_ids (tail_of n rs)) ≡ true
unfolding tail_of
distinct-tail_of n rs d = distinct-drop_first (length rs - n) rs d

other_keys :
    (retro : List String) (entries : Dict Entry) (key : String)
    → ("retrospective" == key) ≡ false
    → get (with_notes retro entries) key ≡ get entries key
unfolding with_notes
other_keys [] entries key e = refl
other_keys (t ∷ ts) entries key e =
    rw (get-set entries "retrospective" key (notes (tail_of max_retro_notes (t ∷ ts))), e) refl

append-empty {ℓ} : {A : Type ℓ} (xs ys : List A) → is_empty (xs ++ ys) ≡ true → ys ≡ []
append-empty [] [] h = refl
append-empty [] (y ∷ ys) h = cc
append-empty (x ∷ xs) ys h = cc

-- The last of a list: what is left of it behind a first part, at most so many, and fewer only where
-- nothing is left out.
abbrev pub IsLast {ℓ} : {A : Type ℓ} → ℕ → List A → List A → Type ℓ
IsLast {A = A} n xs kept =
    (older : List A) × (xs ≡ older ++ kept) × (length kept ≤ n) × ((older ≡ []) ⊎ (length kept ≡ n))

split_at {ℓ} :
    {A : Type ℓ} (k : ℕ) (xs : List A)
    → (older : List A) × (xs ≡ older ++ drop_first k xs) × (k ≡ 0 → older ≡ [])
unfolding drop_first
split_at zero xs = ([], refl, λ e. refl)
split_at (suc k) [] = ([], refl, λ e. refl)
split_at (suc k) (x ∷ xs) =
    let (older, e, _) = split_at k xs in
    (x ∷ older, ap (λ l. x ∷ l) e, λ z. absurd (omega (arith, z)))

tail_of-IsLast {ℓ} : {A : Type ℓ} (n : ℕ) (xs : List A) → IsLast n xs (tail_of n xs)
unfolding tail_of
tail_of-IsLast n xs =
    let (older, e, none_older) = split_at (length xs - n) xs in
    let size = length-drop_first (length xs - n) xs in
    (
      older,
      e,
      omega (arith, size),
      elim (dec_le (length xs) n) [
        | yes few ↦ inl (none_older (omega (arith, few)))
        | no many ↦ inr (omega (arith, size, many))
      ],
    )

-- The decisions of a list without those whose id an earlier one has, in their order: `earlier` are
-- those in front of the list.
pub data FirstOfIds : List DecisionRecord → List DecisionRecord → List DecisionRecord → Type 0 where
  no_more : {earlier : List DecisionRecord} → FirstOfIds earlier [] []
  stays :
      {earlier : List DecisionRecord} {r : DecisionRecord} {rs kept : List DecisionRecord}
      → elem r.id (decision_ids earlier) ≡ false
      → FirstOfIds (r ∷ earlier) rs kept
      → FirstOfIds earlier (r ∷ rs) (r ∷ kept)
  goes :
      {earlier : List DecisionRecord} {r : DecisionRecord} {rs kept : List DecisionRecord}
      → elem r.id (decision_ids earlier) ≡ true
      → FirstOfIds (r ∷ earlier) rs kept
      → FirstOfIds earlier (r ∷ rs) kept

SameIds : List String → List DecisionRecord → Type 0
SameIds seen earlier = (x : String) → elem x seen ≡ elem x (decision_ids earlier)

unseen-FirstOfIds :
    (seen : List String) (earlier rs : List DecisionRecord)
    → SameIds seen earlier
    → FirstOfIds earlier rs (unseen seen rs)
unfolding unseen SameIds elem
unseen-FirstOfIds seen earlier [] same = no_more
unseen-FirstOfIds seen earlier (r ∷ rs) same = elim (Bool-cases (elem r.id seen)) [
  | inl old ↦ rw old (
      goes (sym (same r.id) ∙ old)
        (unseen-FirstOfIds seen (r ∷ earlier) rs λ x. ground (arith, same x, old, eq_iff r.id x)))
  | inr new ↦ rw new (
      stays (sym (same r.id) ∙ new)
        (unseen-FirstOfIds (r.id ∷ seen) (r ∷ earlier) rs λ x. ground (arith, same x)))
]

-- What a run leaves stored: the last fifty decisions, or all of them where they are fewer, of the
-- earlier decisions followed by the run's, without those whose id an earlier one has, in that order
-- and as they were, so that no two have one id; the last twenty retrospective notes, or all of them
-- where they are fewer, of the earlier ones followed by the run's; under every other key what the run
-- left there; the artifacts of the run; and one run more than before.
pub save_lem :
    (stored : Option Stored) (b : Blackboard) (key : String)
    → ("retrospective" == key) ≡ false
    → let after = save stored b in
      let prior = prior_of stored in
      (((merged : List DecisionRecord) × FirstOfIds [] (prior.decisions ++ b.decisions) merged
          × IsLast max_decisions merged after.decisions)
        × (distinct (decision_ids after.decisions) ≡ true))
      × IsLast max_retro_notes
          (notes_of (get prior.entries "retrospective") ++ notes_of (get b.entries "retrospective"))
          (notes_of (get after.entries "retrospective"))
      × (get after.entries key ≡ get b.entries key)
      × (after.artifacts ≡ b.artifacts)
      × (after.runs ≡ prior.runs + 1)
unfolding save SameIds
save_lem stored b key e =
    let all_records = (prior_of stored).decisions ++ b.decisions in
    let retro =
      notes_of (get (prior_of stored).entries "retrospective")
      ++ notes_of (get b.entries "retrospective") in
    let kept = notes-with_notes retro b.entries (
      append-empty (notes_of (get (prior_of stored).entries "retrospective"))
        (notes_of (get b.entries "retrospective"))) in
    (
      (
        (
          unseen [] all_records,
          unseen-FirstOfIds [] [] all_records (λ x. refl),
          tail_of-IsLast max_decisions (unseen [] all_records),
        ),
        distinct-tail_of max_decisions (unseen [] all_records) (distinct-unseen [] all_records),
      ),
      rw kept (tail_of-IsLast max_retro_notes retro),
      other_keys retro b.entries key e,
      refl,
      refl,
    )
