-- ===== src/Backlog/MintId.antt =====
-- The ids that `_mint_id` of src/dev_team/backlog.py gives, and those that it gives again.
use dev_team.Prelude.{
  ℕ, suc, ◌≤◌, ◌≡◌, refl, ap, ◌∙◌, max, String, true, false, Option, none, some, List, [], ◌∷◌,
  ◌++◌, map, ◌==◌, elem, arith, eq_iff, eq_refl, Bool-cases, inl, inr,
}
use dev_team.Prelude.Decimal.{numbered, after_prefix, value-str, isdigit-str, after_prefix-numbered}
use dev_team.Backlog.{
  Story, Backlog, story_ids, suffix_number, raised_to, highest_number, mint_id, add_story,
  new_story, remove_first, without_edge, delete_story,
}

suffix_number-numbered :
    (p : String) (n : ℕ) → suffix_number (after_prefix p (numbered p n)) ≡ some n
unfolding suffix_number
suffix_number-numbered p n = rw (after_prefix-numbered p n, isdigit-str n) (ap some (value-str n))

raised_to-le : (h : ℕ) (o : Option ℕ) → h ≤ raised_to h o
unfolding raised_to
raised_to-le h none = omega arith
raised_to-le h (some n) = omega arith

highest_number-le : (p : String) (h : ℕ) (xs : List String) → h ≤ highest_number p h xs
unfolding highest_number
highest_number-le p h [] = omega arith
highest_number-le p h (x ∷ xs) = omega (
  arith,
  raised_to-le h (suffix_number (after_prefix p x)),
  highest_number-le p (raised_to h (suffix_number (after_prefix p x))) xs,
)

highest_number-elem :
    (p : String) (n h : ℕ) (xs : List String)
    → elem (numbered p n) xs ≡ true
    → n ≤ highest_number p h xs
unfolding highest_number elem raised_to
highest_number-elem p n h [] m = cc
highest_number-elem p n h (x ∷ xs) m = elim (Bool-cases (x == numbered p n)) [
  | inl same ↦
      rw ((eq_iff x (numbered p n)).0 same, suffix_number-numbered p n)
        (omega (arith, highest_number-le p (max h n) xs))
  | inr other ↦
      highest_number-elem p n (raised_to h (suffix_number (after_prefix p x))) xs
        (ground (arith, other))
]

-- A minted id is none of those that exist.
pub mint_id-fresh :
    (prefix : String) (existing : List String) → elem (mint_id prefix existing) existing ≡ false
unfolding mint_id
mint_id-fresh prefix existing = elim (Bool-cases (elem (mint_id prefix existing) existing)) [
  | inr fresh ↦ fresh
  | inl used ↦ absurd (
      omega (
        arith,
        highest_number-elem prefix (suc (highest_number prefix 0 existing)) 0 existing used,
      ))
]

ids-without_edge :
    (x : String) (ss : List Story)
    → map (λ (s : Story). s.id) (map (without_edge x) ss) ≡ map (λ (s : Story). s.id) ss
unfolding without_edge
ids-without_edge x [] = refl
ids-without_edge x (s ∷ ss) = ap (λ l. s.id ∷ l) (ids-without_edge x ss)

ids-remove_first :
    (ss : List Story) (s : Story)
    → elem s.id (map (λ (t : Story). t.id) ss) ≡ false
    → map (λ (t : Story). t.id) (remove_first s.id (ss ++ s ∷ [])) ≡ map (λ (t : Story). t.id) ss
unfolding remove_first elem
ids-remove_first [] s m = rw (eq_refl s.id) refl
ids-remove_first (t ∷ ss) s m = elim (Bool-cases (t.id == s.id)) [
  | inl same ↦ absurd (ground (arith, same))
  | inr other ↦ rw other (ap (λ l. t.id ∷ l) (ids-remove_first ss s (ground (arith, other))))
]

elem-last :
    (ss : List Story) (s : Story) → elem s.id (map (λ (t : Story). t.id) (ss ++ s ∷ [])) ≡ true
unfolding elem
elem-last [] s = ground (arith, eq_refl s.id)
elem-last (t ∷ ss) s = ground (arith, elem-last ss s)

-- A story that is added and deleted gives its id to the story that is added next.
pub add_story-delete_story :
    (title description : String) (estimate : ℕ) (source_job : Option String) (b : Backlog)
    → 1 ≤ estimate
    → (b' b'' : Backlog) × (add_story title description estimate source_job b ≡ some b')
      × (delete_story (mint_id "S" (story_ids b)) b' ≡ some b'')
      × (mint_id "S" (story_ids b'') ≡ mint_id "S" (story_ids b))
unfolding add_story delete_story
add_story-delete_story title description estimate source_job b positive =
    let new = new_story title description estimate source_job b in
    let b' : Backlog = record { stories = b.stories ++ new ∷ [] } in
    let b'' : Backlog = record {
      stories = map (without_edge new.id) (remove_first new.id b'.stories);
    } in
    (
      b',
      b'',
      ground (arith, positive),
      rw (elem-last b.stories new) refl,
      ap (mint_id "S") (
          ids-without_edge new.id (remove_first new.id b'.stories)
          ∙ ids-remove_first b.stories new (mint_id-fresh "S" (story_ids b))),
    )
