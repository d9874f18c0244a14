-- ===== src/Replies/SafeIds.antt =====
-- The task ids of a reply are slugs, and a slug is a path of the workspace that is normalised already.
use Prim.Native.Char.{Char, code}
use Prim.Native.String.{String, [], ◌∷◌}
use dev_team.Prelude.{
  ℕ, suc, ◌≡◌, refl, ap, sym, ◌∙◌, Bool-cases, inl, inr, true, false, arith, All, ◌==◌, eq_iff,
}
use mathlib.Core.List.{List, [] as []ᴸ, ◌∷◌ as ◌∷ᴸ◌}
use dev_team.Prelude.Chars.{all_chars, is_blank}
use dev_team.Prelude.Split.{is_separator, is_segment, starts_with_slash}
use dev_team.Models.{Task}
use dev_team.Workspace.{normalise, normalised}
use dev_team.Workspace.Paths.{normalise-segment}
use mathlib.Core.Bool.{false≢true}
use dev_team.Replies.{Json, Fields, Python, as_dict, as_obj_list, as_str}
use dev_team.Replies.Slug.{
  is_slug, is_slug_char, slugify_task_id, slugify_task_id-is_slug, slugify_task_id_fixed,
}
use dev_team.Replies.Parse.{task_from_dict, tasks_from, plan_from_dict}

slug_char_lem : (c : Char) → is_slug_char c ≡ true → (is_separator c ≡ false) × ((code c ≡ 46) → ⊥)
unfolding is_slug_char is_separator
slug_char_lem c h = ground arith

safe-is_segment : (s : String) → all_chars is_slug_char s ≡ true → is_segment s ≡ true
unfolding all_chars is_segment
safe-is_segment [] h = refl
safe-is_segment (c ∷ s) h = ground (arith, safe-is_segment s, slug_char_lem c)

-- No slug is a text that is not a slug.
ne_of_slug : (s w : String) → is_slug s ≡ true → is_slug w ≡ false → (s == w) ≡ false
ne_of_slug s w h n = elim (Bool-cases (s == w)) [
  | inl e ↦ absurd (false≢true (sym n ∙ (ap is_slug (sym ((eq_iff s w).0 e)) ∙ h)))
  | inr e ↦ e
]

no_slash : (s : String) → is_segment s ≡ true → starts_with_slash s ≡ false
unfolding is_segment starts_with_slash is_separator
no_slash [] h = refl
no_slash (c ∷ s) h = ground arith

safe_chars : (s : String) → is_slug s ≡ true → all_chars is_slug_char s ≡ true
unfolding is_slug
safe_chars s h = ground arith

normalise-slug : (s : String) → is_slug s ≡ true → normalise s ≡ normalised s
unfolding is_slug all_chars is_slug_char is_blank
normalise-slug s h =
    let seg = safe-is_segment s (safe_chars s h) in
    normalise-segment s seg (no_slash s seg) (ne_of_slug s "" h refl) (ne_of_slug s "." h refl)
      (ne_of_slug s ".." h refl)

module _ (py : Python) (index : ℕ) where
  -- Normalised to itself, and kept by the sanitiser.
  abbrev IsSafe : Task → Type 0
  IsSafe t = (normalise t.id ≡ normalised t.id) × (slugify_task_id t.id index ≡ t.id)

  tasks_from-IsSafe : (i : ℕ) (ds : List Fields) → All IsSafe (tasks_from py i ds)
  unfolding tasks_from task_from_dict
  tasks_from-IsSafe i []ᴸ = tt
  tasks_from-IsSafe i (d ∷ᴸ ds) =
      let slug = slugify_task_id-is_slug (as_str py d "id") i in
      ((normalise-slug _ slug, slugify_task_id_fixed _ index slug), tasks_from-IsSafe (suc i) ds)

  -- Every task id that a plan's reply comes to is a path segment of the workspace: it is normalised
  -- to itself, and sanitising it again, at any index, keeps it.
  pub plan_from_dict-IsSafe : (value : Json) → All IsSafe (plan_from_dict py value).tasks
  unfolding plan_from_dict
  plan_from_dict-IsSafe value = tasks_from-IsSafe 0 (as_obj_list (as_dict value) "tasks")
