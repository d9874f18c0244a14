-- ===== src/Replies/Verdicts.antt =====
-- Approval in a reply of the reviewer or the security engineer stands only where no remark blocks it.
use dev_team.Prelude.{
  String, ◌≡◌, refl, ap, ◌∙◌, Bool, true, false, not, ◌&&◌, ◌||◌, List, [], ◌∷◌, map, ◌==◌, eq_iff,
  arith, is_empty, filter, all, Bool-cases, inl, inr,
}
use dev_team.Models.{Review, is_blocking, blocking_comments, SecurityReport, blocking_findings}
use dev_team.Replies.{
  Json, null, bool, num, text, arr, obj, Fields, Python, get_value, as_dict, as_bool, as_severity,
  as_obj_list, normal, member_or, severity_named, severity_synonym,
}
use dev_team.Replies.Parse.{
  comment_from, block_review, review_from_dict, finding_from, block_report,
  security_report_from_dict,
}

mild_word : String → Bool
mild_word t = t == "info" || (t == "minor" || (t == "medium" || t == "low"))

-- A severity that raises no alarm: none at all, or one of the words for a small one.
pub is_mild : Json → Bool
unfolding mild_word
is_mild null = true
is_mild (text s) = mild_word (normal s)
is_mild _ = false

-- A split on whether a text is a word.
on_word : (P : String → Type 0) (w t : String) → P w → ((t == w) ≡ false → P t) → P t
on_word P w t hit miss = elim (Bool-cases (t == w)) [
  | inl e ↦ rw ((eq_iff t w).0 e) hit
  | inr e ↦ miss e
]

abbrev SynonymFits : String → Type 0
SynonymFits t = is_blocking (severity_synonym t) ≡ not (t == "medium" || t == "low")

synonym_lem : (t : String) → SynonymFits t
unfolding is_blocking severity_synonym
synonym_lem t = on_word SynonymFits "blocker" t refl λ a. on_word SynonymFits "high" t refl λ b.
    on_word SynonymFits "medium" t refl
      λ c. on_word SynonymFits "low" t refl λ d. rw (a, b, c, d) refl

abbrev WordFits : String → Type 0
WordFits t = is_blocking (member_or (severity_synonym t) (severity_named t)) ≡ not (mild_word t)

word_lem : (t : String) → WordFits t
unfolding is_blocking member_or severity_synonym severity_named mild_word
word_lem t = on_word WordFits "info" t refl λ a. on_word WordFits "minor" t refl λ b.
    on_word WordFits "major" t refl
      λ c. on_word WordFits "critical" t refl λ d. rw (a, b, c, d) (synonym_lem t)

is_blocking-as_severity : (v : Json) → is_blocking (as_severity v) ≡ not (is_mild v)
unfolding is_mild as_severity is_blocking
is_blocking-as_severity null = refl
is_blocking-as_severity (bool b) = refl
is_blocking-as_severity (num n) = refl
is_blocking-as_severity (text s) = word_lem (normal s)
is_blocking-as_severity (arr vs) = refl
is_blocking-as_severity (obj d) = refl

block_review_lem :
    (r : Review) → (block_review r).approved ≡ (r.approved && is_empty (blocking_comments r))
unfolding block_review
block_review_lem r = ground arith

block_report_lem :
    (r : SecurityReport)
    → (block_report r).approved ≡ (r.approved && is_empty (blocking_findings r))
unfolding block_report
block_report_lem r = ground arith

module _ (py : Python) where
  no_blocking_comments :
      (ds : List Fields)
      → is_empty (filter (λ c. is_blocking c.severity) (map (comment_from py) ds))
        ≡ all (λ d. is_mild (get_value d "severity")) ds
  unfolding filter all comment_from
  no_blocking_comments [] = refl
  no_blocking_comments (d ∷ ds) =
      ground (arith, no_blocking_comments ds, is_blocking-as_severity (get_value d "severity"))

  no_blocking_findings :
      (ds : List Fields)
      → is_empty (filter (λ c. is_blocking c.severity) (map (finding_from py) ds))
        ≡ all (λ d. is_mild (get_value d "severity")) ds
  unfolding filter all finding_from
  no_blocking_findings [] = refl
  no_blocking_findings (d ∷ ds) =
      ground (arith, no_blocking_findings ds, is_blocking-as_severity (get_value d "severity"))

  -- A reply of the reviewer approves exactly where its field "approved" reads as true and none of
  -- its remarks that are objects has a severity other than null, absent, or, but for blanks around
  -- it and upper case, one of the texts "info", "minor", "medium" and "low"; so also for a reply of
  -- the security engineer and its findings.
  pub approved_iff_mild :
      (value : Json)
      → ((review_from_dict py value).approved ≡ (
          as_bool (as_dict value) "approved"
          && all (λ d. is_mild (get_value d "severity")) (as_obj_list (as_dict value) "comments")))
        × ((security_report_from_dict py value).approved ≡ (
            as_bool (as_dict value) "approved"
            && all
                (λ d. is_mild (get_value d "severity"))
                (as_obj_list (as_dict value) "findings")))
  unfolding review_from_dict security_report_from_dict blocking_comments blocking_findings
  approved_iff_mild value = (
    block_review_lem _
        ∙ ap (λ b. as_bool (as_dict value) "approved" && b)
            (no_blocking_comments (as_obj_list (as_dict value) "comments")),
    block_report_lem _
        ∙ ap (λ b. as_bool (as_dict value) "approved" && b)
            (no_blocking_findings (as_obj_list (as_dict value) "findings")),
  )
