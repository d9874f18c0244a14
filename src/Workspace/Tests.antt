-- ===== src/Workspace/Tests.antt =====
-- Paths and files at concrete values.
use dev_team.Prelude.{◌≡◌, refl, true, false, ◌&&◌, ◌⊎◌, elem, [], ◌∷◌, if◌then◌else◌, filter}
use dev_team.Prelude.Split.{split, push, is_separator, join, starts_with_slash}
use dev_team.Workspace.{
  normalised, escaping_path, is_skipped, with_part, collect_parts, joined, normalise,
  is_workflow_start, is_ci_workflow_path, InMemoryWorkspace, ok, read_text, write_text, exists,
  bad_path, with_key,
}
use dev_team.Workspace.Paths.{is_ci_workflow_path-normalise}
use dev_team.Workspace.Files.{read_text-write_text, is_usable, same_texts, kept_parts, refusal}

normalise-workflow : normalise ".github\\.//workflows/x" ≡ normalised ".github/workflows/x"
unfolding normalise joined collect_parts with_part is_skipped split push is_separator join
    starts_with_slash
normalise-workflow = refl

normalise-escape : normalise "a/..\\x" ≡ escaping_path
unfolding normalise joined collect_parts with_part is_skipped split push is_separator
    starts_with_slash
normalise-escape = refl

is_ci_workflow_path-workflow : is_ci_workflow_path ".github\\.//workflows/x" ≡ true
unfolding is_ci_workflow_path is_workflow_start is_skipped split push is_separator filter
is_ci_workflow_path-workflow = refl

is_ci_workflow_path-normalise_example :
    (normalise ".github/workflows/x" ≡ normalised ".github/workflows/x")
    × (is_ci_workflow_path ".github/workflows/x" ≡ is_ci_workflow_path ".github\\.//workflows/x")
is_ci_workflow_path-normalise_example =
    is_ci_workflow_path-normalise ".github\\.//workflows/x" ".github/workflows/x" normalise-workflow

abbrev workspace : InMemoryWorkspace
workspace = record { files = ("a/b", "old") ∷ ("c", "kept") ∷ [] }

read_text-write_text_example :
    ((is_usable "./a//b" ≡ true)
      × ((w' : InMemoryWorkspace) × (write_text "./a//b" "new" workspace ≡ ok w')
          × (read_text "a/b/." w' ≡ (
              if is_usable "a/b/." && same_texts (kept_parts "./a//b") (kept_parts "a/b/.")
              then ok "new"
              else read_text "a/b/." workspace))
          × (exists "a/b/." w' ≡ (
              if is_usable "a/b/." && same_texts (kept_parts "./a//b") (kept_parts "a/b/.")
              then ok true
              else exists "a/b/." workspace))))
    ⊎ ((is_usable "./a//b" ≡ false)
        × (write_text "./a//b" "new" workspace ≡ bad_path (refusal "./a//b")))
read_text-write_text_example = read_text-write_text "./a//b" "a/b/." "new" workspace

same_file :
    is_usable "./a//b"
      && (is_usable "a/b/." && same_texts (kept_parts "./a//b") (kept_parts "a/b/."))
    ≡ true
unfolding is_usable same_texts filter elem split push is_separator starts_with_slash is_skipped
same_file = refl

climbing_path : write_text "a/..\\x" "new" workspace ≡ bad_path escaping_path
unfolding write_text normalise joined collect_parts with_part is_skipped split push is_separator
    starts_with_slash with_key
climbing_path = refl
