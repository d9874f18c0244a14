-- ===== src/Policy/Flags.antt =====
-- The flags of `rm`, read wherever they stand.
use dev_team.Prelude.{
  String, ◌≡◌, Bool, false, ◌&&◌, ◌||◌, List, [], ◌∷◌, ◌==◌, eq_iff, arith, any, Bool-cases, inl,
  inr,
}
use dev_team.Policy.{
  basename, is_short, has_char, is_r, is_f, RmFlags, add_flag, rm_flags, is_destructive_rm,
}

-- A token that asks for recursion, and one that forces.
pub is_recursive : String → Bool
is_recursive token = token == "--recursive" || (is_short token && has_char is_r token)

pub is_forcing : String → Bool
is_forcing token = token == "--force" || (is_short token && has_char is_f token)

-- The flags with the tokens that set them.
abbrev with_tokens : List String → RmFlags → RmFlags
with_tokens tokens flags = record {
  recursive = flags.recursive || any is_recursive tokens;
  force = flags.force || any is_forcing tokens;
}

add_flag_lem :
    (token : String) (flags : RmFlags)
    → ((add_flag token flags).recursive ≡ (flags.recursive || is_recursive token))
      × ((add_flag token flags).force ≡ (flags.force || is_forcing token))
unfolding add_flag is_recursive is_forcing
add_flag_lem token flags = elim (Bool-cases (token == "--recursive")) [
  | inl e ↦ rw ((eq_iff token "--recursive").0 e) (ground arith)
  | inr a ↦ elim (Bool-cases (token == "--force")) [
    | inl e ↦ rw ((eq_iff token "--force").0 e) (ground arith)
    | inr b ↦ rw (a, b) (ground arith)
  ]
]

rm_flags_lem :
    (tokens : List String) (flags : RmFlags) → rm_flags tokens flags ≡ with_tokens tokens flags
unfolding rm_flags any
rm_flags_lem [] flags = ground arith
rm_flags_lem (token ∷ tokens) flags =
    ground (arith, rm_flags_lem tokens (add_flag token flags), add_flag_lem token flags)

-- A command is taken for a destructive removal exactly where its program is `rm`, by the last part of
-- its path, and among its other tokens one asks for recursion and one forces: the long options, or
-- the letters in a short cluster, in any order, in one token or in several.
pub is_destructive_rm_lem :
    (program : String) (tokens : List String)
    → is_destructive_rm (program ∷ tokens)
      ≡ (basename program == "rm" && (any is_recursive tokens && any is_forcing tokens))
unfolding is_destructive_rm
is_destructive_rm_lem program tokens =
    ground (arith, rm_flags_lem tokens (record { recursive = false; force = false }))
