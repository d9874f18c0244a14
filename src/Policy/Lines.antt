-- ===== src/Policy/Lines.antt =====
-- The lines that a command is read as: itself, and the commands of the scripts that it hands to a shell.
use dev_team.Prelude.{
  String, ◌≡◌, refl, true, false, not, List, [], ◌∷◌, ◌++◌, ◌⊎◌, inl, inr, All, filter, is_empty,
  Bool-cases,
}
use dev_team.Policy.{
  Shell, basename, is_shell, is_operator, is_command_flag, scripts_in, shell_c_scripts,
  tokens_or_words, add_to_first, commands_in, split_shell_script, scripts_commands, command_lines,
}

-- The scripts among the tokens behind a shell: what follows a flag for a command, read from the left,
-- where a script is no flag.
pub data HandsOver : List String → List String → Type 0 where
  at_end : HandsOver [] []
  at_last : {t : String} → HandsOver (t ∷ []) []
  script :
      {t s : String} {rest ss : List String}
      → is_command_flag t ≡ true
      → HandsOver rest ss
      → HandsOver (t ∷ s ∷ rest) (s ∷ ss)
  past :
      {t u : String} {rest ss : List String}
      → is_command_flag t ≡ false
      → HandsOver (u ∷ rest) ss
      → HandsOver (t ∷ u ∷ rest) ss

abbrev pub HandsToShell : List String → List String → Type 0
HandsToShell [] scripts = scripts ≡ []
HandsToShell (program ∷ rest) scripts =
    ((is_shell (basename program) ≡ true) × HandsOver rest scripts)
    ⊎ ((is_shell (basename program) ≡ false) × (scripts ≡ []))

-- The runs of tokens between the operators: the tokens are these runs with an operator between two.
pub data IsCut : List String → List (List String) → Type 0 where
  one_run : {c : List String} → All (λ t. is_operator t ≡ false) c → IsCut c (c ∷ [])
  cut :
      {c ts : List String} {cs : List (List String)} (op : String)
      → All (λ t. is_operator t ≡ false) c
      → is_operator op ≡ true
      → IsCut ts cs
      → IsCut (c ++ op ∷ ts) (c ∷ cs)

-- The commands of the scripts, in order: the runs of each that are not empty.
pub data AreCut (shell : Shell) : List String → List (List String) → Type 0 where
  no_scripts : AreCut shell [] []
  next_script :
      {s : String} {ss : List String} {cs lines : List (List String)}
      → IsCut (tokens_or_words (shell.lex s) s) cs
      → AreCut shell ss lines
      → AreCut shell (s ∷ ss) (filter (λ c. not (is_empty c)) cs ++ lines)

-- The command itself, and the commands of its scripts.
abbrev pub AreLines : Shell → List String → List (List String) → Type 0
AreLines shell command lines =
    (scripts : List String) × (inner : List (List String)) × HandsToShell command scripts
    × AreCut shell scripts inner
    × (lines ≡ command ∷ inner)

scripts_in-HandsOver : (tokens : List String) → HandsOver tokens (scripts_in tokens)
unfolding scripts_in
scripts_in-HandsOver [] = at_end
scripts_in-HandsOver (t ∷ []) = at_last
scripts_in-HandsOver (t ∷ s ∷ rest) = elim (Bool-cases (is_command_flag t)) [
  | inl e ↦ rw e (script e (scripts_in-HandsOver rest))
  | inr e ↦ rw e (past e (scripts_in-HandsOver (s ∷ rest)))
]

shell_c_scripts-HandsToShell : (args : List String) → HandsToShell args (shell_c_scripts args)
unfolding shell_c_scripts
shell_c_scripts-HandsToShell [] = refl
shell_c_scripts-HandsToShell (program ∷ rest) = elim (Bool-cases (is_shell (basename program))) [
  | inl e ↦ rw e (inl (refl, scripts_in-HandsOver rest))
  | inr e ↦ rw e (inr (refl, refl))
]

add_to_first-IsCut :
    (t : String) (ts : List String) (cs : List (List String))
    → is_operator t ≡ false
    → IsCut ts cs
    → IsCut (t ∷ ts) (add_to_first t cs)
unfolding add_to_first
add_to_first-IsCut t _ _ e (one_run a) = one_run (e, a)
add_to_first-IsCut t _ _ e (cut op a o h) = cut op (e, a) o h

commands_in-IsCut : (tokens : List String) → IsCut tokens (commands_in tokens)
unfolding commands_in
commands_in-IsCut [] = one_run tt
commands_in-IsCut (t ∷ ts) = elim (Bool-cases (is_operator t)) [
  | inl e ↦ rw e (cut {c = []} t tt e (commands_in-IsCut ts))
  | inr e ↦ rw e (add_to_first-IsCut t ts _ e (commands_in-IsCut ts))
]

module _ (shell : Shell) where
  scripts_commands-AreCut :
      (scripts : List String) → AreCut shell scripts (scripts_commands shell scripts)
  unfolding scripts_commands split_shell_script
  scripts_commands-AreCut [] = no_scripts
  scripts_commands-AreCut (s ∷ ss) =
      next_script (commands_in-IsCut (tokens_or_words (shell.lex s) s)) (scripts_commands-AreCut ss)

  pub command_lines-AreLines : (args : List String) → AreLines shell args (command_lines shell args)
  unfolding command_lines
  command_lines-AreLines args = (
    shell_c_scripts args,
    scripts_commands shell (shell_c_scripts args),
    shell_c_scripts-HandsToShell args,
    scripts_commands-AreCut (shell_c_scripts args),
    refl,
  )
