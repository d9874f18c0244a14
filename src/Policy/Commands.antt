-- ===== src/Policy/Commands.antt =====
-- src/dev_team/policy.py: the reading of a command line: its program, the scripts that it hands to a
-- shell, the commands of a script, and the flags of rm; with `in` and `join` of texts.
use Prim.Native.Char.{Char, code}
use Prim.Native.String.{◌++◌ as ◌<>◌, [] as []ˢ, ◌∷◌ as ◌∷ˢ◌}
use text.Mathlib.Text.{starts_with}
use dev_team.Prelude.{
  String, Bool, true, false, not, ◌&&◌, ◌||◌, Option, none, some, List, [], ◌∷◌, ◌==◌,
  if◌then◌else◌, eqb, filter, elem,
}
use dev_team.Prelude.Split.{split, push}
use dev_team.Prelude.Chars.{is_space}

unfoldable pub last_part : String → List String → String
last_part s [] = s
last_part s (t ∷ ts) = last_part t ts

-- `re.split(r"[\\/]", program)[-1]`
unfoldable pub basename : String → String
unfolding last_part split
basename program = last_part "" (split program)

unfoldable pub is_shell : String → Bool
is_shell name = elem name ("sh" ∷ "bash" ∷ "zsh" ∷ "dash" ∷ "ksh" ∷ "ash" ∷ [])

unfoldable pub is_operator : String → Bool
is_operator token = elem token (";" ∷ "&" ∷ "&&" ∷ "|" ∷ "||" ∷ "(" ∷ ")" ∷ "\n" ∷ [])

-- `char in text`, for one character by its code point.
unfoldable pub has_char : (Char → Bool) → String → Bool
has_char p []ˢ = false
has_char p (c ∷ˢ s) = p c || has_char p s

abbrev pub is_c : Char → Bool
is_c c = eqb (code c) 99

abbrev pub is_r : Char → Bool
is_r c = eqb (code c) 114 || eqb (code c) 82

abbrev pub is_f : Char → Bool
is_f c = eqb (code c) 102

unfoldable pub after_first : String → String
after_first []ˢ = []ˢ
after_first (c ∷ˢ s) = s

-- `token.startswith("-") and not token.startswith("--")`
unfoldable pub is_short : String → Bool
is_short token = starts_with token "-" && not (starts_with token "--")

unfoldable pub is_command_flag : String → Bool
unfolding is_short has_char after_first
is_command_flag token = is_short token && has_char is_c (after_first token)

-- The loop of `_shell_c_scripts`.
unfoldable pub scripts_in : List String → List String
unfolding is_command_flag
scripts_in [] = []
scripts_in (token ∷ []) = []
scripts_in (token ∷ script ∷ rest) =
    let taken = script ∷ scripts_in rest in
    let passed = scripts_in (script ∷ rest) in if is_command_flag token then taken else passed

unfoldable pub shell_c_scripts : List String → List String
unfolding is_shell basename scripts_in
shell_c_scripts [] = []
shell_c_scripts (program ∷ rest) = if is_shell (basename program) then scripts_in rest else []

-- `s.split()`: the words between blanks.
unfoldable pub pieces : String → List String
unfolding push is_space
pieces []ˢ = []ˢ ∷ []
pieces (c ∷ˢ s) = let rest = pieces s in if is_space c then []ˢ ∷ rest else push c rest

unfoldable pub words : String → List String
unfolding pieces
words s = filter (λ w. not (w == "")) (pieces s)

unfoldable pub tokens_or_words : Option (List String) → String → List String
unfolding words
tokens_or_words none script = words script
tokens_or_words (some tokens) script = tokens

unfoldable pub add_to_first : String → List (List String) → List (List String)
add_to_first token [] = (token ∷ []) ∷ []
add_to_first token (c ∷ cs) = (token ∷ c) ∷ cs

-- The loop of `_split_shell_script`: the commands between the operators.
unfoldable pub commands_in : List String → List (List String)
unfolding is_operator add_to_first
commands_in [] = [] ∷ []
commands_in (token ∷ tokens) =
    let rest = commands_in tokens in
    if is_operator token then [] ∷ rest else add_to_first token rest

-- The variables `recursive` and `force`.
pub record RmFlags : Type 0 where
  pub recursive : Bool
  pub force : Bool

unfoldable pub add_flag : String → RmFlags → RmFlags
unfolding is_short has_char
add_flag token flags =
    if token == "--recursive"
    then record flags { recursive = true }
    else if token == "--force"
    then record flags { force = true }
    else if is_short token
    then record {
      recursive = flags.recursive || has_char is_r token;
      force = flags.force || has_char is_f token;
    }
    else flags

unfoldable pub rm_flags : List String → RmFlags → RmFlags
unfolding add_flag
rm_flags [] flags = flags
rm_flags (token ∷ tokens) flags = rm_flags tokens (add_flag token flags)

unfoldable pub is_destructive_rm : List String → Bool
unfolding rm_flags basename
is_destructive_rm [] = false
is_destructive_rm (program ∷ tokens) =
    let flags = rm_flags tokens (record { recursive = false; force = false }) in
    if basename program == "rm" then flags.recursive && flags.force else false

-- `text in joined`
unfoldable pub contains : String → String → Bool
contains []ˢ text = text == ""
contains (c ∷ˢ s) text = starts_with (c ∷ˢ s) text || contains s text

-- `" ".join(args)`
unfoldable pub spaced : List String → String
spaced [] = ""
spaced (a ∷ []) = a
spaced (a ∷ b ∷ rest) = a <> (" " <> spaced (b ∷ rest))
