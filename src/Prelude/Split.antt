-- ===== src/Prelude/Split.antt =====
-- Texts split at the separators of paths, and joined by one.
use Prim.Native.Char.{Char, code}
use Prim.Native.String.append
use Prim.Native.String.{String, [], ◌∷◌, ◌++◌}
use mathlib.Core.Path.{◌≡◌, refl, ap, ◌∙◌}
use mathlib.Core.Bool.{Bool, true, false, not, ◌&&◌, ◌||◌}
use mathlib.Core.List.{List, [] as []ᴸ, ◌∷◌ as ◌∷ᴸ◌}
use native.Mathlib.Omega.{arith}
use mathlib.Core.Logic.{inl, inr}
use dev_team.Prelude.Tests.{if◌then◌else◌, eqb, Bool-cases}
use dev_team.Prelude.Lists.{All}
use text.Mathlib.Text.{◌==◌}

-- A slash or a backslash.
unfoldable pub is_separator : Char → Bool
is_separator c = eqb (code c) 47 || eqb (code c) 92

unfoldable pub push : Char → List String → List String
push c []ᴸ = (c ∷ []) ∷ᴸ []ᴸ
push c (p ∷ᴸ ps) = (c ∷ p) ∷ᴸ ps

-- `re.split(r"[\\/]", path)`
unfoldable pub split : String → List String
unfolding is_separator push
split [] = [] ∷ᴸ []ᴸ
split (c ∷ s) = let rest = split s in if is_separator c then [] ∷ᴸ rest else push c rest

-- `"/".join(parts)`
unfoldable pub join : List String → String
join []ᴸ = []
join (p ∷ᴸ []ᴸ) = p
join (p ∷ᴸ q ∷ᴸ ps) = p ++ ("/" ++ join (q ∷ᴸ ps))

-- `path.startswith("/")`
unfoldable pub starts_with_slash : String → Bool
starts_with_slash [] = false
starts_with_slash (c ∷ s) = eqb (code c) 47

-- Without a separator.
unfoldable pub is_segment : String → Bool
unfolding is_separator
is_segment [] = true
is_segment (c ∷ s) = not (is_separator c) && is_segment s

All-push :
    (c : Char) (ps : List String)
    → is_separator c ≡ false
    → All (λ p. is_segment p ≡ true) ps
    → All (λ p. is_segment p ≡ true) (push c ps)
unfolding push is_segment
All-push c []ᴸ h a = (ground (arith, h), tt)
All-push c (p ∷ᴸ ps) h a = (ground (arith, h, a.0), a.1)

pub split-All : (s : String) → All (λ p. is_segment p ≡ true) (split s)
unfolding split is_segment
split-All [] = (refl, tt)
split-All (c ∷ s) = elim (Bool-cases (is_separator c)) [
  | inl sep ↦ rw sep (refl, split-All s)
  | inr other ↦ rw other (All-push c (split s) other (split-All s))
]

split-segment : (p : String) → is_segment p ≡ true → split p ≡ p ∷ᴸ []ᴸ
unfolding split is_segment push is_separator
split-segment [] h = refl
split-segment (c ∷ p) h = ground (arith, split-segment p)

abbrev slash : Char
slash = "/"

slash-append : (s : String) → "/" ++ s ≡ slash ∷ s
slash-append s = append.cons slash [] s ∙ ap (λ t. slash ∷ t) (append.nil s)

split-slash : (p s : String) → is_segment p ≡ true → split (p ++ ("/" ++ s)) ≡ p ∷ᴸ split s
unfolding split is_segment push is_separator
split-slash [] s h = ap split (append.nil ("/" ++ s) ∙ slash-append s)
split-slash (c ∷ p) s h = ap split (append.cons c p ("/" ++ s)) ∙ ground (arith, split-slash p s)

pub split-join :
    (p : String) (ps : List String)
    → All (λ q. is_segment q ≡ true) (p ∷ᴸ ps)
    → split (join (p ∷ᴸ ps)) ≡ p ∷ᴸ ps
unfolding join
split-join p []ᴸ a = split-segment p a.0
split-join p (q ∷ᴸ ps) a =
    split-slash p (join (q ∷ᴸ ps)) a.0 ∙ ap (λ l. p ∷ᴸ l) (split-join q ps a.1)

-- What is joined does not begin with a slash where its first part is a segment that is not empty.
pub starts_with_slash-join :
    (p : String) (ps : List String)
    → is_segment p ≡ true
    → (p == "") ≡ false
    → starts_with_slash (join (p ∷ᴸ ps)) ≡ false
unfolding join starts_with_slash is_segment is_separator
starts_with_slash-join [] ps h n = cc
starts_with_slash-join (c ∷ p) []ᴸ h n = ground arith
starts_with_slash-join (c ∷ p) (q ∷ᴸ ps) h n =
    ap starts_with_slash (append.cons c p ("/" ++ join (q ∷ᴸ ps))) ∙ ground arith
