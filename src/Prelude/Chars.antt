-- ===== src/Prelude/Chars.antt =====
-- Python's `strip` and `lower` of a text, and tests of all its characters.
use Prim.Native.Nat.{ℕ, ◌+◌, ◌<◌}
use Prim.Native.Char.{Char, char, code, IsScalar}
use Prim.Native.String.{String, [], ◌∷◌}
use mathlib.Core.Path.{◌≡◌, refl}
use mathlib.Core.Bool.{Bool, true, false, ◌&&◌, ◌||◌}
use native.Mathlib.Omega.{arith}
use native.Mathlib.Decide.{dec_lt}
use mathlib.Core.Logic.{dite}
use dev_team.Prelude.Tests.{if◌then◌else◌, leb, eqb}

unfoldable pub is_blank : String → Bool
is_blank [] = true
is_blank (c ∷ s) = false

unfoldable pub all_chars : (Char → Bool) → String → Bool
all_chars p [] = true
all_chars p (c ∷ s) = p c && all_chars p s

unfoldable pub starts : (Char → Bool) → String → Bool
starts p [] = false
starts p (c ∷ s) = p c

unfoldable pub ends : (Char → Bool) → String → Bool
unfolding is_blank
ends p [] = false
ends p (c ∷ s) = let rest = ends p s in if is_blank s then p c else rest

-- `s.lstrip(chars)` and `s.rstrip(chars)`, the characters given by a test.
unfoldable pub lstrip : (Char → Bool) → String → String
lstrip p [] = []
lstrip p (c ∷ s) = let rest = lstrip p s in if p c then rest else c ∷ s

unfoldable pub rstrip : (Char → Bool) → String → String
unfolding is_blank
rstrip p [] = []
rstrip p (c ∷ s) = let rest = rstrip p s in if p c && is_blank rest then [] else c ∷ rest

unfoldable pub strip : (Char → Bool) → String → String
unfolding lstrip rstrip
strip p s = rstrip p (lstrip p s)

-- The characters that `str.strip()` strips.
unfoldable pub is_space : Char → Bool
is_space c =
    let n = code c in
    leb 9 n && leb n 13
    || (leb 28 n && leb n 32)
    || (eqb n 133 || eqb n 160)
    || (eqb n 5760 || leb 8192 n && leb n 8202)
    || (eqb n 8232 || eqb n 8233)
    || (eqb n 8239 || eqb n 8287 || eqb n 12288)

pub small-IsScalar : (n : ℕ) → n < 55296 → IsScalar n
small-IsScalar n h = ground arith

-- `c.lower()` of an ASCII character; other characters are left as they are.
unfoldable pub lower_char : Char → Char
unfolding dec_lt
lower_char c =
    let low : (code c < 91 → Char) =
      λ h. char (code c + 32) (small-IsScalar (code c + 32) (omega (arith, h))) in
    if leb 65 (code c) then dite (dec_lt (code c) 91) low (λ _. c) else c

unfoldable pub lower : String → String
unfolding lower_char
lower [] = []
lower (c ∷ s) = lower_char c ∷ lower s

pub all_chars-lstrip :
    (q p : Char → Bool) (s : String) → all_chars q s ≡ true → all_chars q (lstrip p s) ≡ true
unfolding all_chars lstrip
all_chars-lstrip q p [] h = refl
all_chars-lstrip q p (c ∷ s) h = ground (arith, all_chars-lstrip q p s)

pub all_chars-rstrip :
    (q p : Char → Bool) (s : String) → all_chars q s ≡ true → all_chars q (rstrip p s) ≡ true
unfolding all_chars rstrip is_blank
all_chars-rstrip q p [] h = refl
all_chars-rstrip q p (c ∷ s) h = ground (arith, all_chars-rstrip q p s)

pub starts-lstrip : (p : Char → Bool) (s : String) → starts p (lstrip p s) ≡ false
unfolding starts lstrip
starts-lstrip p [] = refl
starts-lstrip p (c ∷ s) = ground (arith, starts-lstrip p s)

pub starts-rstrip :
    (p : Char → Bool) (s : String) → starts p s ≡ false → starts p (rstrip p s) ≡ false
unfolding starts rstrip is_blank
starts-rstrip p [] h = refl
starts-rstrip p (c ∷ s) h = ground arith

pub ends-rstrip : (p : Char → Bool) (s : String) → ends p (rstrip p s) ≡ false
unfolding ends rstrip is_blank
ends-rstrip p [] = refl
ends-rstrip p (c ∷ s) = ground (arith, ends-rstrip p s)

pub lstrip_fixed : (p : Char → Bool) (s : String) → starts p s ≡ false → lstrip p s ≡ s
unfolding starts lstrip
lstrip_fixed p [] h = refl
lstrip_fixed p (c ∷ s) h = rw h

is_blank-rstrip :
    (p : Char → Bool) (s : String) → ends p s ≡ false → is_blank (rstrip p s) ≡ is_blank s
unfolding ends rstrip is_blank
is_blank-rstrip p [] h = refl
is_blank-rstrip p (c ∷ s) h = ground (arith, is_blank-rstrip p s)

pub rstrip_fixed : (p : Char → Bool) (s : String) → ends p s ≡ false → rstrip p s ≡ s
unfolding ends rstrip is_blank
rstrip_fixed p [] h = refl
rstrip_fixed p (c ∷ []) h = ground arith
rstrip_fixed p (c ∷ d ∷ s) h =
    let still : ends p (d ∷ s) ≡ false = h in
    ground (arith, rstrip_fixed p (d ∷ s) still, is_blank-rstrip p (d ∷ s) still)
