-- ===== src/Replies/Slug.antt =====
-- src/dev_team/parsing.py: `_slugify_task_id`, and what makes a slug safe in a path.
use Prim.Native.Char.{Char, code}
use Prim.Native.String.{String, [], ◌∷◌, ◌++◌}
use Prim.Native.String.append
use dev_team.Prelude.{
  ℕ, suc, ◌≡◌, refl, ap, ◌∙◌, inl, inr, Bool, true, false, not, ◌&&◌, ◌||◌, arith, if◌then◌else◌,
  leb, eqb, Bool-cases,
}
use dev_team.Prelude.Chars.{
  is_blank, all_chars, starts, ends, lstrip, strip, all_chars-lstrip, all_chars-rstrip,
  starts-lstrip, starts-rstrip, ends-rstrip, lstrip_fixed, rstrip_fixed,
}
use dev_team.Prelude.Decimal.{str, is_digit, all_digits, isdigit, isdigit-str}

-- `[A-Za-z0-9_-]`
unfoldable pub is_slug_char : Char → Bool
is_slug_char c =
    let n = code c in
    leb 65 n && leb n 90 || leb 97 n && leb n 122 || leb 48 n && leb n 57 || (eqb n 95 || eqb n 45)

unfoldable pub is_dash : Char → Bool
is_dash c = eqb (code c) 45

abbrev dash : Char
dash = "-"

-- `_UNSAFE_ID_RUN.sub("-", raw)`, within a run of unsafe characters or not.
unfoldable pub collapse : Bool → String → String
collapse in_run [] = []
collapse in_run (c ∷ s) =
    let rest = collapse (not (is_slug_char c)) s in
    if is_slug_char c then c ∷ rest else if in_run then rest else dash ∷ rest

abbrev or_positional : ℕ → String → String
or_positional index slug = if is_blank slug then "T" ++ str (suc index) else slug

unfoldable pub slugify_task_id : String → ℕ → String
unfolding collapse strip is_dash is_blank
slugify_task_id raw index = or_positional index (strip is_dash (collapse false raw))

-- Some safe characters and no others, with no dash at either end.
unfoldable pub is_slug : String → Bool
is_slug s =
    not (is_blank s)
    && (all_chars is_slug_char s && (not (starts is_dash s) && not (ends is_dash s)))

dash-is_slug_char : is_slug_char dash ≡ true
unfolding is_slug_char
dash-is_slug_char = refl

collapse_safe : (in_run : Bool) (s : String) → all_chars is_slug_char (collapse in_run s) ≡ true
unfolding all_chars collapse
collapse_safe in_run [] = refl
collapse_safe in_run (c ∷ s) =
    ground (arith, dash-is_slug_char, collapse_safe (not (is_slug_char c)) s)

strip_safe :
    (s : String) → all_chars is_slug_char s ≡ true → all_chars is_slug_char (strip is_dash s) ≡ true
unfolding strip
strip_safe s h = all_chars-rstrip _ _ (lstrip is_dash s) (all_chars-lstrip _ _ s h)

strip-is_slug :
    (s : String)
    → all_chars is_slug_char s ≡ true
    → is_blank (strip is_dash s) ≡ false
    → is_slug (strip is_dash s) ≡ true
unfolding strip is_slug
strip-is_slug s h b = ground (
  arith,
  strip_safe s h,
  starts-rstrip is_dash (lstrip is_dash s) (starts-lstrip is_dash s),
  ends-rstrip is_dash (lstrip is_dash s),
)

digit-is_slug_char : (c : Char) → is_digit c ≡ true → (is_slug_char c ≡ true) × (is_dash c ≡ false)
unfolding is_slug_char is_digit is_dash
digit-is_slug_char c h = ground arith

digits_safe :
    (s : String)
    → all_digits s ≡ true
    → (all_chars is_slug_char s ≡ true) × (ends is_dash s ≡ false)
unfolding all_digits all_chars ends is_blank
digits_safe [] h = (refl, refl)
digits_safe (c ∷ s) h = ground (arith, digits_safe s, digit-is_slug_char c)

abbrev tee : Char
tee = "T"

tee_safe : (is_slug_char tee ≡ true) × (is_dash tee ≡ false)
unfolding is_slug_char is_dash
tee_safe = (refl, refl)

after_tee : (c : Char) (s : String) → isdigit (c ∷ s) ≡ true → is_slug (tee ∷ c ∷ s) ≡ true
unfolding isdigit is_slug all_chars starts ends is_blank
after_tee c s h =
    ground (arith, tee_safe, digits_safe (c ∷ s) h, digit-is_slug_char c, digits_safe s)

after_T : (s : String) → isdigit s ≡ true → is_slug ("T" ++ s) ≡ true
unfolding isdigit all_chars
after_T [] h = cc
after_T (c ∷ s) h =
    ap is_slug (append.cons tee [] (c ∷ s) ∙ ap (λ t. tee ∷ t) (append.nil (c ∷ s)))
    ∙ after_tee c s h

collapse_fixed : (s : String) → all_chars is_slug_char s ≡ true → collapse false s ≡ s
unfolding collapse all_chars
collapse_fixed [] h = refl
collapse_fixed (c ∷ s) h = ground (arith, collapse_fixed s)

or_positional-is_slug :
    (index : ℕ) (slug : String)
    → (is_blank slug ≡ false → is_slug slug ≡ true)
    → is_slug (or_positional index slug) ≡ true
or_positional-is_slug index slug h = elim (Bool-cases (is_blank slug)) [
  | inl blank ↦ rw blank (after_T (str (suc index)) (isdigit-str (suc index)))
  | inr full ↦ rw full (h full)
]

-- What the sanitiser makes of any text is a slug.
pub slugify_task_id-is_slug :
    (raw : String) (index : ℕ) → is_slug (slugify_task_id raw index) ≡ true
unfolding slugify_task_id
slugify_task_id-is_slug raw index =
    or_positional-is_slug index _ (strip-is_slug (collapse false raw) (collapse_safe false raw))

strip-slug : (s : String) → is_slug s ≡ true → strip is_dash (collapse false s) ≡ s
unfolding is_slug strip
strip-slug s h = ground (arith, collapse_fixed s, lstrip_fixed is_dash s, rstrip_fixed is_dash s)

-- A slug is kept as it is.
pub slugify_task_id_fixed :
    (s : String) (index : ℕ) → is_slug s ≡ true → slugify_task_id s index ≡ s
unfolding slugify_task_id is_slug
slugify_task_id_fixed s index h = ground (arith, strip-slug s h)
