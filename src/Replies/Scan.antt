-- ===== src/Replies/Scan.antt =====
-- `extract_json` against the list of the values that a text holds.
use Prim.Native.Nat.{ℕ, zero, suc, ◌≤◌}
use Prim.Native.Char.{Char}
use Prim.Native.String.{String, [], ◌∷◌}
use mathlib.Core.List.{List, [] as []ᴸ, ◌∷◌ as ◌∷ᴸ◌}
use dev_team.Prelude.{
  ◌≡◌, refl, false, not, Option, none, some, arith, filter, Bool-cases, inl, inr, Option-cases, ◌∙◌,
}
use dev_team.Replies.{Json, Python}
use dev_team.Replies.Extract.{
  Scan, is_opener, is_last, scan_char, in_front, balanced_from, find_balanced, with_rest, parsed,
  value_at, is_object, keep_object, keep_array, Extracted, chosen, extract_loop, len, extract_json,
}

-- The values that a text holds, read from its left: a value that starts where the text does is
-- taken whole, and otherwise one character is passed over.
pub data Holds (py : Python) : String → List Json → Type 0 where
  nothing_left : Holds py [] []ᴸ
  passed :
      (c : Char) (s : String) {vs : List Json}
      → value_at py c s ≡ none
      → Holds py s vs
      → Holds py (c ∷ s) vs
  taken :
      (c : Char) (s : String) {vs : List Json} (v : Json) (rest : String)
      → value_at py c s ≡ some (v, rest)
      → Holds py rest vs
      → Holds py (c ∷ s) (v ∷ᴸ vs)

abbrev pub head : List Json → Option Json
head []ᴸ = none
head (v ∷ᴸ vs) = some v

abbrev pub last : List Json → Option Json
last []ᴸ = none
last (v ∷ᴸ []ᴸ) = some v
last (v ∷ᴸ w ∷ᴸ vs) = last (w ∷ᴸ vs)

abbrev pub objects : List Json → List Json
objects vs = filter is_object vs

-- The values that are not objects.
abbrev pub arrays : List Json → List Json
arrays vs = filter (λ v. not (is_object v)) vs

-- The last of some values, or else the one given.
last_or : Option Json → List Json → Option Json
last_or o []ᴸ = o
last_or o (v ∷ᴸ vs) = last_or (some v) vs

first_or : Option Json → List Json → Option Json
first_or (some v) vs = some v
first_or none vs = head vs

-- What is left after a value, if one was found, is shorter than a text.
abbrev Shorter : String → Option (String × String) → Type 0
Shorter s none = Unit
Shorter s (some (chunk, rest)) = suc (len rest) ≤ len s

Shorter-in_front :
    (c d : Char) (s : String) (r : Option (String × String))
    → Shorter s r
    → Shorter (c ∷ s) (in_front d r)
unfolding in_front len
Shorter-in_front c d s none h = tt
Shorter-in_front c d s (some (chunk, rest)) h = omega arith

balanced_from-Shorter : (o : Char) (s : String) (st : Scan) → Shorter s (balanced_from o s st)
unfolding balanced_from len
balanced_from-Shorter o [] st = tt
balanced_from-Shorter o (c ∷ s) st = elim (Bool-cases (is_last o c st)) [
  | inl e ↦ rw e (omega arith)
  | inr e ↦ rw e (Shorter-in_front c c s _ (balanced_from-Shorter o s (scan_char o c st)))
]

parsed_rest :
    (py : Python) (s : String) (r : Option (String × String)) (v : Json) (rest : String)
    → Shorter s r
    → parsed py r ≡ some (v, rest)
    → suc (len rest) ≤ len s
unfolding parsed with_rest
parsed_rest py s none v rest h e = cc
parsed_rest py s (some (chunk, more)) v rest h e = ground (arith, h)

abbrev start : Scan
start = record { depth = 0; in_string = false; escaped = false }

value_at_rest :
    (py : Python) (c : Char) (s : String) (v : Json) (rest : String)
    → value_at py c s ≡ some (v, rest)
    → len rest ≤ len s
unfolding value_at find_balanced len
value_at_rest py c s v rest e = elim (Bool-cases (is_opener c)) [
  | inl o ↦
      let found : parsed py (find_balanced (c ∷ s)) ≡ some (v, rest) = rw o at e in
      omega (arith, parsed_rest py (c ∷ s) _ v rest (balanced_from-Shorter c (c ∷ s) start) found)
  | inr o ↦ absurd (ground (arith, o))
]

last_or-objects :
    (v : Json) (o : Option Json) (vs : List Json)
    → last_or (keep_object v o) (objects vs) ≡ last_or o (objects (v ∷ᴸ vs))
unfolding keep_object last_or filter
last_or-objects v o vs = elim (Bool-cases (is_object v)) [ inl e ↦ rw e refl | inr e ↦ rw e refl ]

first_or-arrays :
    (v : Json) (o : Option Json) (vs : List Json)
    → first_or (keep_array v o) (arrays vs) ≡ first_or o (arrays (v ∷ᴸ vs))
unfolding keep_array first_or filter
first_or-arrays v (some a) vs = refl
first_or-arrays v none vs = elim (Bool-cases (is_object v)) [
  | inl e ↦ rw e refl
  | inr e ↦ rw e refl
]

last_or-none : (v : Json) (vs : List Json) → last_or (some v) vs ≡ last (v ∷ᴸ vs)
unfolding last_or
last_or-none v []ᴸ = refl
last_or-none v (w ∷ᴸ vs) = last_or-none w vs

last_or-last : (vs : List Json) → last_or none vs ≡ last vs
unfolding last_or
last_or-last []ᴸ = refl
last_or-last (v ∷ᴸ vs) = last_or-none v vs

first_or-nil : (a : Option Json) → first_or a []ᴸ ≡ a
unfolding first_or
first_or-nil none = refl
first_or-nil (some v) = refl

module _ (py : Python) where
  -- The loop from some values on comes to an end, with what they and the values left make.
  abbrev Ends : String → Option Json → Option Json → Extracted → Type 0
  Ends text o a r =
      (vs : List Json) × Holds py text vs
      × (r ≡ chosen (last_or o (objects vs)) (first_or a (arrays vs)))

  extract_loop-Ends :
      (fuel : ℕ) (text : String) (o a : Option Json)
      → len text ≤ fuel
      → Ends text o a (extract_loop py fuel text o a)
  unfolding extract_loop len last_or filter
  extract_loop-Ends fuel [] o a h = ([]ᴸ, nothing_left, rw (first_or-nil a) refl)
  extract_loop-Ends zero (c ∷ s) o a h = absurd (omega arith)
  extract_loop-Ends (suc fuel) (c ∷ s) o a h = elim (Option-cases (value_at py c s)) [
    | inl none_here ↦
        let (vs, holds, e) = extract_loop-Ends fuel s o a (omega arith) in
        (vs, passed c s none_here holds, rw (none_here, extract_loop) e)
    | inr ((v, rest), here) ↦
        let shorter : len rest ≤ len s = value_at_rest py c s v rest here in
        let (vs, holds, e) =
          extract_loop-Ends fuel rest (keep_object v o) (keep_array v a) (omega (arith, shorter)) in
        (
          v ∷ᴸ vs,
          taken c s v rest here holds,
          rw (here, extract_loop) (e ∙ rw (last_or-objects v o vs, first_or-arrays v a vs) refl),
        )
  ]

  -- `extract_json` ends on every text, with the last object among the values that the text holds;
  -- where none is an object, with the first of them; and with its error where there are none.
  pub extract_json_lem :
      (text : String)
      → (vs : List Json) × Holds py text vs
        × (extract_json py text ≡ chosen (last (objects vs)) (head (arrays vs)))
  unfolding extract_json first_or
  extract_json_lem text =
      let (vs, holds, e) = extract_loop-Ends (len text) text none none (omega arith) in
      (vs, holds, rw (← last_or-last (objects vs)) e)
