-- ===== src/Replies/Extract.antt =====
-- src/dev_team/json_utils.py: the JSON value in the text of a reply. An index of the source is the text
-- from it on, and `_find_balanced` gives the text up to the index that it returns and from it on. Fuel:
-- each round of the loop of `extract_json` takes a character at least.
use Prim.Native.Nat.{ℕ, zero, suc, ◌+◌, ◌-◌}
use Prim.Native.Char.{Char, code}
use Prim.Native.String.{String, [], ◌∷◌}
use dev_team.Prelude.{Bool, true, false, not, ◌&&◌, ◌||◌, Option, none, some, if◌then◌else◌, eqb}
use dev_team.Replies.{Json, obj, Python}

-- The variables of the loop of `_find_balanced`.
pub record Scan : Type 0 where
  pub depth : ℕ
  pub in_string : Bool
  pub escaped : Bool

unfoldable pub is_quote : Char → Bool
is_quote c = eqb (code c) 34

unfoldable pub is_backslash : Char → Bool
is_backslash c = eqb (code c) 92

-- `char in _OPENERS`
unfoldable pub is_opener : Char → Bool
is_opener c = eqb (code c) 123 || eqb (code c) 91

-- `_OPENERS[opener]`: both closing brackets are two code points above the opening ones.
unfoldable pub is_closer_of : Char → Char → Bool
is_closer_of opener c = eqb (code c) (code opener + 2)

unfoldable pub same_char : Char → Char → Bool
same_char a b = eqb (code a) (code b)

unfoldable pub in_string_char : Char → Scan → Scan
unfolding is_quote is_backslash
in_string_char c st =
    if st.escaped
    then record st { escaped = false }
    else if is_backslash c
    then record st { escaped = true }
    else if is_quote c
    then record st { in_string = false }
    else st

unfoldable pub outside_char : Char → Char → Scan → Scan
unfolding is_quote is_closer_of same_char
outside_char opener c st =
    if is_quote c
    then record st { in_string = true }
    else if same_char c opener
    then record st { depth = st.depth + 1 }
    else if is_closer_of opener c
    then record st { depth = st.depth - 1 }
    else st

-- `return index + 1`: the bracket that closes the value.
unfoldable pub is_last : Char → Char → Scan → Bool
unfolding is_quote is_closer_of same_char
is_last opener c st =
    not st.in_string
    && (not (is_quote c)
        && (not (same_char c opener) && (is_closer_of opener c && eqb (st.depth - 1) 0)))

unfoldable pub scan_char : Char → Char → Scan → Scan
unfolding in_string_char outside_char
scan_char opener c st = if st.in_string then in_string_char c st else outside_char opener c st

unfoldable pub in_front : Char → Option (String × String) → Option (String × String)
in_front c none = none
in_front c (some (chunk, rest)) = some (c ∷ chunk, rest)

-- The loop of `_find_balanced`.
unfoldable pub balanced_from : Char → String → Scan → Option (String × String)
unfolding is_last scan_char in_front
balanced_from opener [] st = none
balanced_from opener (c ∷ s) st =
    let rest = in_front c (balanced_from opener s (scan_char opener c st)) in
    if is_last opener c st then some (c ∷ [], s) else rest

unfoldable pub find_balanced : String → Option (String × String)
unfolding balanced_from
find_balanced [] = none
find_balanced (c ∷ s) =
    balanced_from c (c ∷ s) (record { depth = 0; in_string = false; escaped = false })

unfoldable pub with_rest : Option Json → String → Option (Json × String)
with_rest none rest = none
with_rest (some v) rest = some (v, rest)

unfoldable pub parsed : Python → Option (String × String) → Option (Json × String)
unfolding with_rest
parsed py none = none
parsed py (some (chunk, rest)) = with_rest (py.loads chunk) rest

-- The value that starts where the text does, and the text after it.
unfoldable pub value_at : Python → Char → String → Option (Json × String)
unfolding find_balanced parsed is_opener
value_at py c s = if is_opener c then parsed py (find_balanced (c ∷ s)) else none

unfoldable pub is_object : Json → Bool
is_object (obj d) = true
is_object _ = false

-- `last_object` and `first_array` after one more value.
unfoldable pub keep_object : Json → Option Json → Option Json
unfolding is_object
keep_object v last_object = if is_object v then some v else last_object

unfoldable pub keep_array : Json → Option Json → Option Json
unfolding is_object
keep_array v (some a) = some a
keep_array v none = if is_object v then none else some v

pub data Extracted : Type 0 where
  extracted : Json → Extracted
  no_json out_of_fuel : Extracted

unfoldable pub chosen : Option Json → Option Json → Extracted
chosen (some v) first_array = extracted v
chosen none (some v) = extracted v
chosen none none = no_json

unfoldable pub extract_loop : Python → ℕ → String → Option Json → Option Json → Extracted
unfolding value_at keep_object keep_array chosen
extract_loop py fuel [] last_object first_array = chosen last_object first_array
extract_loop py zero (c ∷ s) last_object first_array = out_of_fuel
extract_loop py (suc fuel) (c ∷ s) last_object first_array = elim (value_at py c s) [
  | none ↦ extract_loop py fuel s last_object first_array
  | some (v, rest) ↦
      extract_loop py fuel rest (keep_object v last_object) (keep_array v first_array)
]

-- `len(text)`
unfoldable pub len : String → ℕ
len [] = 0
len (c ∷ s) = suc (len s)

unfoldable pub extract_json : Python → String → Extracted
unfolding extract_loop len
extract_json py text = extract_loop py (len text) text none none
