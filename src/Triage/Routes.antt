-- ===== src/Triage/Routes.antt =====
-- src/dev_team/triage.py: what a decision may be, whatever the model replies.
use Prim.Native.String.{◌++◌ as ◌<>◌}
use dev_team.Prelude.{
  ◌≡◌, refl, inl, inr, String, Bool, true, false, not, ◌&&◌, Option, none, some, List, [], ◌∷◌,
  ◌==◌, Bool-cases, elem, elem-append, all, eq_refl, arith,
}
use dev_team.Prelude.Chars.{
  strip, lstrip, rstrip, is_space, is_blank, starts-lstrip, starts-rstrip, ends-rstrip,
  lstrip_fixed, rstrip_fixed,
}
use dev_team.Models.{FeatureRequest}
use dev_team.Replies.{Json, text, obj, Items, nil, cons, Fields, arr, get_value, null, bool, num}
use dev_team.Triage.{
  triage_routes, TriageDecision, stripped, usable_text, with_usable, constraints_in, constraints_of,
  request_from, brief_request, unclear, delivery, routed, triage_decision_from_dict,
  constraint_flags, other_command, command_for, noted, equivalent_command,
}

strip_fixed : (s : String) → strip is_space (strip is_space s) ≡ strip is_space s
unfolding strip
strip_fixed s =
    let bare = lstrip is_space s in
    let front = starts-rstrip is_space bare (starts-lstrip is_space s) in
    rw (lstrip_fixed is_space (rstrip is_space bare) front)
      (rstrip_fixed is_space (rstrip is_space bare) (ends-rstrip is_space bare))

-- A text that is not empty and that has no blanks around it.
unfoldable pub is_clean : String → Bool
is_clean s = not (is_blank s) && strip is_space s == s

unfoldable pub clean_option : Option String → Bool
unfolding is_clean
clean_option none = true
clean_option (some s) = is_clean s

stripped_clean : (s : String) → clean_option (stripped s) ≡ true
unfolding stripped clean_option is_clean
stripped_clean s = elim (Bool-cases (is_blank (strip is_space s))) [
  | inl e ↦ rw e refl
  | inr e ↦ rw (e, strip_fixed s, eq_refl (strip is_space s), e) refl
]

usable_text_clean : (v : Json) → clean_option (usable_text v) ≡ true
unfolding usable_text clean_option
usable_text_clean null = refl
usable_text_clean (bool b) = refl
usable_text_clean (num n) = refl
usable_text_clean (text s) = stripped_clean s
usable_text_clean (arr vs) = refl
usable_text_clean (obj d) = refl

with_usable_clean :
    (c : Option String) (cs : List String)
    → clean_option c ≡ true
    → all is_clean cs ≡ true
    → all is_clean (with_usable c cs) ≡ true
unfolding with_usable clean_option all
with_usable_clean none cs h hs = hs
with_usable_clean (some c) cs h hs = rw h hs

constraints_in_clean : (vs : Items) → all is_clean (constraints_in vs) ≡ true
unfolding constraints_in all
constraints_in_clean nil = refl
constraints_in_clean (cons v vs) =
    with_usable_clean (usable_text v) (constraints_in vs) (usable_text_clean v)
      (constraints_in_clean vs)

constraints_of_clean : (v : Json) → all is_clean (constraints_of v) ≡ true
unfolding constraints_of all
constraints_of_clean (arr vs) = constraints_in_clean vs
constraints_of_clean null = refl
constraints_of_clean (bool b) = refl
constraints_of_clean (num n) = refl
constraints_of_clean (text s) = refl
constraints_of_clean (obj d) = refl

-- The title, the description and each constraint of a request are clean.
unfoldable pub clean_request : Option FeatureRequest → Bool
unfolding is_clean all
clean_request none = true
clean_request (some r) = is_clean r.title && is_clean r.description && all is_clean r.constraints

request_from_clean :
    (constraints : List String) (title description : Option String)
    → all is_clean constraints ≡ true
    → clean_option title ≡ true
    → clean_option description ≡ true
    → clean_request (request_from constraints title description) ≡ true
unfolding request_from clean_request clean_option
request_from_clean constraints none description h t d = refl
request_from_clean constraints (some title) none h t d = refl
request_from_clean constraints (some title) (some description) h t d = rw (t, d) h

brief_request_clean : (d : Fields) → clean_request (brief_request d) ≡ true
unfolding brief_request
brief_request_clean d =
    request_from_clean _ _ _ (constraints_of_clean (get_value d "constraints"))
      (usable_text_clean (get_value d "title")) (usable_text_clean (get_value d "description"))

unfoldable pub is_some {ℓ} : {A : Type ℓ} → Option A → Bool
is_some none = false
is_some (some x) = true

-- A decision that may be shown: its route is one of the four, it has a request exactly where it is a
-- delivery, the request is clean, and the command delivers exactly where there is a request.
abbrev pub Sound : TriageDecision → Type 0
Sound d =
    (elem d.route triage_routes ≡ true)
    × ((d.route == "deliver") ≡ is_some d.request)
    × (clean_request d.request ≡ true)
    × (elem "--deliver" (equivalent_command d) ≡ is_some d.request)

unclear-Sound : (rationale : String) → Sound (unclear rationale)
unfolding unclear triage_routes elem is_some clean_request equivalent_command command_for
    other_command
unclear-Sound rationale = (refl, refl, refl, refl)

delivery-Sound :
    (rationale : String) (request : Option FeatureRequest)
    → clean_request request ≡ true
    → Sound (delivery rationale request)
unfolding delivery triage_routes elem is_some equivalent_command command_for
delivery-Sound rationale none h =
    unclear-Sound ("triage proposed delivery without a usable brief" <> noted rationale)
delivery-Sound rationale (some r) h =
    let before = "dev-team" ∷ r.title ∷ r.description ∷ constraint_flags r.constraints in
    (refl, refl, h, rw (elem-append "--deliver" before ("--deliver" ∷ [])) (ground arith))

other_command_lem : (route : String) → elem "--deliver" (other_command route) ≡ false
unfolding other_command elem
other_command_lem route = elim (Bool-cases (route == "assess")) [
  | inl e ↦ rw e refl
  | inr e ↦ rw e refl
]

routed-Sound :
    (shown route rationale : String) (request : Option FeatureRequest)
    → clean_request request ≡ true
    → Sound (routed shown route rationale request)
unfolding routed is_some clean_request equivalent_command command_for
routed-Sound shown route rationale request h = elim (Bool-cases (elem route triage_routes)) [
  | inr e ↦ rw e (unclear-Sound ("triage proposed an unknown route " <> (shown <> noted rationale)))
  | inl e ↦ elim (Bool-cases (route == "deliver")) [
    | inl e₁ ↦ rw (e, e₁) (delivery-Sound rationale request h)
    | inr e₁ ↦ rw (e, e₁) (e, e₁, refl, other_command_lem route)
  ]
]

-- Whatever the model replies, the decision is sound: its route is one of the four routes; it carries a
-- request exactly where it is a delivery, and the request's title, description and constraints are not
-- empty and have no blanks around them; and the command that it maps to has the flag of a delivery
-- exactly where it carries a request.
pub triage_decision_from_dict-Sound :
    (repr : Json → String) (reply : Json) → Sound (triage_decision_from_dict repr reply)
unfolding triage_decision_from_dict
triage_decision_from_dict-Sound repr (obj d) = routed-Sound _ _ _ _ (brief_request_clean d)
triage_decision_from_dict-Sound repr (arr vs) = unclear-Sound "unusable triage reply"
triage_decision_from_dict-Sound repr (text s) = unclear-Sound "unusable triage reply"
triage_decision_from_dict-Sound repr (num n) = unclear-Sound "unusable triage reply"
triage_decision_from_dict-Sound repr (bool b) = unclear-Sound "unusable triage reply"
triage_decision_from_dict-Sound repr null = unclear-Sound "unusable triage reply"
