-- ===== src/Triage.antt =====
-- src/dev_team/triage.py: the decision on a raw request, read from the reply of a model. `repr` of a
-- value is a parameter, and lower-casing is that of ASCII.
pub mod Routes
pub mod Tests
use Prim.Native.String.{◌++◌ as ◌<>◌}
use dev_team.Prelude.{
  String, Bool, true, false, not, ◌&&◌, Option, none, some, List, [], ◌∷◌, ◌++◌, ◌==◌,
  if◌then◌else◌, elem,
}
use dev_team.Prelude.Chars.{strip, is_space, is_blank}
use dev_team.Models.{FeatureRequest}
use dev_team.Replies.{
  Json, null, text, arr, obj, Items, nil, cons, Fields, end, field, get_value, normal,
}

unfoldable pub triage_routes : List String
triage_routes = "deliver" ∷ "assess" ∷ "chat" ∷ "unclear" ∷ []

pub record TriageDecision : Type 0 where
  pub route : String
  pub rationale : String
  pub request : Option FeatureRequest

-- `s.strip()` where that is not empty.
unfoldable pub stripped : String → Option String
unfolding strip is_space is_blank
stripped s = let t = strip is_space s in if is_blank t then none else some t

unfoldable pub usable_text : Json → Option String
unfolding stripped
usable_text (text s) = stripped s
usable_text _ = none

unfoldable pub with_usable : Option String → List String → List String
with_usable none cs = cs
with_usable (some c) cs = c ∷ cs

unfoldable pub constraints_in : Items → List String
unfolding usable_text with_usable
constraints_in nil = []
constraints_in (cons v vs) = with_usable (usable_text v) (constraints_in vs)

unfoldable pub constraints_of : Json → List String
unfolding constraints_in
constraints_of (arr vs) = constraints_in vs
constraints_of _ = []

-- `FeatureRequest(...)`, for a usable title and a usable description.
unfoldable pub request_from : List String → Option String → Option String → Option FeatureRequest
request_from constraints none _ = none
request_from constraints (some title) none = none
request_from constraints (some title) (some description) =
    some (record { title = title; description = description; constraints = constraints })

-- `_brief_request`
unfoldable pub brief_request : Fields → Option FeatureRequest
unfolding request_from constraints_of usable_text get_value
brief_request d =
    request_from (constraints_of (get_value d "constraints")) (usable_text (get_value d "title"))
      (usable_text (get_value d "description"))

unfoldable pub route_of : Json → String
unfolding normal
route_of (text s) = normal s
route_of _ = ""

unfoldable pub rationale_of : Json → String
unfolding strip is_space
rationale_of (text s) = strip is_space s
rationale_of _ = ""

-- `f": {rationale}" if rationale else ""`
unfoldable pub noted : String → String
unfolding is_blank
noted rationale = if is_blank rationale then "" else ": " <> rationale

unfoldable pub unclear : String → TriageDecision
unclear rationale = record { route = "unclear"; rationale = rationale; request = none }

unfoldable pub delivery : String → Option FeatureRequest → TriageDecision
delivery rationale none =
    unclear ("triage proposed delivery without a usable brief" <> noted rationale)
delivery rationale (some request) = record {
  route = "deliver";
  rationale = rationale;
  request = some request;
}

unfoldable pub routed : String → String → String → Option FeatureRequest → TriageDecision
routed shown route rationale request =
    if not (elem route triage_routes)
    then unclear ("triage proposed an unknown route " <> (shown <> noted rationale))
    else if route == "deliver"
    then delivery rationale request
    else record { route = route; rationale = rationale; request = none }

unfoldable pub triage_decision_from_dict : (Json → String) → Json → TriageDecision
triage_decision_from_dict repr (obj d) =
    let raw_route = get_value d "route" in
    routed (repr raw_route) (route_of raw_route) (rationale_of (get_value d "rationale"))
      (brief_request d)
triage_decision_from_dict repr _ = unclear "unusable triage reply"

-- `argv += ["-c", constraint]`, for each constraint.
unfoldable pub constraint_flags : List String → List String
constraint_flags [] = []
constraint_flags (c ∷ cs) = "-c" ∷ c ∷ constraint_flags cs

unfoldable pub other_command : String → List String
other_command route =
    if route == "assess" then "dev-team" ∷ "--assess" ∷ [] else "dev-team" ∷ "--chat" ∷ []

unfoldable pub command_for : String → Option FeatureRequest → List String
unfolding constraint_flags other_command
command_for route none = other_command route
command_for route (some request) =
    if route == "deliver"
    then ("dev-team" ∷ request.title ∷ request.description ∷ constraint_flags request.constraints)
      ++ "--deliver" ∷ []
    else other_command route

unfoldable pub equivalent_command : TriageDecision → List String
unfolding command_for
equivalent_command decision = command_for decision.route decision.request

-- A list of texts as JSON.
unfoldable pub texts : List String → Items
texts [] = nil
texts (s ∷ ss) = cons (text s) (texts ss)

unfoldable pub request_document : Option FeatureRequest → Json
unfolding texts
request_document none = null
request_document (some r) = obj (
    field "title" (text r.title) (
      field "description" (text r.description)
        (field "constraints" (arr (texts r.constraints)) end)))

unfoldable pub decision_to_dict : TriageDecision → Fields
unfolding request_document equivalent_command texts
decision_to_dict decision = field "route" (text decision.route) (
    field "rationale" (text decision.rationale) (
      field "request" (request_document decision.request)
        (field "equivalent_command" (arr (texts (equivalent_command decision))) end)))
