-- ===== src/Triage/Tests.antt =====
-- Decisions on concrete replies.
use dev_team.Prelude.{◌≡◌, refl, String, [], ◌∷◌, elem}
use dev_team.Replies.{Json, num, text, arr, nil, cons, obj, end, field, get_value, normal}
use dev_team.Prelude.Int.{pos}
use dev_team.Prelude.Chars.{strip, is_space, lower}
use dev_team.Triage.{
  triage_decision_from_dict, equivalent_command, brief_request, routed, delivery, unclear, noted,
  triage_routes, rationale_of, route_of,
}
use dev_team.Triage.Routes.{Sound, triage_decision_from_dict-Sound}

abbrev quoted : Json → String
quoted v = "?"

abbrev brief : Json
brief = obj (
    field "route" (text " Deliver ") (
      field "title" (text "Login ") (
        field "description" (text "A form")
          (field "constraints" (arr (cons (text " no cookies") (cons (num (pos 3)) nil))) end))))

delivers :
    equivalent_command (triage_decision_from_dict quoted brief)
    ≡ "dev-team" ∷ "Login" ∷ "A form" ∷ "-c" ∷ "no cookies" ∷ "--deliver" ∷ []
unfolding triage_decision_from_dict equivalent_command routed delivery triage_routes elem
    brief_request route_of rationale_of get_value normal strip is_space lower
delivers = refl

untitled :
    triage_decision_from_dict quoted (obj (field "route" (text "deliver") end))
    ≡ unclear "triage proposed delivery without a usable brief"
unfolding triage_decision_from_dict routed delivery triage_routes elem brief_request route_of
    rationale_of get_value normal strip is_space lower noted
untitled = refl

triage_decision_from_dict-Sound_example : Sound (triage_decision_from_dict quoted brief)
triage_decision_from_dict-Sound_example = triage_decision_from_dict-Sound quoted brief
