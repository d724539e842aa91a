-- ===== src/MockTeams/Tests.antt =====
-- The mock receiver on a few requests, and the theorems there.
use release_radar.Prelude.{◌≡◌, ◌↔◌, refl, String, Option, some, [], ◌∷◌}
use release_radar.Prelude.Json.{Json, null, str, arr, obj, nil, cons, end, field}
use release_radar.MockTeams.{
  valid, problem, throws, invalid_json, wrong_type, no_attachments, validate_attachment,
  validate_adaptive_card, Entry, Request, RawBody, empty, parsed, unparsable, read_body, accepted,
  rejected, not_found, reset, entries, route, handle,
}
use release_radar.MockTeams.Cards.{IsCard, validate_adaptive_card_iff}
use release_radar.MockTeams.Server.{handle-webhook}

server_code : Unit {0}
unfolding handle route validate_adaptive_card validate_attachment read_body
server_code = tt

abbrev content : Json
content = obj (field "type" (str "AdaptiveCard") (field "body" (arr (cons (str "hi") nil)) end))

abbrev attachment : Json
attachment = obj (
    field "contentType" (str "application/vnd.microsoft.card.adaptive")
      (field "content" content end))

abbrev message_with : Json → Json
message_with att = obj (field "type" (str "message") (field "attachments" (arr (cons att nil)) end))

abbrev card : Json
card = message_with attachment

abbrev decode : String → Option String
decode s = some s

abbrev ask : String → String → RawBody → Request
ask method path body = record { method = method; pathname = path; body = body; now = "12:00" }

abbrev post : Request
post = ask "POST" "/webhook/TMS_NP" (parsed card)

abbrev query : Request
query = ask "GET" "/received/TMS_NP" empty

abbrev stored : Entry
stored = record { name = "TMS_NP"; at = "12:00"; body = card }

verdicts :
    (validate_adaptive_card card ≡ valid)
    × (validate_adaptive_card (read_body (unparsable "{")) ≡ problem invalid_json)
    × (validate_adaptive_card (str "x") ≡ problem wrong_type)
    × (validate_adaptive_card (obj (field "type" (str "message") end)) ≡ problem no_attachments)
    × (validate_adaptive_card (message_with null) ≡ throws)
unfolding server_code
verdicts = (refl, refl, refl, refl, refl)

answers :
    (handle decode post [] ≡ (accepted, stored ∷ []))
    × (handle decode (ask "POST" "/webhook/x" empty) (stored ∷ [])
        ≡ (rejected invalid_json, stored ∷ []))
    × (handle decode (ask "POST" "/reset" empty) (stored ∷ []) ≡ (reset, []))
    × (handle decode (ask "PUT" "/reset" empty) (stored ∷ []) ≡ (not_found, stored ∷ []))
unfolding server_code
answers = (refl, refl, refl, refl)

validate_adaptive_card_iff_example : (validate_adaptive_card card ≡ valid) ↔ IsCard card
validate_adaptive_card_iff_example = validate_adaptive_card_iff card

card-IsCard : IsCard card
card-IsCard = validate_adaptive_card_iff_example.0 verdicts.0

handle-webhook_example :
    (handle decode post [] ≡ (accepted, stored ∷ []))
    × ((handle decode query (handle decode post []).1).0 ≡ entries (stored ∷ []))
unfolding server_code
handle-webhook_example =
    handle-webhook decode post query "TMS_NP" [] refl refl card-IsCard refl refl

-- A message whose first attachment is `null`.
null_throws : validate_adaptive_card (message_with null) ≡ throws
unfolding validate_adaptive_card validate_attachment
null_throws = refl
