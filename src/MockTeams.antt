-- ===== src/MockTeams.antt =====
-- mock-teams/server.js: the receiver of Teams webhooks that the end-to-end tests talk to.
pub mod Cards
pub mod Server
mod Tests
use Prim.Native.String.{slice, len}
use text.Mathlib.Text.{◌==◌ as str_eq, starts_with}
use release_radar.Prelude.{
  ℕ, suc, Bool, true, false, not, ◌&&◌, ◌||◌, String, Option, none, some, List, [], ◌∷◌, length,
  filter, if◌then◌else◌,
}
use release_radar.Prelude.Json.{
  Json, null, bool, num, str, arr, obj, Items, nil, cons, field, end, property, is_falsy,
}

-- What is wrong with a card. The source writes these as texts.
pub data Problem : Type 0 where
  invalid_json : Problem
  wrong_type : Problem
  no_attachments : Problem
  wrong_content_type : Problem
  wrong_content : Problem
  empty_body : Problem

-- The validation can also throw, at a property of `null`.
pub data Verdict : Type 0 where
  valid : Verdict
  problem : Problem → Verdict
  throws : Verdict

abbrev pub is_text : String → Option Json → Bool
is_text s (some (str t)) = str_eq t s
is_text s _ = false

-- `!Array.isArray(v) || v.length === 0`, turned round: the items of an array that has any.
abbrev pub items : Option Json → Items
items (some (arr xs)) = xs
items _ = nil

abbrev pub is_filled : Option Json → Bool
is_filled (some (arr (cons x xs))) = true
is_filled _ = false

-- `!content || content.type !== 'AdaptiveCard'`
abbrev pub is_card_content : Option Json → Bool
is_card_content none = false
is_card_content (some v) = not (is_falsy v) && is_text "AdaptiveCard" (property "type" v)

abbrev pub body_of : Option Json → Option Json
body_of none = none
body_of (some v) = property "body" v

-- The checks of the first attachment.
unfoldable pub validate_attachment : Json → Verdict
validate_attachment null = throws
validate_attachment att =
    if not (is_text "application/vnd.microsoft.card.adaptive" (property "contentType" att))
    then problem wrong_content_type
    else if not (is_card_content (property "content" att))
    then problem wrong_content
    else if is_filled (body_of (property "content" att))
    then valid
    else problem empty_body

abbrev pub first_verdict : Items → Verdict
first_verdict nil = problem no_attachments
first_verdict (cons att rest) = validate_attachment att

abbrev pub is_marked_invalid : Json → Bool
is_marked_invalid v = elim (property "__invalid" v) [ none ↦ false | some x ↦ true ]

unfoldable pub validate_adaptive_card : Json → Verdict
validate_adaptive_card body =
    if is_falsy body || is_marked_invalid body
    then problem invalid_json
    else if not (is_text "message" (property "type" body))
    then problem wrong_type
    else first_verdict (items (property "attachments" body))

pub record Entry : Type 0 where
  pub name : String
  pub at : String
  pub body : Json

-- `readBody`: nothing, JSON, or text that is no JSON, which becomes an object with `__invalid`.
pub data RawBody : Type 0 where
  empty : RawBody
  parsed : Json → RawBody
  unparsable : String → RawBody

unfoldable pub read_body : RawBody → Json
read_body empty = null
read_body (parsed v) = v
read_body (unparsable raw) = obj (field "__invalid" (str raw) end)

pub record Request : Type 0 where
  pub method : String
  pub pathname : String
  pub body : RawBody
  pub now : String

-- The responses; `failed` is a handler that throws, whose promise nobody catches.
pub data Response : Type 0 where
  health : ℕ → Response
  entries : List Entry → Response
  reset : Response
  accepted : Response
  rejected : Problem → Response
  not_found : Response
  failed : Response

abbrev pub status : Response → Option ℕ
status (rejected p) = some 400
status not_found = some 404
status failed = none
status _ = some 200

abbrev pub is_post : Request → String → Bool
is_post r path = str_eq r.method "POST" && str_eq r.pathname path

abbrev pub is_get : Request → String → Bool
is_get r path = str_eq r.method "GET" && str_eq r.pathname path

abbrev pub under : String → Request → String → Bool
under method r prefix = str_eq r.method method && starts_with r.pathname prefix

abbrev pub tail_of : String → Request → String
tail_of prefix r = slice r.pathname (len prefix) (len r.pathname)

abbrev pub deliver : Request → String → Json → List Entry → Verdict → Response × List Entry
deliver r name body received valid =
    (accepted, record { name = name; at = r.now; body = body } ∷ received)
deliver r name body received (problem p) = (rejected p, received)
deliver r name body received throws = (failed, received)

-- The tests of the handler, in their order.
pub data Route : Type 0 where
  get_health get_all get_channel post_reset post_hook unknown : Route

unfoldable pub route : Request → Route
route r =
    if is_get r "/healthz"
    then get_health
    else if is_get r "/received"
    then get_all
    else if under "GET" r "/received/"
    then get_channel
    else if is_post r "/reset"
    then post_reset
    else if under "POST" r "/webhook/"
    then post_hook
    else unknown

-- `decodeURIComponent`, which throws on a text that encodes nothing.
module _ (decode : String → Option String) where
  abbrev pub of_name : Option String → List Entry → Response
  of_name none received = failed
  of_name (some name) received = entries (filter (λ e. str_eq e.name name) received)

  abbrev pub hook : Request → Option String → List Entry → Response × List Entry
  hook r none received = (failed, received)
  hook r (some name) received =
      let body = read_body r.body in deliver r name body received (validate_adaptive_card body)

  abbrev pub answer : Route → Request → List Entry → Response × List Entry
  answer get_health r received = (health (length received), received)
  answer get_all r received = (entries received, received)
  answer get_channel r received = (of_name (decode (tail_of "/received/" r)) received, received)
  answer post_reset r received = (reset, [])
  answer post_hook r received = hook r (decode (tail_of "/webhook/" r)) received
  answer unknown r received = (not_found, received)

  -- The handler of the server, over the payloads received so far, newest first.
  unfoldable pub handle : Request → List Entry → Response × List Entry
  handle r received = answer (route r) r received
