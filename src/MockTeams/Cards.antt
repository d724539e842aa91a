-- ===== src/MockTeams/Cards.antt =====
-- mock-teams/server.js: which bodies count as cards, and what is kept.
use release_radar.Prelude.{
  Bool, true, false, not, ◌≡◌, ◌↔◌, refl, String, Option, none, some, arith, if◌then◌else◌, eq_iff,
  eq_refl,
}
use release_radar.Prelude.Json.{
  Json, null, bool, num, str, arr, obj, Items, nil, cons, find_field, property, is_falsy,
}
use release_radar.MockTeams.{
  Verdict, valid, problem, wrong_content_type, wrong_content, empty_body, validate_attachment,
  validate_adaptive_card, items, is_marked_invalid, is_text, is_filled, is_card_content,
  first_verdict, invalid_json, wrong_type,
}

-- An Adaptive Card in an attachment.
pub record IsAttachment (att : Json) : Type 0 where
  pub content : Json
  pub body : Items
  pub first : Json
  pub content_type :
      property "contentType" att ≡ some (str "application/vnd.microsoft.card.adaptive")
  pub has_content : property "content" att ≡ some content
  pub card : property "type" content ≡ some (str "AdaptiveCard")
  pub filled : property "body" content ≡ some (arr (cons first body))

-- A message whose first attachment is a card, and which is not marked as unparsable.
pub record IsCard (body : Json) : Type 0 where
  pub att : Json
  pub others : Items
  pub message : property "type" body ≡ some (str "message")
  pub attachments : property "attachments" body ≡ some (arr (cons att others))
  pub unmarked : property "__invalid" body ≡ none
  pub attachment : IsAttachment att

is_text_path : (s : String) (o : Option Json) → is_text s o ≡ true → o ≡ some (str s)
is_text_path s (some (str t)) h = ground (arith, eq_iff t s)
is_text_path s (some null) h = cc
is_text_path s (some (bool b)) h = cc
is_text_path s (some (num n)) h = cc
is_text_path s (some (arr xs)) h = cc
is_text_path s (some (obj fs)) h = cc
is_text_path s none h = cc

is_filled_path :
    (o : Option Json)
    → is_filled o ≡ true
    → (x : Json) × (xs : Items) × (o ≡ some (arr (cons x xs)))
is_filled_path (some (arr (cons x xs))) h = (x, xs, refl)
is_filled_path (some (arr nil)) h = cc
is_filled_path (some null) h = cc
is_filled_path (some (str t)) h = cc
is_filled_path (some (bool b)) h = cc
is_filled_path (some (num n)) h = cc
is_filled_path (some (obj fs)) h = cc
is_filled_path none h = cc

is_card_content_path :
    (o : Option Json)
    → is_card_content o ≡ true
    → (v : Json) × (o ≡ some v) × (property "type" v ≡ some (str "AdaptiveCard"))
is_card_content_path none h = cc
is_card_content_path (some v) h =
    (v, refl, is_text_path "AdaptiveCard" (property "type" v) (ground arith))

-- The three tests of an attachment, passed.
passed :
    (a b c : Bool)
    → (if not a
        then problem wrong_content_type
        else if not b
        then problem wrong_content
        else if c
        then valid
        else problem empty_body)
      ≡ valid
    → (a ≡ true) × (b ≡ true) × (c ≡ true)
passed a b c h = ground arith

validate_attachment_sound : (att : Json) → validate_attachment att ≡ valid → IsAttachment att
unfolding validate_attachment
validate_attachment_sound (obj fs) h =
    let (a, b, c) = passed _ _ _ h in
    let (v, has, card) = is_card_content_path (find_field "content" fs) b in
    let (x, xs, filled) = is_filled_path (property "body" v) (rw has at c) in
    record {
      content = v;
      body = xs;
      first = x;
      content_type = is_text_path _ _ a;
      has_content = has;
      card = card;
      filled = filled;
    }
validate_attachment_sound null h = cc
validate_attachment_sound (bool b) h = cc
validate_attachment_sound (num n) h = cc
validate_attachment_sound (str t) h = cc
validate_attachment_sound (arr xs) h = cc

pub is_text_self : (s : String) (o : Option Json) → o ≡ some (str s) → is_text s o ≡ true
is_text_self s o e = rw e (eq_refl s)

pub not_falsy : (k : String) (v x : Json) → property k v ≡ some x → is_falsy v ≡ false
not_falsy k (obj fs) x e = refl
not_falsy k null x e = cc
not_falsy k (bool b) x e = cc
not_falsy k (num n) x e = cc
not_falsy k (str t) x e = cc
not_falsy k (arr xs) x e = cc

validate_attachment_complete : (att : Json) → IsAttachment att → validate_attachment att ≡ valid
unfolding validate_attachment
validate_attachment_complete (obj fs) c = rw (
  is_text_self _ _ c.content_type,
  c.has_content,
  not_falsy "type" c.content _ c.card,
  is_text_self _ _ c.card,
  c.filled,
)
validate_attachment_complete null c = cc (c.content_type)
validate_attachment_complete (bool b) c = cc (c.content_type)
validate_attachment_complete (num n) c = cc (c.content_type)
validate_attachment_complete (str t) c = cc (c.content_type)
validate_attachment_complete (arr xs) c = cc (c.content_type)

-- The two tests of the whole body, and the verdict of the attachment, passed.
body_passed :
    (a b : Bool) (v : Verdict)
    → (if a then problem invalid_json else if not b then problem wrong_type else v) ≡ valid
    → (a ≡ false) × (b ≡ true) × (v ≡ valid)
body_passed a b v h = ground arith

first_verdict_sound :
    (o : Option Json)
    → first_verdict (items o) ≡ valid
    → (att : Json) × (rest : Items) × (o ≡ some (arr (cons att rest))) × IsAttachment att
first_verdict_sound (some (arr (cons att rest))) h =
    (att, rest, refl, validate_attachment_sound att h)
first_verdict_sound (some (arr nil)) h = cc
first_verdict_sound (some null) h = cc
first_verdict_sound (some (bool b)) h = cc
first_verdict_sound (some (num n)) h = cc
first_verdict_sound (some (str t)) h = cc
first_verdict_sound (some (obj fs)) h = cc
first_verdict_sound none h = cc

pub unmarked_path : (v : Json) → (is_marked_invalid v ≡ false) ↔ (property "__invalid" v ≡ none)
unmarked_path v = ground arith

validate_adaptive_card_sound : (body : Json) → validate_adaptive_card body ≡ valid → IsCard body
unfolding validate_adaptive_card
validate_adaptive_card_sound body h =
    let (fine, message, rest) = body_passed _ _ _ h in
    let (att, others, attached, card) = first_verdict_sound (property "attachments" body) rest in
    record {
      att = att;
      others = others;
      message = is_text_path _ _ message;
      attachments = attached;
      unmarked = (unmarked_path body).0 (ground arith);
      attachment = card;
    }

validate_adaptive_card_complete : (body : Json) → IsCard body → validate_adaptive_card body ≡ valid
unfolding validate_adaptive_card
validate_adaptive_card_complete body c =
    rw
      (
        not_falsy "type" body _ c.message,
        (unmarked_path body).1 c.unmarked,
        is_text_self _ _ c.message,
        c.attachments,
      )
      (validate_attachment_complete c.att c.attachment)

-- The validation accepts exactly the messages whose first attachment is an Adaptive Card with a
-- filled body, and which are not marked as unparsable.
pub validate_adaptive_card_iff : (body : Json) → (validate_adaptive_card body ≡ valid) ↔ IsCard body
validate_adaptive_card_iff body =
    (validate_adaptive_card_sound body, validate_adaptive_card_complete body)
