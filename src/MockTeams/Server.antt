-- ===== src/MockTeams/Server.antt =====
-- mock-teams/server.js: what the server keeps, and what it answers.
use text.Mathlib.Text.{◌==◌ as str_eq}
use release_radar.Prelude.{
  ◌≡◌, ◌≢◌, refl, String, Option, none, some, List, ◌∷◌, All, filter, eq_refl,
}
use release_radar.Prelude.Json.{Json}
use release_radar.MockTeams.{
  Verdict, valid, problem, throws, validate_adaptive_card, Entry, Request, read_body, Route, route,
  answer, get_health, get_all, get_channel, post_reset, post_hook, unknown, accepted, reset,
  entries, handle, deliver, hook, tail_of,
}
use release_radar.MockTeams.Cards.{IsCard, validate_adaptive_card_iff}

abbrev pub AreCards : List Entry → Type 0
AreCards l = All (λ e. IsCard e.body) l

deliver-AreCards :
    (r : Request) (name : String) (body : Json) (l : List Entry) (v : Verdict)
    → (v ≡ valid → IsCard body)
    → AreCards l
    → AreCards (deliver r name body l v).1
deliver-AreCards r name body l valid card h = (card refl, h)
deliver-AreCards r name body l (problem p) card h = h
deliver-AreCards r name body l throws card h = h

deliver-kept :
    (r : Request) (name : String) (body : Json) (l : List Entry) (v : Verdict)
    → (deliver r name body l v).0 ≢ accepted
    → (deliver r name body l v).1 ≡ l
deliver-kept r name body l valid n = absurd (n refl)
deliver-kept r name body l (problem p) n = refl
deliver-kept r name body l throws n = refl

module _ (decode : String → Option String) where
  hook-AreCards :
      (r : Request) (o : Option String) (l : List Entry)
      → AreCards l
      → AreCards (hook decode r o l).1
  hook-AreCards r none l h = h
  hook-AreCards r (some name) l h =
      deliver-AreCards r name (read_body r.body) l _
        (validate_adaptive_card_iff (read_body r.body)).0 h

  answer-AreCards :
      (t : Route) (r : Request) (l : List Entry) → AreCards l → AreCards (answer decode t r l).1
  answer-AreCards get_health r l h = h
  answer-AreCards get_all r l h = h
  answer-AreCards get_channel r l h = h
  answer-AreCards post_reset r l h = tt
  answer-AreCards post_hook r l h = hook-AreCards r (decode (tail_of "/webhook/" r)) l h
  answer-AreCards unknown r l h = h

  -- Whatever is asked of it, a server that keeps cards only goes on to keep cards only.
  pub handle-AreCards : (r : Request) (l : List Entry) → AreCards l → AreCards (handle decode r l).1
  unfolding handle
  handle-AreCards r l h = answer-AreCards (route r) r l h

  hook-kept :
      (r : Request) (o : Option String) (l : List Entry)
      → (hook decode r o l).0 ≢ accepted
      → (hook decode r o l).1 ≡ l
  hook-kept r none l n = refl
  hook-kept r (some name) l n =
      deliver-kept r name (read_body r.body) l (validate_adaptive_card (read_body r.body)) n

  answer-kept :
      (t : Route) (r : Request) (l : List Entry)
      → (answer decode t r l).0 ≢ accepted
      → (answer decode t r l).0 ≢ reset
      → (answer decode t r l).1 ≡ l
  answer-kept get_health r l n m = refl
  answer-kept get_all r l n m = refl
  answer-kept get_channel r l n m = refl
  answer-kept post_reset r l n m = absurd (m refl)
  answer-kept post_hook r l n m = hook-kept r (decode (tail_of "/webhook/" r)) l n
  answer-kept unknown r l n m = refl

  -- After any answer but that of a stored card and that of a reset, after a rejection or a failure
  -- for instance, the server keeps what it had.
  pub handle-kept :
      (r : Request) (l : List Entry)
      → (handle decode r l).0 ≢ accepted
      → (handle decode r l).0 ≢ reset
      → (handle decode r l).1 ≡ l
  unfolding handle
  handle-kept r l n m = answer-kept (route r) r l n m

  hook-accepts :
      (r : Request) (name : String) (l : List Entry)
      → IsCard (read_body r.body)
      → hook decode r (some name) l
        ≡ (accepted, record { name = name; at = r.now; body = read_body r.body } ∷ l)
  hook-accepts r name l card = rw ((validate_adaptive_card_iff (read_body r.body)).1 card)

  -- A card posted to the hook of a channel is stored under the channel's name, on top, and
  -- accepted; asked for the channel at once, the server lists it first.
  pub handle-webhook :
      (r q : Request) (name : String) (l : List Entry)
      → route r ≡ post_hook
      → decode (tail_of "/webhook/" r) ≡ some name
      → IsCard (read_body r.body)
      → route q ≡ get_channel
      → decode (tail_of "/received/" q) ≡ some name
      → let stored : Entry = record { name = name; at = r.now; body = read_body r.body } in
        (handle decode r l ≡ (accepted, stored ∷ l))
        × ((handle decode q (handle decode r l).1).0
            ≡ entries (stored ∷ filter (λ e. str_eq e.name name) l))
  unfolding handle
  handle-webhook r q name l post known card get channel =
      let first = hook-accepts r name l card in
      (rw (post, known) first, rw (post, known, first, get, channel, eq_refl name))
