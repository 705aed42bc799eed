-- ===== src/Realtime/Serve.antt =====
-- internal/realtime/hub.go: ServeHTTP, message by message, and `writeLoop`, round by round.
use noapp.Prelude.{
  ℕ, ◌*◌, ◌-◌, suc, String, Bool, true, false, ◌&&◌, Option, none, some, List, [], ◌∷◌, ℤ, pos,
  negsuc, ltb_ℤ, leb_ℤ, str_eq, ◌==◌, if◌then◌else◌,
}
use noapp.Json.{Json, str, int, obj, end, field, Payload}
use noapp.Runtime.{Runtime}
use noapp.Auth.{Principal}
use noapp.Realtime.{
  Client, Hub, no_principal, update, cancel, authenticate, add, remove, subscribe, unsubscribe,
  send_json,
}

pub record ClientMessage : Type 0 where
  pub type : String
  pub access_token : String
  pub project_id : ℤ

-- Whether the handler goes on, and the reason that it gives to the peer if not.
pub data Served : Type 0 where
  goes_on : Served
  read_ended : Served
  violation : String → Served

abbrev pub to_nanoseconds : ℤ → ℤ
to_nanoseconds (pos n) = pos (n * 1000000000)
to_nanoseconds (negsuc n) = negsuc (suc n * 1000000000 - 1)

-- c.principal
abbrev pub principal_of : ℕ → List Client → Principal
principal_of id [] = no_principal
principal_of id (c ∷ cs) = if c.id == id then c.principal else principal_of id cs

unfoldable pub error_json : String → Json
error_json text = obj (field "error" (str text) (field "type" (str "error") end))

unfoldable pub subscribed_json : ℤ → Json
subscribed_json project =
    obj (field "project_id" (int project) (field "type" (str "subscribed") end))

-- The deferred calls.
unfoldable pub close : ℕ → Hub → Hub
close id h = remove id (update id cancel h)

module _ (rt : Runtime) where
  -- A time that has no text form keeps the message from being sent.
  unfoldable pub send_until : ℕ → (Json → Json) → Principal → Hub → Hub
  send_until id message p h = elim (rt.format_time (to_nanoseconds p.expires_at)) [
    | none ↦ h
    | some until ↦ send_json id (message (str until)) h
  ]

  unfoldable pub send_ready : ℕ → Hub → Hub
  send_ready id h =
      let p = principal_of id h.clients in
      send_until id
        (λ until. obj (
          field "authenticated_until" until
            (field "subject" (str p.subject) (field "type" (str "ready") end))))
        p h

  unfoldable pub send_authenticated : ℕ → Hub → Hub
  send_authenticated id h =
      send_until id
        (λ until. obj (field "authenticated_until" until (field "type" (str "authenticated") end)))
        (principal_of id h.clients) h

  unfoldable pub admit : ℕ → Hub × Bool → Hub × Served
  admit id (h, true) = (send_ready id (add id h), goes_on)
  admit id (h, false) = (close id h, violation "authentication required")

  -- The first message, `none` if there is none in time or it does not read. `verify` is what the
  -- verifier answers to a token.
  unfoldable pub serve_first :
      ℕ → (String → Option Principal) → Option ClientMessage → Hub → Hub × Served
  serve_first id verify none h = (close id h, violation "authentication required")
  serve_first id verify (some m) h =
      if str_eq m.type "authenticate"
      then admit id (authenticate id (verify m.access_token) h)
      else (close id h, violation "authentication required")

  unfoldable pub renew : ℕ → Hub × Bool → Hub × Served
  renew id (h, true) = (send_authenticated id h, goes_on)
  renew id (h, false) = (close id h, violation "authentication failed")

  unfoldable pub subscribe_to : ℕ → ℤ → Hub → Hub
  subscribe_to id project h =
      if ltb_ℤ project (pos 1)
      then send_json id (error_json "a valid project_id is required") h
      else send_json id (subscribed_json project) (subscribe id project h)

  -- One round of the loop.
  unfoldable pub serve_message :
      ℕ → (String → Option Principal) → Option ClientMessage → Hub → Hub × Served
  serve_message id verify none h = (close id h, read_ended)
  serve_message id verify (some m) h =
      if str_eq m.type "authenticate"
      then renew id (authenticate id (verify m.access_token) h)
      else if str_eq m.type "subscribe"
      then (subscribe_to id m.project_id h, goes_on)
      else if str_eq m.type "unsubscribe"
      then (unsubscribe id m.project_id h, goes_on)
      else (send_json id (error_json "unsupported message type") h, goes_on)

-- What the select of `writeLoop` picks: the end of the context, a queued payload with the error of
-- its write, or the ticker with the time in seconds and the error of the ping.
pub data Wake : Type 0 where
  stop : Wake
  write : Option String → Wake
  tick : ℤ → Option String → Wake

abbrev stop_writing : Client → Client
stop_writing c = record c { writing = false }

abbrev give_up : Client → Client
give_up c = stop_writing (cancel c)

abbrev pub is_expired : ℤ → Client → Bool
is_expired now c = ltb_ℤ (pos 0) c.expires_at && leb_ℤ c.expires_at now

abbrev pub rest_of : List Payload → List Payload
rest_of [] = []
rest_of (p ∷ ps) = ps

unfoldable pub write_round : Wake → Client → Client
write_round stop c = stop_writing c
write_round (write none) c = record c { send = rest_of c.send }
write_round (write (some text)) c = give_up (record c { send = rest_of c.send })
write_round (tick now ping) c =
    if is_expired now c then give_up c else elim ping [ some text ↦ give_up c | none ↦ c ]

-- One round; none after the loop has returned.
unfoldable pub write_step : Wake → Client → Client
write_step wake c = if c.writing then write_round wake c else c
