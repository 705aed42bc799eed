-- ===== src/Simulator/Server.antt =====
-- internal/simulator/server.go: the control server of the simulator. A body of more than 1024 bytes is
-- one that is malformed. The file server of the embedded page is an argument; it also gets the paths
-- below /api/ that no handler takes.
pub mod Replies
pub mod Tests
use Prim.Native.String.{◌++◌ as text_append}
use noapp.Prelude.{
  ℕ, ◌≤◌, String, Bool, true, false, ◌&&◌, ◌||◌, Option, none, some, List, ℤ, length, leb, str_eq,
  if◌then◌else◌, ◌≡◌, refl, ◌⊎◌, inl, inr, Bool-cases, Option-cases, arith,
}
use noapp.Json.{Json, null, obj, Fields, end, field, Payload, json, malformed, key_is}
use noapp.Simulator.{Engine, new_engine, start, stop, set_speed}
use noapp.Simulator.Status.{Status, status_of}

-- A map with one text, a snapshot, or what the file server writes.
pub data Body (F : Type 0) : Type 0 where
  note : String → String → Body F
  snapshot : Status F → Body F
  file : String → Body F

pub record ControlReply (F : Type 0) : Type 0 where
  pub status : ℕ
  pub body : Body F

-- What a request meets: the floats with their constants, tests and decoding, the error of the
-- client's health call, the session and the time of a start, and the file server.
pub record Control (F : Type 0) : Type 0 where
  pub base : F
  pub zero : F
  pub times : F → F → F
  pub low : F → Bool
  pub high : F → Bool
  pub as_float : Json → F → Option F
  pub health : Option String
  pub session : String
  pub now : ℤ
  pub static : String → String → ℕ × String

module _ {F : Type 0} (k : Control F) where
  set_speed_fields : Fields → F → Option F
  set_speed_fields end f = some f
  set_speed_fields (field name v fs) f =
      if key_is "multiplier" name
      then elim (k.as_float v f) [ none ↦ none | some g ↦ set_speed_fields fs g ]
      else none

  unfoldable pub speed_input : Payload → Option F
  unfolding set_speed_fields
  speed_input (malformed text) = none
  speed_input (json null) = some k.zero
  speed_input (json (obj fs)) = set_speed_fields fs k.zero
  speed_input (json _) = none

  abbrev pub snapshot_reply : ℕ → Engine F → ControlReply F
  snapshot_reply status e = record { status = status; body = snapshot (status_of k.base k.times e) }

  abbrev pub error_reply : ℕ → String → ControlReply F
  error_reply status text = record { status = status; body = note "error" text }

  unfoldable pub start_reply : Option String → Engine F → Engine F × ControlReply F
  start_reply (some text) e = (e, error_reply 503 (text_append "target app is unavailable: " text))
  start_reply none e = (e, snapshot_reply 202 e)

  unfoldable pub serve_start : Engine F → Engine F × ControlReply F
  serve_start e = start_reply k.health (start k.health k.session k.now e).0

  unfoldable pub serve_stop : Engine F → Engine F × ControlReply F
  serve_stop e = (stop e, snapshot_reply 200 (stop e))

  unfoldable pub speed_reply : Engine F × Bool → Engine F × ControlReply F
  speed_reply (e, true) = (e, snapshot_reply 200 e)
  speed_reply (e, false) = (e, error_reply 400 "speed must be between 0.25 and 10")

  unfoldable pub serve_speed : Payload → Engine F → Engine F × ControlReply F
  serve_speed body e = elim (speed_input body) [
    | none ↦ (e, error_reply 400 "invalid speed payload")
    | some speed ↦ speed_reply (set_speed k.low k.high speed e)
  ]

  -- The mux of NewHandler. A pattern for GET takes HEAD too.
  unfoldable pub serve_control : String → String → Payload → Engine F → Engine F × ControlReply F
  serve_control method path body e =
      let get = str_eq method "GET" || str_eq method "HEAD" in
      if get && str_eq path "/api/health"
      then (e, record { status = 200; body = note "status" "ok" })
      else if get && str_eq path "/api/status"
      then (e, snapshot_reply 200 e)
      else if str_eq method "POST" && str_eq path "/api/start"
      then serve_start e
      else if str_eq method "POST" && str_eq path "/api/stop"
      then serve_stop e
      else if str_eq method "PATCH" && str_eq path "/api/speed"
      then serve_speed body e
      else (e, record { status = (k.static method path).0; body = file (k.static method path).1 })
