-- ===== src/Realtime/Guarded.antt =====
-- internal/realtime/hub.go with internal/auth/verifier.go: the hub with its verifier behind it. A
-- message that authenticates calls the verifier once, which keeps its keys for the next one.
use noapp.Prelude.{
  List, [], ◌∷◌, ℕ, ◌≡◌, ◌≢◌, String, Option, none, some, All, In, str_eq, if◌then◌else◌,
}
use Prim.Native.String
use noapp.Json.{Payload}
use noapp.Runtime.{Runtime}
use noapp.Auth.{Principal, Verifier}
use noapp.Auth.Verify
use noapp.Auth.Verify.{verify}
use noapp.Auth.Sound.{verified}
use noapp.Events.{Envelope}
use noapp.Realtime.{Client, opening, serving, Hub, update, accept, broadcast}
use noapp.Realtime.Serve.{ClientMessage, serve_first, serve_message, Wake, write_step}
use noapp.Realtime.Safety.{new_hub}

abbrev pub bearer : String → String
bearer token = String.◌++◌ "Bearer " token

-- What `authenticate` gives the hub for a token.
abbrev pub hub_verify : Verify.Calls → Verifier → String → Option Principal
hub_verify calls v token = verified calls v (bearer token)

-- The verifier after a message.
unfoldable pub verifier_after : Verify.Calls → Option ClientMessage → Verifier → Verifier
verifier_after calls none v = v
verifier_after calls (some m) v =
    if str_eq m.type "authenticate" then (verify calls (bearer m.access_token) v).0 else v

-- A call of `Verify` that the handler of a connection has made: the connection's number, the token,
-- what the call met, and the verifier as it was.
pub record Attempt : Type 0 where
  pub id : ℕ
  pub token : String
  pub calls : Verify.Calls
  pub verifier : Verifier

-- The calls of `Verify`, the latest first, after a message of a connection.
unfoldable pub attempts_after :
    Verify.Calls → ℕ → Option ClientMessage → Verifier → List Attempt → List Attempt
attempts_after calls id none v attempts = attempts
attempts_after calls id (some m) v attempts =
    if str_eq m.type "authenticate"
    then record { id = id; token = m.access_token; calls = calls; verifier = v } ∷ attempts
    else attempts

-- A hub and the verifier that it holds. The calls of `Verify` so far are for the statements only: the
-- hub does not keep them.
pub record Guarded : Type 0 where
  pub hub : Hub
  pub verifier : Verifier
  pub attempts : List Attempt

-- The steps of the process, as Realtime/Safety has them, with the verifier in place of any answer to
-- a token.
pub data GuardedStep (rt : Runtime) (s : Guarded) : Guarded → Type 0 where
  accepts :
      (id : ℕ)
      → All (λ c. c.id ≢ id) s.hub.clients
      → GuardedStep rt s (record s { hub = accept id s.hub })
  opens :
      (calls : Verify.Calls) (message : Option ClientMessage) (c : Client)
      → In c s.hub.clients
      → c.phase ≡ opening
      → GuardedStep rt s (record {
        hub = (serve_first rt c.id (hub_verify calls s.verifier) message s.hub).0;
        verifier = verifier_after calls message s.verifier;
        attempts = attempts_after calls c.id message s.verifier s.attempts;
      })
  serves :
      (calls : Verify.Calls) (message : Option ClientMessage) (c : Client)
      → In c s.hub.clients
      → c.phase ≡ serving
      → GuardedStep rt s (record {
        hub = (serve_message rt c.id (hub_verify calls s.verifier) message s.hub).0;
        verifier = verifier_after calls message s.verifier;
        attempts = attempts_after calls c.id message s.verifier s.attempts;
      })
  broadcasts :
      (e : Envelope) (payload : Payload)
      → GuardedStep rt s (record s { hub = broadcast e payload s.hub })
  writes :
      (id : ℕ) (wake : Wake)
      → GuardedStep rt s (record s { hub = update id (write_step wake) s.hub })

pub data GuardedReach (rt : Runtime) (s : Guarded) : Guarded → Type 0 where
  here : GuardedReach rt s s
  next : {s' s'' : Guarded} → GuardedReach rt s s' → GuardedStep rt s' s'' → GuardedReach rt s s''

abbrev pub start : Verifier → Guarded
start v = record { hub = new_hub; verifier = v; attempts = [] }
