-- ===== src/Fixtures.antt =====
-- Test data that the tests of several modules share: a runtime that can write the epoch only, and
-- objects of the board that the code under test passes around.
use noapp.Prelude.{
  ℕ, List, ◌==◌, Option, [], ◌∷◌, ◌≡◌, refl, none, some, pos, eq_ℤ, eq_ℤ_iff, str_eq, if◌then◌else◌,
  Bool-cases, inl, inr, arith, false,
}
use noapp.Json.{Json, null, Payload, json, str, int, arr, obj, nil, cons, field, end}
use noapp.Auth.{Verifier}
use noapp.Auth.Keys.{no_response}
use noapp.Auth.Verify
use noapp.Runtime.{Runtime, KeepsTimes}
use noapp.Database.{OutboxRow, TaskRow, Database, done}
use noapp.Outbox.{Config, Metrics, Relay}
use noapp.Outbox.Claim.{ClaimCalls}
use noapp.Outbox.Publish
use noapp.Outbox.Run.{Round}
use noapp.App.{Calls}
use noapp.Events.{Task, Envelope, TraceContext, encode_event, task_created}
use noapp.Events.Insert.{new_row}

abbrev pub epoch_runtime : Runtime
epoch_runtime = record {
  format_time = λ t. if eq_ℤ t (pos 0) then some "0" else none;
  parse_time = λ s. if str_eq s "0" then some (pos 0) else none;
  error_text = λ e. "failed";
  jsonb = λ j. j;
}

pub epoch_runtime-KeepsTimes : KeepsTimes epoch_runtime
epoch_runtime-KeepsTimes t s h = elim (Bool-cases (eq_ℤ t (pos 0))) [
  | inl e ↦
      let own : t ≡ pos 0 = (eq_ℤ_iff t (pos 0)).0 e in
      let text : "0" ≡ s = ground arith in rw (own, ← text) refl
  | inr e ↦ absurd (ground arith)
]

abbrev pub sample_task : Task
sample_task = record {
  id = pos 7;
  project_id = pos 3;
  assignee_id = some (pos 2);
  assignee_name = "Ada";
  title = "Ship it";
  description = "";
  status = "todo";
  version = pos 1;
  created_at = pos 0;
  updated_at = pos 0;
}

abbrev pub no_trace : TraceContext
no_trace = record { trace_parent = ""; trace_state = "" }

abbrev pub sample_event : Envelope
sample_event = record {
  event_id = "e-1";
  event_type = task_created;
  schema_version = pos 1;
  project_id = pos 3;
  task_id = pos 7;
  task_version = pos 1;
  occurred_at = pos 0;
  actor_subject = "ada";
  trace_parent = "";
  trace_state = "";
  task = sample_task;
}

abbrev pub sample_json : Json
sample_json = elim (encode_event epoch_runtime sample_event) [ none ↦ null | some j ↦ j ]

abbrev pub sample_payload : Payload
sample_payload = json sample_json

abbrev pub sample_row : OutboxRow
sample_row = new_row 1 (pos 0) sample_event sample_payload

abbrev pub seeded : TaskRow
seeded = record {
  id = pos 1;
  project_id = pos 1;
  assignee_id = some (pos 1);
  title = "Build the sample application";
  description = "";
  status = "in_progress";
  version = pos 1;
  created_at = pos 0;
  updated_at = pos 0;
}

abbrev pub board : Database
board = record {
  users = record { id = pos 1; name = "Ada"; email = "ada@example.test"; created_at = pos 0 } ∷ [];
  projects = record { id = pos 1; name = "Lab"; description = ""; created_at = pos 0 } ∷ [];
  tasks = seeded ∷ [];
  outbox = [];
  next_user = 2;
  next_project = 2;
  next_task = 2;
  next_sequence = 1;
}

abbrev pub calls : Calls
calls = record {
  now = pos 0;
  wall = pos 0;
  uuid = "e-1";
  trace = no_trace;
  json_error = λ p. "unexpected end";
  to_lower = λ s. s;
  begin = none;
  query = none;
  scan = none;
  rest = none;
  insert = none;
  commit = done;
}

-- A token h.c.s, signed with the key k, which the verifier holds.
abbrev pub header_json : Json
header_json = obj (field "alg" (str "RS256") (field "kid" (str "k") end))

abbrev pub audience_json : Json
audience_json = arr (cons (str "web") (cons (str "api") nil))

abbrev pub claims_json : Json
claims_json = obj (
    field "iss" (str "issuer") (
      field "sub" (str "ada") (
        field "aud" audience_json (
          field "exp" (int (pos 100)) (
            field "preferred_username" (str "ada") (
              field "realm_access"
                (obj (
                  field "roles" (arr (cons (str "noapp-editor") (cons (str "noapp-viewer") nil)))
                    end))
                end))))))

abbrev pub value_of : List ℕ → Option Json
value_of [] = none
value_of (b ∷ bs) = if b == 1 then some header_json else if b == 2 then some claims_json else none

abbrev pub token_calls : Verify.Calls
token_calls = record {
  decode_base64 = λ s.
      if str_eq s "h"
      then some (1 ∷ [])
      else if str_eq s "c"
      then some (2 ∷ [])
      else if str_eq s "s"
      then some (3 ∷ [])
      else none;
  unmarshal = value_of;
  signed_by = λ k text signature. str_eq text "h.c";
  answer = no_response "offline";
  now = pos 5;
  fetched_at = pos 6;
  seconds = pos 10;
}

abbrev pub verifier : Verifier
verifier = record {
  config = record { issuer = "issuer"; jwks_url = "https://keys"; audience = "api" };
  keys = ("k", record { modulus = 15; exponent = pos 3 }) ∷ [];
  fetched = pos 0;
}

-- A relay, and the answers of a round in which every call succeeds.
abbrev pub settings : Config
settings = record {
  worker_id = "a";
  batch_size = pos 10;
  poll_every = pos 250000000;
  claim_for = pos 30000000000;
  max_backoff = pos 60000000000;
  max_attempts = pos 20;
}

abbrev pub claim_calls : ClaimCalls
claim_calls = record {
  now = pos 5;
  locked = λ n. false;
  begin = none;
  query = none;
  scan = none;
  read = none;
  commit = done;
  returning = λ xs. xs;
}

abbrev pub attempt_calls : Publish.Calls
attempt_calls = record {
  publish = λ m. done;
  update = done;
  injected = [];
  now = pos 6;
  clock = pos 6;
}

abbrev pub no_counts : Metrics
no_counts = record { published = 0; failed = 0; dead = 0 }

abbrev pub round : Round
round = record { claim = claim_calls; attempts = λ n. attempt_calls; count = none }

abbrev pub relay : Relay
relay = record { config = settings; backlog = 0 }
