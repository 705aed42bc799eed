-- ===== src/Events.antt =====
-- internal/events/events.go: the board event, its JSON form, and the checks of `Decode`.
pub mod RoundTrip
pub mod Insert
pub mod Tests
use mathlib.Core.Option
use noapp.Prelude.{
  String, Bool, true, false, ◌||◌, not, Option, none, some, ℤ, pos, negsuc, eq_ℤ, ltb_ℤ, str_eq,
  if◌then◌else◌,
}
use noapp.Json.{
  Json, null, int, str, obj, Fields, end, field, Payload, json, malformed, key_is, as_int64,
  as_string, as_int64_pointer,
}
use noapp.Runtime.{Error, decode_board_event, invalid_board_event, Runtime, zero_time}

abbrev pub topic : String
topic = "noapp.board-events.v1"

abbrev pub task_created : String
task_created = "task.created"

abbrev pub task_status_changed : String
task_status_changed = "task.status_changed"

abbrev pub current_schema_version : ℤ
current_schema_version = pos 1

pub record Task : Type 0 where
  pub id : ℤ
  pub project_id : ℤ
  pub assignee_id : Option ℤ
  pub assignee_name : String
  pub title : String
  pub description : String
  pub status : String
  pub version : ℤ
  pub created_at : ℤ
  pub updated_at : ℤ

pub record Envelope : Type 0 where
  pub event_id : String
  pub event_type : String
  pub schema_version : ℤ
  pub project_id : ℤ
  pub task_id : ℤ
  pub task_version : ℤ
  pub occurred_at : ℤ
  pub actor_subject : String
  pub trace_parent : String
  pub trace_state : String
  pub task : Task

-- The zero values with which a decoding begins.
abbrev pub zero_task : Task
zero_task = record {
  id = pos 0;
  project_id = pos 0;
  assignee_id = none;
  assignee_name = "";
  title = "";
  description = "";
  status = "";
  version = pos 0;
  created_at = zero_time;
  updated_at = zero_time;
}

abbrev pub zero_envelope : Envelope
zero_envelope = record {
  event_id = "";
  event_type = "";
  schema_version = pos 0;
  project_id = pos 0;
  task_id = pos 0;
  task_version = pos 0;
  occurred_at = zero_time;
  actor_subject = "";
  trace_parent = "";
  trace_state = "";
  task = zero_task;
}

-- The trace context that the propagator injects, empty texts if there is none.
pub record TraceContext : Type 0 where
  pub trace_parent : String
  pub trace_state : String

-- The identifier is `uuid.NewString()`, the time is `time.Now()`.
unfoldable pub new_task_event : String → ℤ → TraceContext → String → String → Task → Envelope
new_task_event uuid now trace event_type actor_subject task = record {
  event_id = uuid;
  event_type = event_type;
  schema_version = current_schema_version;
  project_id = task.project_id;
  task_id = task.id;
  task_version = task.version;
  occurred_at = now;
  actor_subject = actor_subject;
  trace_parent = trace.trace_parent;
  trace_state = trace.trace_state;
  task = task;
}

-- A field with the option `omitempty`.
abbrev omit_empty : String → String → Fields → Fields
omit_empty key s rest = if str_eq s "" then rest else field key (str s) rest

abbrev omit_nil : String → Option ℤ → Fields → Fields
omit_nil key none rest = rest
omit_nil key (some n) rest = field key (int n) rest

infixl 5 ◌>>=◌
abbrev ◌>>=◌ {ℓ κ} : {A : Type ℓ} {B : Type κ} → Option A → (A → Option B) → Option B
none >>= f = none
some a >>= f = f a

-- The objects that are written, given the text forms of the times.
abbrev task_fields : Task → String → String → Fields
task_fields t created updated = field "id" (int t.id) (
    field "project_id" (int t.project_id) (
      omit_nil "assignee_id" t.assignee_id (
        omit_empty "assignee_name" t.assignee_name (
          field "title" (str t.title) (
            field "description" (str t.description) (
              field "status" (str t.status) (
                field "version" (int t.version)
                  (field "created_at" (str created) (field "updated_at" (str updated) end)))))))))

abbrev event_fields : Envelope → String → Json → Fields
event_fields e occurred task = field "event_id" (str e.event_id) (
    field "event_type" (str e.event_type) (
      field "schema_version" (int e.schema_version) (
        field "project_id" (int e.project_id) (
          field "task_id" (int e.task_id) (
            field "task_version" (int e.task_version) (
              field "occurred_at" (str occurred) (
                omit_empty "actor_subject" e.actor_subject (
                  omit_empty "traceparent" e.trace_parent
                    (omit_empty "tracestate" e.trace_state (field "task" task end))))))))))

module _ (rt : Runtime) where
  -- json.Marshal, which fails on a time that has no text form.
  unfoldable pub encode_task : Task → Option Json
  encode_task t = do
    created ← rt.format_time t.created_at
    updated ← rt.format_time t.updated_at
    some (obj (task_fields t created updated))

  unfoldable pub encode_event : Envelope → Option Json
  encode_event e = do
    occurred ← rt.format_time e.occurred_at
    task ← encode_task e.task
    some (obj (event_fields e occurred task))

  as_time : Json → ℤ → Option ℤ
  as_time null old = some old
  as_time (str s) old = rt.parse_time s
  as_time _ old = none

  -- One key of the object; a key that no field answers to is skipped.
  set_task_field : String → Json → Task → Option Task
  unfolding as_time
  set_task_field k v t =
      if key_is "id" k
      then Option.map (λ x. record t { id = x }) (as_int64 v t.id)
      else if key_is "project_id" k
      then Option.map (λ x. record t { project_id = x }) (as_int64 v t.project_id)
      else if key_is "assignee_id" k
      then Option.map (λ x. record t { assignee_id = x }) (as_int64_pointer v t.assignee_id)
      else if key_is "assignee_name" k
      then Option.map (λ x. record t { assignee_name = x }) (as_string v t.assignee_name)
      else if key_is "title" k
      then Option.map (λ x. record t { title = x }) (as_string v t.title)
      else if key_is "description" k
      then Option.map (λ x. record t { description = x }) (as_string v t.description)
      else if key_is "status" k
      then Option.map (λ x. record t { status = x }) (as_string v t.status)
      else if key_is "version" k
      then Option.map (λ x. record t { version = x }) (as_int64 v t.version)
      else if key_is "created_at" k
      then Option.map (λ x. record t { created_at = x }) (as_time v t.created_at)
      else if key_is "updated_at" k
      then Option.map (λ x. record t { updated_at = x }) (as_time v t.updated_at)
      else some t

  set_task_fields : Fields → Task → Option Task
  set_task_fields end t = some t
  set_task_fields (field k v fs) t = do t' ← set_task_field k v t; set_task_fields fs t'

  as_task : Json → Task → Option Task
  unfolding set_task_fields set_task_field key_is as_int64 as_string as_int64_pointer
  as_task null old = some old
  as_task (obj fs) old = set_task_fields fs old
  as_task _ old = none

  set_event_field : String → Json → Envelope → Option Envelope
  unfolding as_time
  set_event_field k v e =
      if key_is "event_id" k
      then Option.map (λ x. record e { event_id = x }) (as_string v e.event_id)
      else if key_is "event_type" k
      then Option.map (λ x. record e { event_type = x }) (as_string v e.event_type)
      else if key_is "schema_version" k
      then Option.map (λ x. record e { schema_version = x }) (as_int64 v e.schema_version)
      else if key_is "project_id" k
      then Option.map (λ x. record e { project_id = x }) (as_int64 v e.project_id)
      else if key_is "task_id" k
      then Option.map (λ x. record e { task_id = x }) (as_int64 v e.task_id)
      else if key_is "task_version" k
      then Option.map (λ x. record e { task_version = x }) (as_int64 v e.task_version)
      else if key_is "occurred_at" k
      then Option.map (λ x. record e { occurred_at = x }) (as_time v e.occurred_at)
      else if key_is "actor_subject" k
      then Option.map (λ x. record e { actor_subject = x }) (as_string v e.actor_subject)
      else if key_is "traceparent" k
      then Option.map (λ x. record e { trace_parent = x }) (as_string v e.trace_parent)
      else if key_is "tracestate" k
      then Option.map (λ x. record e { trace_state = x }) (as_string v e.trace_state)
      else if key_is "task" k
      then Option.map (λ x. record e { task = x }) (as_task v e.task)
      else some e

  set_event_fields : Fields → Envelope → Option Envelope
  set_event_fields end e = some e
  set_event_fields (field k v fs) e = do e' ← set_event_field k v e; set_event_fields fs e'

  pub unmarshal_event : Payload → Option Envelope
  unfolding set_event_fields set_event_field as_task
  unmarshal_event (malformed text) = none
  unmarshal_event (json null) = some zero_envelope
  unmarshal_event (json (obj fs)) = set_event_fields fs zero_envelope
  unmarshal_event (json _) = none

-- The envelope, or the error.
pub data Decoded : Type 0 where
  event : Envelope → Decoded
  rejected : Error → Decoded

-- The check of `Decode` on what it has read.
unfoldable pub checked : Envelope → Decoded
checked e =
    if not (eq_ℤ e.schema_version current_schema_version)
      || (str_eq e.event_id "" || (ltb_ℤ e.project_id (pos 1) || ltb_ℤ e.task_id (pos 1)))
    then rejected invalid_board_event
    else event e

unfoldable pub decode : Runtime → Payload → Decoded
unfolding unmarshal_event checked
decode rt payload = elim (unmarshal_event rt payload) [
  | none ↦ rejected decode_board_event
  | some e ↦ checked e
]
