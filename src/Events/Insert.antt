-- ===== src/Events/Insert.antt =====
-- internal/events/events.go, InsertOutbox, over the table outbox_events of db/init.sql.
use noapp.Prelude.{
  ℕ, String, Bool, false, ◌||◌, ◌&&◌, not, Option, none, some, List, [], ◌∷◌, ◌++◌, suc, ℤ, pos,
  ltb_ℤ, eq_ℤ, str_eq, if◌then◌else◌,
}
use noapp.Json.{Payload, json}
use noapp.Runtime.{Runtime, encode_outbox_event, insert_outbox_event, Result, ok, err}
use noapp.Database.{Database, OutboxRow, ProjectRow}
use noapp.Events.{Envelope, encode_event}

-- The row that the INSERT makes: the columns that it does not name take their defaults.
unfoldable pub new_row : ℕ → ℤ → Envelope → Payload → OutboxRow
new_row sequence now e payload = record {
  sequence = sequence;
  event_id = e.event_id;
  project_id = e.project_id;
  aggregate_id = e.task_id;
  aggregate_version = e.task_version;
  event_type = e.event_type;
  payload = payload;
  occurred_at = e.occurred_at;
  published_at = none;
  attempt_count = 0;
  next_attempt_at = now;
  claimed_by = none;
  claim_until = none;
  last_error = none;
  dead_at = none;
}

abbrev pub has_event : String → List OutboxRow → Bool
has_event id [] = false
has_event id (r ∷ rs) = str_eq r.event_id id || has_event id rs

abbrev pub has_project : ℤ → List ProjectRow → Bool
has_project id [] = false
has_project id (p ∷ ps) = eq_ℤ p.id id || has_project id ps

-- The table's constraints: UNIQUE (event_id), REFERENCES projects, CHECK (aggregate_version > 0).
unfoldable pub row_allowed : Database → Envelope → Bool
row_allowed db e =
    not (has_event e.event_id db.outbox)
    && has_project e.project_id db.projects
    && ltb_ℤ (pos 0) e.task_version

abbrev pub add_row : Database → OutboxRow → Database
add_row db r = record db { outbox = db.outbox ++ r ∷ []; next_sequence = suc db.next_sequence }

-- `failure` is an error of the connection. A refused statement aborts the transaction, so the
-- database that comes with an error is of no account.
unfoldable pub insert_outbox : Runtime → Option String → ℤ → Database → Envelope → Result Database
unfolding row_allowed new_row
insert_outbox rt failure now db e = elim (encode_event rt e) [
  | none ↦ err encode_outbox_event
  | some j ↦ elim failure [
    | some text ↦ err (insert_outbox_event text)
    | none ↦
        if row_allowed db e
        then ok (add_row db (new_row db.next_sequence now e (json (rt.jsonb j))))
        else err (insert_outbox_event "constraint")
  ]
]
