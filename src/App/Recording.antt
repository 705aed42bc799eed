-- ===== src/App/Recording.antt =====
-- internal/app/server.go: how createTask and updateTaskStatus end, from the event to the commit.
use noapp.Prelude.{
  ℕ, ◌≤◌, ◌≡◌, refl, String, Option, some, inl, inr, Bool-cases, Option-cases, arith, ℤ,
}
use noapp.Json.{Json, json}
use noapp.Runtime.{Runtime, Result, ok, err}
use noapp.Database.{Database, TaskRow, Answer, done, refused, lost}
use noapp.Events.{Envelope, encode_event, new_task_event}
use noapp.Events.Insert.{new_row, row_allowed, add_row, insert_outbox}
use noapp.App.{Reply, write_json, write_error, Calls}
use noapp.App.Tasks.{scan_task, commit_task, record_event}

-- The row of the outbox that records a task.
pub record Recorded (rt : Runtime) (calls : Calls) (event_type subject : String) (r : TaskRow)
    (tx db' : Database) : Type 0 where
  pub payload : Json
  pub encodes :
      encode_event rt
        (new_task_event calls.uuid calls.wall calls.trace event_type subject (scan_task tx.users r))
      ≡ some payload
  pub added :
      db'
      ≡ add_row tx (
          new_row tx.next_sequence calls.now
            (new_task_event calls.uuid calls.wall calls.trace event_type subject
              (scan_task tx.users r))
            (json (rt.jsonb payload)))

-- An error reply over the database as it was, the reply of success over a changed one, or an error
-- of the commit that took effect all the same.
pub data Outcome (status : ℕ) (Change : Database → Type 0) (db : Database)
    : Database × Reply → Type 0 where
  unchanged : (reply : Reply) → 400 ≤ reply.status → Outcome status Change db (db, reply)
  stored :
      (db' : Database) (reply : Reply)
      → Change db'
      → reply.status ≡ status
      → Outcome status Change db (db', reply)
  unanswered :
      (db' : Database) (reply : Reply)
      → Change db'
      → reply.status ≡ 500
      → Outcome status Change db (db', reply)

insert_outbox-ok :
    (rt : Runtime) (failure : Option String) (now : ℤ) (db db' : Database) (e : Envelope)
    → insert_outbox rt failure now db e ≡ ok db'
    → (j : Json) × (encode_event rt e ≡ some j)
      × (db' ≡ add_row db (new_row db.next_sequence now e (json (rt.jsonb j))))
unfolding insert_outbox
insert_outbox-ok rt failure now db db' e h = elim (Option-cases (encode_event rt e)) [
  | inl n ↦ absurd (let k = rw (n, insert_outbox) at h in cc)
  | inr (j, s) ↦ elim (Option-cases failure) [
    | inr (text, f) ↦ absurd (let k = rw (s, f, insert_outbox) at h in cc)
    | inl f ↦ elim (Bool-cases (row_allowed db e)) [
      | inr a ↦ absurd (let k = rw (s, f, a, insert_outbox) at h in cc)
      | inl a ↦ (j, s, let k = rw (s, f, a, insert_outbox) at h in cc)
    ]
  ]
]

module _ (rt : Runtime) (calls : Calls) (event_type subject message : String) (status : ℕ) where
  pub record_event-Outcome :
      (Change : Database → Type 0) (r : TaskRow) (db tx : Database)
      → ((db' : Database) → Recorded rt calls event_type subject r tx db' → Change db')
      → Outcome status Change db (record_event rt calls event_type subject message status r db tx)
  unfolding record_event commit_task write_error write_json
  record_event-Outcome Change r db tx change =
      go (insert_outbox rt calls.insert calls.now tx e) refl
    where
      e : Envelope
      e = new_task_event calls.uuid calls.wall calls.trace event_type subject (scan_task tx.users r)

      settle :
          (db' : Database)
          → Change db'
          → (answer : Answer) → calls.commit ≡ answer
          → Outcome status Change db
              (commit_task rt calls event_type subject message status (scan_task tx.users r) db db')
      settle db' c done h = rw (h, commit_task) (stored db' _ c refl)
      settle db' c (refused text) h = rw (h, commit_task) (unchanged _ (omega arith))
      settle db' c (lost text) h = rw (h, commit_task) (unanswered db' _ c refl)

      go :
          (result : Result Database)
          → insert_outbox rt calls.insert calls.now tx e ≡ result
          → Outcome status Change db
              (record_event rt calls event_type subject message status r db tx)
      go (err error) h = rw (h, record_event) (unchanged _ (omega arith))
      go (ok db') h =
          let (j, s, added) = insert_outbox-ok rt calls.insert calls.now tx db' e h in
          rw (h, record_event)
            (settle db' (change db' (record { payload = j; encodes = s; added = added })) _ refl)
