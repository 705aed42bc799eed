-- ===== src/Database.antt =====
-- The tables of db/init.sql that the Go code reads and writes. A table is the list of its rows in the
-- order of the primary key, which its sequence hands out upwards.
use noapp.Prelude.{ℕ, String, Option, List, ℤ}
use noapp.Json.{Payload}

-- What comes back of a statement: it is done, it was refused and changed nothing, or it took effect
-- and the answer was lost on the way.
pub data Answer : Type 0 where
  done : Answer
  refused lost : String → Answer

pub record UserRow : Type 0 where
  pub id : ℤ
  pub name : String
  pub email : String
  pub created_at : ℤ

pub record ProjectRow : Type 0 where
  pub id : ℤ
  pub name : String
  pub description : String
  pub created_at : ℤ

pub record TaskRow : Type 0 where
  pub id : ℤ
  pub project_id : ℤ
  pub assignee_id : Option ℤ
  pub title : String
  pub description : String
  pub status : String
  pub version : ℤ
  pub created_at : ℤ
  pub updated_at : ℤ

-- outbox_events
pub record OutboxRow : Type 0 where
  pub sequence : ℕ
  pub event_id : String
  pub project_id : ℤ
  pub aggregate_id : ℤ
  pub aggregate_version : ℤ
  pub event_type : String
  pub payload : Payload
  pub occurred_at : ℤ
  pub published_at : Option ℤ
  pub attempt_count : ℕ
  pub next_attempt_at : ℤ
  pub claimed_by : Option String
  pub claim_until : Option ℤ
  pub last_error : Option String
  pub dead_at : Option ℤ

-- The numbers are the next values of the primary keys' sequences.
pub record Database : Type 0 where
  pub users : List UserRow
  pub projects : List ProjectRow
  pub tasks : List TaskRow
  pub outbox : List OutboxRow
  pub next_user : ℕ
  pub next_project : ℕ
  pub next_task : ℕ
  pub next_sequence : ℕ
