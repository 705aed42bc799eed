-- ===== src/App/Tasks.antt =====
-- internal/app/server.go: createTask and updateTaskStatus. A transaction that ends without a commit
-- leaves the database as it was; the gaps that it leaves in the sequences' numbers are left out. The
-- CHECKs of the table tasks hold of what the handlers send.
use noapp.Prelude.{
  ℕ, suc, String, Bool, false, ◌&&◌, ◌||◌, not, Option, none, some, List, [], ◌∷◌, ◌++◌, map, ℤ,
  pos, ◌+ℤ◌, eq_ℤ, in_int64, str_eq, trim_space, if◌then◌else◌,
}
use noapp.Json.{Payload}
use noapp.Runtime.{Runtime, ok, err}
use noapp.Database.{done, refused, lost, Database, UserRow, TaskRow}
use noapp.Events.{Task, encode_task, new_task_event, task_created, task_status_changed}
use noapp.Events.Insert.{has_project, insert_outbox}
use noapp.App.{
  Reply, write_json, write_error, Calls, parsed, replied, path_id, valid_status, is_reference_error,
  decode_json, TaskInput, set_task_input_field, set_status_field,
}

abbrev pub has_user : ℤ → List UserRow → Bool
has_user id [] = false
has_user id (u ∷ us) = eq_ℤ u.id id || has_user id us

-- coalesce(u.name, '') of the left join
abbrev pub name_of : ℤ → List UserRow → String
name_of id [] = ""
name_of id (u ∷ us) = if eq_ℤ u.id id then u.name else name_of id us

abbrev pub assignee_name : Option ℤ → List UserRow → String
assignee_name none us = ""
assignee_name (some id) us = name_of id us

-- The columns that the statements select, as scanTask reads them.
unfoldable pub scan_task : List UserRow → TaskRow → Task
scan_task us r = record {
  id = r.id;
  project_id = r.project_id;
  assignee_id = r.assignee_id;
  assignee_name = assignee_name r.assignee_id us;
  title = r.title;
  description = r.description;
  status = r.status;
  version = r.version;
  created_at = r.created_at;
  updated_at = r.updated_at;
}

abbrev pub references_hold : ℤ → Option ℤ → Database → Bool
references_hold project none db = has_project project db.projects
references_hold project (some id) db = has_project project db.projects && has_user id db.users

-- The row of the INSERT INTO tasks.
unfoldable pub new_task : ℕ → ℤ → ℤ → TaskInput → TaskRow
new_task id now project i = record {
  id = pos id;
  project_id = project;
  assignee_id = i.assignee_id;
  title = i.title;
  description = i.description;
  status = i.status;
  version = pos 1;
  created_at = now;
  updated_at = now;
}

unfoldable pub add_task : Database → TaskRow → Database
add_task db r = record db { tasks = db.tasks ++ r ∷ []; next_task = suc db.next_task }

abbrev pub reference_error : String
reference_error = "insert or update on table \"tasks\" violates foreign key constraint"

-- What the statement of a transaction gives: the row with the tables after it, no row, or an error.
pub data Queried : Type 0 where
  row : TaskRow → Database → Queried
  no_rows : Queried
  failed : String → Queried

unfoldable pub insert_task : Calls → ℤ → TaskInput → Database → Queried
insert_task calls project i db = elim calls.query [
  | some text ↦ failed text
  | none ↦
      let r = new_task db.next_task calls.now project i in
      if references_hold project i.assignee_id db
      then row r (add_task db r)
      else failed reference_error
]

-- SET status = $1, version = version + 1, updated_at = now()
unfoldable pub with_status : String → ℤ → TaskRow → TaskRow
with_status status now r = record r {
  status = status;
  version = r.version +ℤ pos 1;
  updated_at = now;
}

unfoldable pub change_task : ℤ → String → ℤ → TaskRow → TaskRow
change_task id status now r = if eq_ℤ r.id id then with_status status now r else r

abbrev pub find_task : ℤ → List TaskRow → Option TaskRow
find_task id [] = none
find_task id (r ∷ rs) = if eq_ℤ r.id id then some r else find_task id rs

-- The version is a BIGINT.
unfoldable pub update_task : Calls → ℤ → String → Database → Queried
update_task calls id status db = elim calls.query [
  | some text ↦ failed text
  | none ↦ elim (find_task id db.tasks) [
    | none ↦ no_rows
    | some r ↦
        let changed = map (change_task id status calls.now) db.tasks in
        if in_int64 (r.version +ℤ pos 1)
        then row (with_status status calls.now r) (record db { tasks = changed })
        else failed "bigint out of range"
  ]
]

-- The end of both handlers: the event, its row, the commit. `db` is the database before the
-- transaction, `tx` the one that the transaction sees.
module _ (rt : Runtime) (calls : Calls) (event_type subject message : String) (status : ℕ) where
  unfoldable pub commit_task : Task → Database → Database → Database × Reply
  commit_task task db tx = elim calls.commit [
    | done ↦ (tx, write_json status (encode_task rt task))
    | refused text ↦ (db, write_error 500 message)
    | lost text ↦ (tx, write_error 500 message)
  ]

  unfoldable pub record_event : TaskRow → Database → Database → Database × Reply
  record_event r db tx =
      let task = scan_task tx.users r in
      let e = new_task_event calls.uuid calls.wall calls.trace event_type subject task in
      elim (insert_outbox rt calls.insert calls.now tx e) [
        | err error ↦ (db, write_error 500 "could not record task event")
        | ok recorded ↦ commit_task task db recorded
      ]

-- The BEGIN, and the rest of the handler.
unfoldable pub begun : Option String → String → Database → Database × Reply → Database × Reply
begun none message db rest = rest
begun (some text) message db rest = (db, write_error 500 message)

abbrev pub normalise : TaskInput → TaskInput
normalise i = record i {
  title = trim_space i.title;
  description = trim_space i.description;
  status = if str_eq i.status "" then "todo" else i.status;
}

abbrev pub no_input : TaskInput
no_input = record { title = ""; description = ""; assignee_id = none; status = "" }

module _ (rt : Runtime) (calls : Calls) (subject : String) where
  unfoldable pub created : Database → Queried → Database × Reply
  created db (row r tx) =
      record_event rt calls task_created subject "could not commit task creation" 201 r db tx
  created db no_rows = (db, write_error 500 "could not create task")
  created db (failed text) = (
    db,
    if is_reference_error text
        then write_error 400 "project or assignee does not exist"
        else write_error 500 "could not create task",
  )

  unfoldable pub store_task : ℤ → TaskInput → Database → Database × Reply
  store_task project i db =
      begun calls.begin "could not begin task creation" db
        (created db (insert_task calls project i db))

  unfoldable pub create_task : String → Payload → Database → Database × Reply
  create_task value body db = elim (path_id value) [
    | replied reply ↦ (db, reply)
    | parsed project ↦ elim (decode_json set_task_input_field calls no_input body) [
      | replied reply ↦ (db, reply)
      | parsed input ↦
          let i = normalise input in
          if str_eq i.title "" || not (valid_status i.status)
          then (
            db,
            write_error 400 "title is required and status must be todo, in_progress, or done",
          )
          else store_task project i db
    ]
  ]

  unfoldable pub status_changed : Database → Queried → Database × Reply
  status_changed db (row r tx) =
      record_event rt calls task_status_changed subject "could not commit task status change" 200 r
        db tx
  status_changed db no_rows = (db, write_error 404 "task not found")
  status_changed db (failed text) = (db, write_error 500 "could not update task")

  unfoldable pub store_status : ℤ → String → Database → Database × Reply
  store_status id status db =
      begun calls.begin "could not begin task status change" db
        (status_changed db (update_task calls id status db))

  unfoldable pub update_task_status : String → Payload → Database → Database × Reply
  update_task_status value body db = elim (path_id value) [
    | replied reply ↦ (db, reply)
    | parsed id ↦ elim (decode_json set_status_field calls "" body) [
      | replied reply ↦ (db, reply)
      | parsed status ↦
          if valid_status status
          then store_status id status db
          else (db, write_error 400 "status must be todo, in_progress, or done")
    ]
  ]
