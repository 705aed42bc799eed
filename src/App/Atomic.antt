-- ===== src/App/Atomic.antt =====
-- internal/app/server.go, createTask and updateTaskStatus: on every branch, what is in the database
-- when the reply is written.
use noapp.Prelude.{
  ℕ, ◌≤◌, ◌≡◌, refl, String, true, false, ◌||◌, not, Option, none, some, map, inl, inr, Bool-cases,
  Option-cases, arith, ℤ, str_eq, pos, ◌≤ℤ◌,
}
use noapp.Json.{Json, Payload}
use noapp.Runtime.{Runtime}
use noapp.Database.{Database, TaskRow}
use noapp.Events.{task_created, task_status_changed}
use noapp.App.{
  Reply, write_json, write_error, Calls, Parsed, parsed, replied, path_id, valid_status,
  decode_json, TaskInput, set_task_input_field, set_status_field,
}
use noapp.App.Tasks.{
  new_task, add_task, references_hold, Queried, row, no_rows, failed, insert_task, with_status,
  change_task, find_task, update_task, no_input, normalise, begun, created, status_changed,
  store_task, create_task, store_status, update_task_status,
}
use noapp.App.Recording.{Recorded, Outcome, unchanged, record_event-Outcome}

-- One task more, with the event that announces it.
pub record Created (rt : Runtime) (calls : Calls) (subject value : String) (body : Payload)
    (db db' : Database) : Type 0 where
  pub project : ℤ
  pub addressed : path_id value ≡ parsed project
  pub raw : TaskInput
  pub sent : decode_json set_task_input_field calls no_input body ≡ parsed raw
  pub input : TaskInput
  pub normalised : input ≡ normalise raw
  pub positive : pos 1 ≤ℤ project
  pub titled : str_eq input.title "" ≡ false
  pub valid : valid_status input.status ≡ true
  pub references : references_hold project input.assignee_id db ≡ true
  pub recorded :
      let r = new_task db.next_task calls.now project input in
      Recorded rt calls task_created subject r (add_task db r) db'

-- One task's status and version changed, with the event that announces them.
pub record Changed (rt : Runtime) (calls : Calls) (subject value : String) (body : Payload)
    (db db' : Database) : Type 0 where
  pub id : ℤ
  pub addressed : path_id value ≡ parsed id
  pub status : String
  pub sent : decode_json set_status_field calls "" body ≡ parsed status
  pub before : TaskRow
  pub found : find_task id db.tasks ≡ some before
  pub valid : valid_status status ≡ true
  pub recorded :
      Recorded rt calls task_status_changed subject
        (with_status status calls.now before)
        (record db { tasks = map (change_task id status calls.now) db.tasks })
        db'

path_id-status :
    (value : String) (reply : Reply) → path_id value ≡ replied reply → 400 ≤ reply.status
unfolding path_id write_error write_json
path_id-status value reply h = ground arith

path_id-positive : (value : String) (id : ℤ) → path_id value ≡ parsed id → pos 1 ≤ℤ id
unfolding path_id
path_id-positive value id h = ground arith

decode_json-status :
    {A : Type 0} (set : String → Json → A → Option A) (calls : Calls) (zero : A) (body : Payload)
    (reply : Reply)
    → decode_json set calls zero body ≡ replied reply
    → 400 ≤ reply.status
unfolding decode_json write_error write_json
decode_json-status set calls zero body reply h = ground arith

begun-Outcome :
    (status : ℕ) (Change : Database → Type 0) (failure : Option String) (message : String)
    (db : Database) (rest : Database × Reply)
    → Outcome status Change db rest
    → Outcome status Change db (begun failure message db rest)
unfolding begun write_error write_json
begun-Outcome status Change none message db rest o = o
begun-Outcome status Change (some text) message db rest o = unchanged _ (omega arith)

insert_task-row :
    (calls : Calls) (project : ℤ) (i : TaskInput) (db tx : Database) (r : TaskRow)
    → insert_task calls project i db ≡ row r tx
    → (r ≡ new_task db.next_task calls.now project i)
      × (tx ≡ add_task db (new_task db.next_task calls.now project i))
      × (references_hold project i.assignee_id db ≡ true)
unfolding insert_task
insert_task-row calls project i db tx r h = ground arith

update_task-row :
    (calls : Calls) (id : ℤ) (status : String) (db tx : Database) (r : TaskRow)
    → update_task calls id status db ≡ row r tx
    → (before : TaskRow) × (find_task id db.tasks ≡ some before)
      × (r ≡ with_status status calls.now before)
      × (tx ≡ record db { tasks = map (change_task id status calls.now) db.tasks })
unfolding update_task
update_task-row calls id status db tx r h = elim (Option-cases (find_task id db.tasks)) [
  | inl n ↦ absurd (ground arith)
  | inr (before, f) ↦ (before, f, ground arith, ground arith)
]

module _ (rt : Runtime) (calls : Calls) (subject value : String) (body : Payload) where
  created-Outcome :
      (project : ℤ) (i : TaskInput) (db : Database) (q : Queried)
      → path_id value ≡ parsed project
      → (raw : TaskInput) → decode_json set_task_input_field calls no_input body ≡ parsed raw
      → i ≡ normalise raw
      → str_eq i.title "" ≡ false
      → valid_status i.status ≡ true
      → insert_task calls project i db ≡ q
      → Outcome 201 (Created rt calls subject value body db) db (created rt calls subject db q)
  unfolding created write_error write_json
  created-Outcome project i db no_rows h₀ raw sent same_input titled valid h =
      unchanged _ (omega arith)
  created-Outcome project i db (failed text) h₀ raw sent same_input titled valid h =
      unchanged _ (ground arith)
  created-Outcome project i db (row r tx) h₀ raw sent same_input titled valid h =
      let (same, made, references) = insert_task-row calls project i db tx r h in
      record_event-Outcome rt calls task_created subject "could not commit task creation" 201
        (Created rt calls subject value body db) r db tx
        (λ db' rec. record {
          project = project;
          addressed = h₀;
          raw = raw;
          sent = sent;
          input = i;
          normalised = same_input;
          positive = path_id-positive value project h₀;
          titled = titled;
          valid = valid;
          references = references;
          recorded = rw (same, made) at rec;
        })

  status_changed-Outcome :
      (id : ℤ) (status : String) (db : Database) (q : Queried)
      → path_id value ≡ parsed id
      → decode_json set_status_field calls "" body ≡ parsed status
      → valid_status status ≡ true
      → update_task calls id status db ≡ q
      → Outcome 200
          (Changed rt calls subject value body db)
          db
          (status_changed rt calls subject db q)
  unfolding status_changed write_error write_json
  status_changed-Outcome id status db no_rows h₀ sent valid h = unchanged _ (omega arith)
  status_changed-Outcome id status db (failed text) h₀ sent valid h = unchanged _ (omega arith)
  status_changed-Outcome id status db (row r tx) h₀ sent valid h =
      let (before, found, same, made) = update_task-row calls id status db tx r h in
      record_event-Outcome rt calls task_status_changed subject
        "could not commit task status change" 200 (Changed rt calls subject value body db) r db tx
        (λ db' rec. record {
          id = id;
          addressed = h₀;
          status = status;
          sent = sent;
          before = before;
          found = found;
          valid = valid;
          recorded = rw (same, made) at rec;
        })

  -- createTask ends in one of three ways. It writes an error, of status 400 or more, over the
  -- database as it was; or it writes the status 201; or it writes the status 500 after a commit
  -- whose answer was lost. In the last two ways the database has one task more, in the project of
  -- the path, with the trimmed input of the body, under the next number and at version 1; it has a
  -- title and a valid status, and its project and assignee exist; and the outbox has one row more,
  -- with what the JSONB column keeps of the JSON form of the event that announces this task.
  pub create_task-Outcome :
      (db : Database)
      → Outcome 201
          (Created rt calls subject value body db)
          db
          (create_task rt calls subject value body db)
  unfolding write_error write_json store_task create_task
  create_task-Outcome db = on_path (path_id value) refl
    where
      on_input :
          (project : ℤ) (p : Parsed TaskInput)
          → path_id value ≡ parsed project
          → decode_json set_task_input_field calls no_input body ≡ p
          → Outcome 201
              (Created rt calls subject value body db)
              db
              (create_task rt calls subject value body db)
      on_input project (replied reply) h d =
          rw (h, d, create_task)
            (unchanged reply (decode_json-status _ calls no_input body reply d))
      on_input project (parsed input) h d =
          let i = normalise input in
          elim (Bool-cases (str_eq i.title "" || not (valid_status i.status))) [
            | inl e ↦ rw (h, d, e, create_task) (unchanged _ (omega arith))
            | inr e ↦
                rw (h, d, e, create_task)
                  (begun-Outcome 201 (Created rt calls subject value body db) calls.begin _ db _ (
                    created-Outcome project i db _ h input d refl (ground arith) (ground arith)
                      refl))
          ]

      on_path :
          (p : Parsed ℤ)
          → path_id value ≡ p
          → Outcome 201
              (Created rt calls subject value body db)
              db
              (create_task rt calls subject value body db)
      on_path (replied reply) h =
          rw (h, create_task) (unchanged reply (path_id-status value reply h))
      on_path (parsed project) h = on_input project _ h refl

  -- updateTaskStatus ends in one of three ways. It writes an error, of status 400 or more, over the
  -- database as it was; or it writes the status 200; or it writes the status 500 after a commit
  -- whose answer was lost. In the last two ways the rows of the task with the identifier of the
  -- path have the status of the body, which is valid, the time of the change and the next version;
  -- and the outbox has one row more, with what the JSONB column keeps of the JSON form of the event
  -- that announces the first of these rows.
  pub update_task_status-Outcome :
      (db : Database)
      → Outcome 200
          (Changed rt calls subject value body db)
          db
          (update_task_status rt calls subject value body db)
  unfolding write_error write_json store_status update_task_status
  update_task_status-Outcome db = on_path (path_id value) refl
    where
      Ends : Type 0
      Ends =
          Outcome 200 (Changed rt calls subject value body db) db
            (update_task_status rt calls subject value body db)

      on_input :
          (id : ℤ) (p : Parsed String)
          → path_id value ≡ parsed id
          → decode_json set_status_field calls "" body ≡ p
          → Ends
      on_input id (replied reply) h d =
          rw (h, d, update_task_status)
            (unchanged reply (decode_json-status _ calls "" body reply d))
      on_input id (parsed status) h d = elim (Bool-cases (valid_status status)) [
        | inr e ↦ rw (h, d, e, update_task_status) (unchanged _ (omega arith))
        | inl e ↦
            rw (h, d, e, update_task_status)
              (begun-Outcome 200 (Changed rt calls subject value body db) calls.begin _ db _
                (status_changed-Outcome id status db _ h d e refl))
      ]

      on_path : (p : Parsed ℤ) → path_id value ≡ p → Ends
      on_path (replied reply) h =
          rw (h, update_task_status) (unchanged reply (path_id-status value reply h))
      on_path (parsed id) h = on_input id _ h refl
