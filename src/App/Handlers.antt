-- ===== src/App/Handlers.antt =====
-- internal/app/server.go: the handlers of health, users, projects and the list of tasks.
use noapp.Prelude.{
  ℕ, suc, String, Bool, false, ◌||◌, not, Option, none, some, List, [], ◌∷◌, ◌++◌, select, count_if,
  pos, eq_ℤ, str_eq, has_char, trim_space, contains_text, if◌then◌else◌,
}
use noapp.Json.{Json, int, str, arr, obj, Items, nil, cons, field, end, Payload}
use noapp.Runtime.{Runtime}
use noapp.Database.{Database, UserRow, ProjectRow, TaskRow}
use noapp.Events.{encode_task}
use noapp.App.{
  Reply, write_json, write_error, Calls, parsed, replied, path_id, decode_json, UserInput,
  set_user_field, ProjectInput, set_project_field,
}
use noapp.App.Tasks.{scan_task}

infixl 5 ◌>>=◌
abbrev ◌>>=◌ {ℓ κ} : {A : Type ℓ} {B : Type κ} → Option A → (A → Option B) → Option B
none >>= f = none
some a >>= f = f a

-- The ORDER BY of the three lists.
pub record Orders : Type 0 where
  pub users : List UserRow → List UserRow
  pub projects : List ProjectRow → List ProjectRow
  pub tasks : List TaskRow → List TaskRow

abbrev has_email : String → List UserRow → Bool
has_email email [] = false
has_email email (u ∷ us) = str_eq u.email email || has_email email us

abbrev encode_all {ℓ} : {A : Type ℓ} → (A → Option Json) → List A → Option Items
encode_all f [] = some nil
encode_all f (x ∷ xs) = do v ← f x; vs ← encode_all f xs; some (cons v vs)

module _ (rt : Runtime) where
  abbrev encode_user : UserRow → Option Json
  encode_user u = do
    created ← rt.format_time u.created_at
    some (
        obj (
          field "id" (int u.id) (
            field "name" (str u.name)
              (field "email" (str u.email) (field "created_at" (str created) end)))))

  abbrev encode_project : ℕ → ProjectRow → Option Json
  encode_project task_count p = do
    created ← rt.format_time p.created_at
    some (
        obj (
          field "id" (int p.id) (
            field "name" (str p.name) (
              field "description" (str p.description) (
                field "created_at" (str created)
                  (field "task_count" (int (pos task_count)) end))))))

-- The three ways in which a list may fail, and the list.
abbrev listed : Calls → String → String → String → Option Items → Reply
listed calls load read finish items = elim calls.query [
  | some text ↦ write_error 500 load
  | none ↦ elim calls.scan [
    | some text ↦ write_error 500 read
    | none ↦ elim calls.rest [
      | some text ↦ write_error 500 finish
      | none ↦ write_json 200 (items >>= (λ vs. some (arr vs)))
    ]
  ]
]

-- `ping` is the error of the pool.
unfoldable pub health : Option String → Reply
health (some text) = write_error 503 "database is unavailable"
health none =
    write_json 200 (some (obj (field "database" (str "ok") (field "status" (str "ok") end))))

module _ (rt : Runtime) (orders : Orders) (calls : Calls) where
  unfoldable pub list_users : Database → Reply
  list_users db =
      listed calls "could not load users" "could not read users" "could not finish loading users"
        (encode_all (encode_user rt) (orders.users db.users))

  unfoldable pub list_projects : Database → Reply
  list_projects db =
      listed calls "could not load projects" "could not read projects"
        "could not finish loading projects"
        (encode_all (λ p. encode_project rt (count_if (λ t. eq_ℤ t.project_id p.id) db.tasks) p)
          (orders.projects db.projects))

  unfoldable pub list_tasks : String → Database → Reply
  list_tasks value db = elim (path_id value) [
    | replied reply ↦ reply
    | parsed project ↦
        listed calls "could not load tasks" "could not read tasks" "could not finish loading tasks"
          (encode_all (λ r. encode_task rt (scan_task db.users r))
            (orders.tasks (select (λ t. eq_ℤ t.project_id project) db.tasks)))
  ]

abbrev new_user : Database → Calls → UserInput → UserRow
new_user db calls i = record {
  id = pos db.next_user;
  name = i.name;
  email = i.email;
  created_at = calls.now;
}

abbrev new_project : Database → Calls → ProjectInput → ProjectRow
new_project db calls i = record {
  id = pos db.next_project;
  name = i.name;
  description = i.description;
  created_at = calls.now;
}

abbrev email_taken : String
email_taken = "duplicate key value violates unique constraint \"users_email_key\""

module _ (rt : Runtime) (calls : Calls) where
  abbrev user_failed : String → Reply
  user_failed text =
      if contains_text text "users_email_key"
      then write_error 409 "a user with that email already exists"
      else write_error 500 "could not create user"

  -- A statement without a transaction of its own: `scan` is an answer that is lost after the row is
  -- in.
  unfoldable pub store_user : UserInput → Database → Database × Reply
  store_user i db = elim calls.query [
    | some text ↦ (db, user_failed text)
    | none ↦
        let u = new_user db calls i in
        let added = record db { users = db.users ++ u ∷ []; next_user = suc db.next_user } in
        if has_email i.email db.users then (db, user_failed email_taken) else elim calls.scan [
          | some text ↦ (added, user_failed text)
          | none ↦ (added, write_json 201 (encode_user rt u))
        ]
  ]

  unfoldable pub create_user : Payload → Database → Database × Reply
  create_user body db =
      elim (decode_json set_user_field calls (record { name = ""; email = "" }) body) [
        | replied reply ↦ (db, reply)
        | parsed input ↦
            let name = trim_space input.name in
            let email = calls.to_lower (trim_space input.email) in
            if str_eq name "" || (str_eq email "" || not (has_char b'@' email))
            then (db, write_error 400 "name and a valid email are required")
            else store_user (record { name = name; email = email }) db
      ]

  unfoldable pub store_project : ProjectInput → Database → Database × Reply
  store_project i db = elim calls.query [
    | some text ↦ (db, write_error 500 "could not create project")
    | none ↦
        let p = new_project db calls i in
        let added = record db {
          projects = db.projects ++ p ∷ [];
          next_project = suc db.next_project;
        } in
        elim calls.scan [
          | some text ↦ (added, write_error 500 "could not create project")
          | none ↦ (added, write_json 201 (encode_project rt 0 p))
        ]
  ]

  unfoldable pub create_project : Payload → Database → Database × Reply
  create_project body db =
      elim (decode_json set_project_field calls (record { name = ""; description = "" }) body) [
        | replied reply ↦ (db, reply)
        | parsed input ↦
            let name = trim_space input.name in
            let description = trim_space input.description in
            if str_eq name ""
            then (db, write_error 400 "project name is required")
            else store_project (record { name = name; description = description }) db
      ]
