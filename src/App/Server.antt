-- ===== src/App/Server.antt =====
-- internal/app/server.go: the routes of `New` under /api/, `authorize`, and `requestLogger`. A path
-- is clean, as http.ServeMux makes it before it matches.

use noapp.Prelude.{
  not, is_none, strip_prefix, byte_length, ℕ, String, Bool, false, ◌&&◌, ◌||◌, Option, none, some,
  List, [], ◌∷◌, ◌++◌, ltb, leb, ◌==◌, str_eq, split_at, if◌then◌else◌,
}
use noapp.Json.{str, obj, field, end, Payload}
use noapp.Runtime.{Runtime}
use noapp.Database.{Database}
use noapp.Auth.{Principal, has_role}
use noapp.App.{Reply, write_json, write_error, Calls}
use noapp.App.Handlers.{
  Orders, health, list_users, list_projects, list_tasks, create_user, create_project,
}
use noapp.App.Tasks.{create_task, update_task_status}

pub record AuthUiConfig : Type 0 where
  pub issuer : String
  pub client_id : String

pub record Request : Type 0 where
  pub method : String
  pub path : String
  pub authorization : String
  pub request_id : String
  pub body : Payload

-- An increment of the counter of decisions.
pub record Decision : Type 0 where
  pub outcome : String
  pub required_role : String
  pub subject : String

pub record World : Type 0 where
  pub db : Database
  pub decisions : List Decision

-- What the patterns of the protected handlers tell apart.
pub data Route : Type 0 where
  users projects : Route
  project_tasks : String → Route
  task_status : String → Route
  unknown : Route

unfoldable pub route_of : List String → Route
route_of (root ∷ api ∷ a ∷ []) =
    if str_eq a "users" then users else if str_eq a "projects" then projects else unknown
route_of (root ∷ api ∷ a ∷ id ∷ b ∷ []) =
    if str_eq a "projects" && str_eq b "tasks"
    then project_tasks id
    else if str_eq a "tasks" && str_eq b "status"
    then task_status id
    else unknown
route_of _ = unknown

-- A pattern for GET takes HEAD too.
abbrev pub is_get : String → Bool
is_get method = str_eq method "GET" || str_eq method "HEAD"

-- The mux's own replies are plain texts.
abbrev pub method_not_allowed : Reply
method_not_allowed = write_json 405 none

abbrev pub not_found : Reply
not_found = write_json 404 none

module _ (rt : Runtime) (orders : Orders) (calls : Calls) where
  unfoldable pub serve_route : String → String → Payload → Route → Database → Database × Reply
  serve_route subject method body users db =
      if is_get method
      then (db, list_users rt orders calls db)
      else if str_eq method "POST"
      then create_user rt calls body db
      else (db, method_not_allowed)
  serve_route subject method body projects db =
      if is_get method
      then (db, list_projects rt orders calls db)
      else if str_eq method "POST"
      then create_project rt calls body db
      else (db, method_not_allowed)
  serve_route subject method body (project_tasks id) db =
      if is_get method
      then (db, list_tasks rt orders calls id db)
      else if str_eq method "POST"
      then create_task rt calls subject id body db
      else (db, method_not_allowed)
  serve_route subject method body (task_status id) db =
      if str_eq method "PATCH"
      then update_task_status rt calls subject id body db
      else (db, method_not_allowed)
  serve_route subject method body unknown db = (db, not_found)

unfoldable pub required_role : String → String
required_role method =
    if str_eq method "GET" || (str_eq method "HEAD" || str_eq method "OPTIONS")
    then "noapp-viewer"
    else "noapp-editor"

abbrev decide : String → String → String → World → World
decide outcome role subject w = record w {
  decisions =
      w.decisions ++ record { outcome = outcome; required_role = role; subject = subject } ∷ [];
}

-- `next` is the handler behind, given the principal's subject. `verify` is what the verifier answers
-- to the header, `none` on an error.
abbrev pub Next : Type 0
Next = String → Database → Database × Reply

module _ (verify : String → Option Principal) (next : Next) where
  unfoldable pub authorize : Request → World → World × Reply
  authorize r w =
      let role = required_role r.method in
      elim (verify r.authorization) [
        | none ↦ (decide "unauthenticated" role "" w, write_error 401 "authentication required")
        | some p ↦
            if has_role p role
            then (let end = next p.subject w.db in
                (record (decide "allowed" role p.subject w) { db = end.0 }, end.1))
            else (decide "forbidden" role p.subject w, write_error 403 "insufficient permissions")
      ]

abbrev pub is_open : String → List String → Bool
is_open name (root ∷ api ∷ a ∷ []) = str_eq a name
is_open name _ = false

abbrev pub is_auth_config : List String → Bool
is_auth_config (root ∷ api ∷ a ∷ b ∷ []) = str_eq a "auth" && str_eq b "config"
is_auth_config _ = false

unfoldable pub serve_api :
    Runtime
    → Orders
    → AuthUiConfig
    → (String → Option Principal)
    → Calls
    → Option String
    → Request
    → World
    → World × Reply
serve_api rt orders ui verify calls ping r w =
    let segments = split_at b'/' r.path in
    if is_get r.method && is_open "health" segments
    then (w, health ping)
    else if is_get r.method && is_auth_config segments
    then (
      w,
      write_json 200
          (some (obj (field "issuer" (str ui.issuer) (field "client_id" (str ui.client_id) end)))),
    )
    else authorize verify
        (λ subject db. serve_route rt orders calls subject r.method r.body (route_of segments) db) r
        w

abbrev pub is_api : String → Bool
is_api path = not (is_none (strip_prefix "/api/" path))

-- The outer mux. `files` is the reply to a path that is not under /api/: the mux's redirect of /api,
-- or that of http.FileServer, which get nothing of the database.
unfoldable pub serve :
    Runtime
    → Orders
    → AuthUiConfig
    → (String → Option Principal)
    → Calls
    → Option String
    → (Request → Reply)
    → Request
    → World
    → World × Reply
serve rt orders ui verify calls ping files r w =
    if is_api r.path then serve_api rt orders ui verify calls ping r w else (w, files r)

-- The identifier of a request. `fresh` is what newRequestID gives.
unfoldable pub request_id : String → Request → String
request_id fresh r =
    if str_eq r.request_id "" || ltb 128 (byte_length r.request_id) then fresh else r.request_id

pub data Level : Type 0 where
  info warn error : Level

-- The level of the line that is logged for a status, 0 if no status was written.
unfoldable pub level_of : ℕ → Level
level_of status =
    let s = if status == 0 then 200 else status in
    if leb 500 s then error else if leb 400 s then warn else info
