-- ===== src/Simulator/Client/Requests.antt =====
-- internal/simulator/client.go: the calls of the API that the engine makes, and what they decode.
use mathlib.Core.Option
use Prim.Native.String.{◌++◌ as text_append}
use noapp.Prelude.{String, Option, none, some, ℤ, pos, format_int, if◌then◌else◌}
use noapp.Json.{
  Json, null, int, str, obj, Fields, end, field, Payload, json, malformed, key_is, as_int64,
  as_string,
}
use noapp.Simulator.Client.{ApiClient, Net, Exchange, no_content, json_content, do_request, ◌>>=◌}

pub record ApiUser : Type 0 where
  pub id : ℤ
  pub name : String

pub record ApiProject : Type 0 where
  pub id : ℤ

pub record ApiTask : Type 0 where
  pub id : ℤ
  pub project_id : ℤ
  pub status : String

-- Decoding a struct from its zero value, over the function that sets the field of a key.
module _ {ℓ} {A : Type ℓ} (set : String → Json → A → Option A) where
  set_fields : Fields → A → Option A
  set_fields end a = some a
  set_fields (field k v fs) a = do b ← set k v a; set_fields fs b

  unfoldable pub as_struct : A → Payload → Option A
  unfolding set_fields
  as_struct zero (malformed text) = none
  as_struct zero (json null) = some zero
  as_struct zero (json (obj fs)) = set_fields fs zero
  as_struct zero (json _) = none

unfoldable pub set_user : String → Json → ApiUser → Option ApiUser
set_user k v u =
    if key_is "id" k
    then Option.map (λ x. record u { id = x }) (as_int64 v u.id)
    else if key_is "name" k
    then Option.map (λ x. record u { name = x }) (as_string v u.name)
    else some u

unfoldable pub set_project : String → Json → ApiProject → Option ApiProject
set_project k v p =
    if key_is "id" k then Option.map (λ x. record p { id = x }) (as_int64 v p.id) else some p

unfoldable pub set_task : String → Json → ApiTask → Option ApiTask
set_task k v t =
    if key_is "id" k
    then Option.map (λ x. record t { id = x }) (as_int64 v t.id)
    else if key_is "project_id" k
    then Option.map (λ x. record t { project_id = x }) (as_int64 v t.project_id)
    else if key_is "status" k
    then Option.map (λ x. record t { status = x }) (as_string v t.status)
    else some t

abbrev pub no_task : ApiTask
no_task = record { id = pos 0; project_id = pos 0; status = "" }

unfoldable pub tasks_path : ℤ → String
tasks_path project = text_append "/api/projects/" (text_append (format_int project) "/tasks")

unfoldable pub status_path : ℤ → String
status_path task = text_append "/api/tasks/" (text_append (format_int task) "/status")

-- A map encodes with its keys in order.
unfoldable pub task_json : ℤ → String → String → Json
task_json assignee title description = obj (
    field "assignee_id" (int assignee) (
      field "description" (str description)
        (field "status" (str "todo") (field "title" (str title) end))))

unfoldable pub status_json : String → Json
status_json status = obj (field "status" (str status) end)

unfoldable pub health : Net → ApiClient → Exchange (Unit {0})
health net c = do_request "GET" "/api/health" (λ body. some tt) net no_content c

unfoldable pub create_user : Net → String → String → ApiClient → Exchange ApiUser
create_user net name email c =
    do_request "POST" "/api/users" (as_struct set_user (record { id = pos 0; name = "" })) net
      (json_content (obj (field "email" (str email) (field "name" (str name) end)))) c

unfoldable pub create_project : Net → String → String → ApiClient → Exchange ApiProject
create_project net name description c =
    do_request "POST" "/api/projects" (as_struct set_project (record { id = pos 0 })) net
      (json_content (obj (field "description" (str description) (field "name" (str name) end)))) c

unfoldable pub list_project_tasks : Net → ℤ → ApiClient → Exchange (Unit {0})
list_project_tasks net project c =
    do_request "GET" (tasks_path project) (λ body. some tt) net no_content c

unfoldable pub create_task : Net → ℤ → ℤ → String → String → ApiClient → Exchange ApiTask
create_task net project assignee title description c =
    do_request "POST" (tasks_path project) (as_struct set_task no_task) net
      (json_content (task_json assignee title description)) c

unfoldable pub update_task_status : Net → ℤ → String → ApiClient → Exchange ApiTask
update_task_status net task status c =
    do_request "PATCH" (status_path task) (as_struct set_task no_task) net
      (json_content (status_json status)) c
