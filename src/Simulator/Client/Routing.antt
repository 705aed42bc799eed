-- ===== src/Simulator/Client/Routing.antt =====
-- internal/simulator/client.go and internal/app/server.go: where the client's calls arrive in the
-- server of the board.
use Prim.Native.String.{◌++◌ as text_append}
use noapp.Prelude.{
  ℕ, ◌<◌, String, true, false, Option, none, some, List, [], ◌∷◌, ℤ, pos, in_int64, str_eq,
  trim_space, strip_prefix, split_at, format_int, if◌then◌else◌, ◌≡◌, refl, ◌∙◌, arith,
}
use noapp.Prelude.Texts.Digits.{nil-append, append-nil, parse_int-format_int, format_int-no_slash}
use noapp.Prelude.Texts.Pieces.{glue, split_at-append, split_at-whole, strip_prefix-append}
use noapp.Json.{Json, Payload, json, malformed, key_is, as_string, as_int64_pointer}
use noapp.Runtime.{Runtime}
use noapp.Database.{Database}
use noapp.App.{
  Calls, path_id, parsed, decode_json, set_task_input_field, set_status_field, valid_status,
}
use noapp.App.Server.{Request}
use noapp.App.Tasks.{no_input, create_task, update_task_status, store_task, store_status}
use noapp.Simulator.Client.{
  ApiClient, Content, json_content, HttpRequest, plain_request, with_bearer,
}
use noapp.Simulator.Client.Requests.{tasks_path, status_path, task_json, status_json}

abbrev header : String → List (String × String) → String
header name [] = ""
header name ((k, v) ∷ hs) = if str_eq k name then v else header name hs

abbrev pub body_of : Content → Payload
body_of (json_content j) = json j
body_of _ = malformed ""

-- What the server behind the base URL gets of a request.
abbrev pub received : String → HttpRequest → Option Request
received base r = elim (strip_prefix base r.url) [
  | none ↦ none
  | some path ↦ some (record {
    method = r.method;
    path = path;
    authorization = header "Authorization" r.headers;
    request_id = header "X-Request-Id" r.headers;
    body = body_of r.content;
  })
]

-- A number between two texts, cut at the slashes.
number-pieces :
    (n : ℕ) (before after : String)
    → in_int64 (pos n) ≡ true
    → split_at b'/' (text_append before (text_append (format_int (pos n)) after))
      ≡ glue (split_at b'/' before) (glue (format_int (pos n) ∷ []) (split_at b'/' after))
number-pieces n before after r =
    rw
      (
        split_at-append b'/' before (text_append (format_int (pos n)) after),
        split_at-append b'/' (format_int (pos n)) after,
        split_at-whole b'/' (format_int (pos n)) (format_int-no_slash n r),
      )
      refl

pub tasks_path-pieces :
    (n : ℕ)
    → in_int64 (pos n) ≡ true
    → split_at b'/' (tasks_path (pos n))
      ≡ "" ∷ "api" ∷ "projects" ∷ format_int (pos n) ∷ "tasks" ∷ []
unfolding tasks_path split_at
tasks_path-pieces n r =
    number-pieces n "/api/projects/" "/tasks" r
    ∙ rw (append-nil (format_int (pos n)), nil-append (format_int (pos n))) refl

pub status_path-pieces :
    (n : ℕ)
    → in_int64 (pos n) ≡ true
    → split_at b'/' (status_path (pos n))
      ≡ "" ∷ "api" ∷ "tasks" ∷ format_int (pos n) ∷ "status" ∷ []
unfolding status_path split_at
status_path-pieces n r =
    number-pieces n "/api/tasks/" "/status" r
    ∙ rw (append-nil (format_int (pos n)), nil-append (format_int (pos n))) refl

path_id-format_int :
    (n : ℕ) → 0 < n → in_int64 (pos n) ≡ true → path_id (format_int (pos n)) ≡ parsed (pos n)
unfolding path_id
path_id-format_int n p r = ground (arith, parse_int-format_int n p r)

-- What the server makes of a task's fields.
task_input-decodes :
    (calls : Calls) (a : ℤ) (title description : String)
    → in_int64 a ≡ true
    → decode_json set_task_input_field calls no_input (json (task_json a title description))
      ≡ parsed (record {
        title = title;
        description = description;
        assignee_id = some a;
        status = "todo";
      })
unfolding task_json decode_json set_task_input_field key_is as_string as_int64_pointer
task_input-decodes calls a title description r = rw (decode_json, r) refl

status-decodes :
    (calls : Calls) (status : String)
    → decode_json set_status_field calls "" (json (status_json status)) ≡ parsed status
unfolding status_json decode_json set_status_field key_is as_string
status-decodes calls status = refl

module _ (rt : Runtime) (calls : Calls) where
  pub create_task-arrives :
      (subject : String) (n : ℕ) (a : ℤ) (title description : String) (db : Database)
      → 0 < n
      → in_int64 (pos n) ≡ true
      → in_int64 a ≡ true
      → str_eq (trim_space title) "" ≡ false
      → create_task rt calls subject (format_int (pos n)) (json (task_json a title description)) db
        ≡ store_task rt calls subject
            (pos n)
            (record {
              title = trim_space title;
              description = trim_space description;
              assignee_id = some a;
              status = "todo";
            })
            db
  unfolding create_task valid_status
  create_task-arrives subject n a title description db p r ra full =
      rw
        (
          create_task,
          path_id-format_int n p r,
          task_input-decodes calls a title description ra,
          full,
        )
        refl

  pub update_task_status-arrives :
      (subject : String) (n : ℕ) (status : String) (db : Database)
      → 0 < n
      → in_int64 (pos n) ≡ true
      → valid_status status ≡ true
      → update_task_status rt calls subject (format_int (pos n)) (json (status_json status)) db
        ≡ store_status rt calls subject (pos n) status db
  unfolding update_task_status
  update_task_status-arrives subject n status db p r valid =
      rw (update_task_status, path_id-format_int n p r, status-decodes calls status, valid) refl

-- What arrives of a call, with its Authorization header.
abbrev pub arrived : String → String → Content → String → Request
arrived method path content authorization = record {
  method = method;
  path = path;
  authorization = authorization;
  request_id = "";
  body = body_of content;
}

pub plain-received :
    (c : ApiClient) (method path : String) (j : Json)
    → received c.base_url (plain_request c method path (json_content j))
      ≡ some (arrived method path (json_content j) "")
unfolding plain_request
plain-received c method path j = rw (received, strip_prefix-append c.base_url path) refl

pub bearer-received :
    (c : ApiClient) (method path : String) (j : Json) (t : String)
    → received c.base_url (with_bearer t (plain_request c method path (json_content j)))
      ≡ some (arrived method path (json_content j) (text_append "Bearer " t))
unfolding plain_request with_bearer
bearer-received c method path j t = rw (received, strip_prefix-append c.base_url path) refl
