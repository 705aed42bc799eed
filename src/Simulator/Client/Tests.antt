-- ===== src/Simulator/Client/Tests.antt =====
-- internal/simulator/client.go: the theorems for a client that has fetched a token in its first call.
use noapp.Prelude.{
  format_int, ◌+ℤ◌, wrap_int64, scale, ◌≡◌, refl, ◌⊎◌, Option, some, none, length, List, ◌++◌, ◌∷◌,
  [], pos, str_eq, trim_space, All, arith, if◌then◌else◌,
}
use noapp.Json.{key_is, as_string, as_int64, Payload, json, obj, str, int, field, end}
use noapp.Auth.{Principal}
use noapp.App.{valid_status}
use noapp.App.Handlers.{Orders}
use noapp.App.Server.{AuthUiConfig}
use noapp.App.Tasks.{store_task, store_status}
use noapp.Simulator.Client.{
  OauthConfig, ApiClient, new_api_client, no_content, HttpRequest, HttpAnswer, answered, Net,
  needs_token, access_token, is_cached, take_token, send_with, receive, expiry, as_token_response,
  do_request, plain_request, token_request,
}
use noapp.Simulator.Client.Tokens.{Grant, Reach, created, called, grants, Proper, do_request-Proper}
use noapp.Simulator.Client.Requests
use noapp.Simulator.Client.Requests.{list_project_tasks, tasks_path}
use noapp.Simulator.Client.Arrivals.{Arrives, create_task-Arrives, update_task_status-Arrives}
use noapp.Fixtures.{calls, epoch_runtime}

abbrev oauth : OauthConfig
oauth = record { token_url = "http://id/token"; client_id = "sim"; client_secret = "pw" }

abbrev reply : HttpRequest → HttpAnswer
reply r =
    if str_eq r.url "http://id/token"
    then answered 200
        (json (obj (field "access_token" (str "t1") (field "expires_in" (int (pos 300)) end)))) ""
    else answered 201 (json (obj (field "id" (int (pos 9)) end))) ""

abbrev net : Net
net = record {
  url_error = λ url. none;
  send = reply;
  basic = λ id secret. "Basic";
  now = pos 0;
  granted_at = pos 0;
}

abbrev no_result : Payload → Option (Unit {0})
no_result body = some tt

abbrev first : ApiClient
first = new_api_client "http://web/" oauth

abbrev second : ApiClient
second = (do_request "GET" "/api/users" no_result net no_content first).client

-- What the first call has been granted.
abbrev held : List Grant
held = grants net "/api/users" first ++ []

reached : Reach "http://web/" oauth second held
reached = called {c = first} "GET" "/api/users" no_result net no_content created

-- The token is fetched once.
second_call : length (list_project_tasks net (pos 3) second).sent ≡ 1
unfolding list_project_tasks do_request needs_token access_token is_cached new_api_client take_token
    send_with receive expiry as_token_response plain_request tasks_path format_int token_request
    key_is as_string as_int64 ◌+ℤ◌ wrap_int64 scale
second_call = refl

do_request-Proper_example :
    All
      (Proper net second held "/api/projects"
        (plain_request second "GET" "/api/projects" no_content))
      (do_request "GET" "/api/projects" no_result net no_content second).sent
do_request-Proper_example = do_request-Proper "GET" "/api/projects" no_result net no_content reached

abbrev orders : Orders
orders = record { users = λ us. us; projects = λ ps. ps; tasks = λ ts. ts }

abbrev ui : AuthUiConfig
ui = record { issuer = "issuer"; client_id = "web" }

abbrev ada : Principal
ada = record {
  subject = "ada";
  username = "ada";
  roles = "noapp-editor" ∷ [];
  expires_at = pos 300;
}

create_task-Arrives_example :
    All
      (λ r.
        (r ≡ token_request net second)
        ⊎ Arrives epoch_runtime orders ui
            (λ h. some ada)
            calls
            none
            second.base_url
            (λ subject. store_task epoch_runtime calls subject (pos 3) (record {
              title = trim_space " Ship it";
              description = trim_space "";
              assignee_id = some (pos 2);
              status = "todo";
            }))
            r)
      (Requests.create_task net (pos 3) (pos 2) " Ship it" "" second).sent
unfolding trim_space
create_task-Arrives_example =
    create_task-Arrives epoch_runtime orders ui (λ h. some ada) calls none net 3 (pos 2) " Ship it"
      "" reached (omega arith) refl refl refl

update_task_status-Arrives_example :
    All
      (λ r.
        (r ≡ token_request net second)
        ⊎ Arrives epoch_runtime orders ui
            (λ h. some ada)
            calls
            none
            second.base_url
            (λ subject. store_status epoch_runtime calls subject (pos 7) "done")
            r)
      (Requests.update_task_status net (pos 7) "done" second).sent
unfolding valid_status
update_task_status-Arrives_example =
    update_task_status-Arrives epoch_runtime orders ui (λ h. some ada) calls none net 7 "done"
      reached (omega arith) refl refl
