-- ===== src/App/Tests.antt =====
-- internal/app/server.go: the theorems at a board with one user, one project and one seeded task.
use mathlib.Core.Path.{subst}
use noapp.Prelude.{
  true, ℕ, ◌+◌, ◌<◌, ◌≡◌, refl, ◌⊎◌, inl, inr, String, Option, none, some, [], ◌∷◌, ℤ, pos, eq_ℤ,
  ◌+ℤ◌, split_at, parse_int, if◌then◌else◌, count_if, arith,
}
use noapp.Json.{str, obj, field, end, Payload, json, key_is, as_string}
use noapp.Database.{TaskRow, OutboxRow}
use noapp.Auth.{Principal, has_role}
use noapp.App.{Reply, path_id, decode_json, set_status_field, valid_status, write_json, write_error}
use noapp.Events.{encode_event, encode_task, new_task_event}
use noapp.Events.Insert.{insert_outbox, new_row, row_allowed}
use noapp.App.Tasks.{
  create_task, update_task_status, store_status, begun, status_changed, update_task, with_status,
  change_task, record_event, scan_task, commit_task,
}
use noapp.App.Handlers.{Orders}
use noapp.App.Server.{
  Request, World, AuthUiConfig, serve_api, authorize, required_role, serve_route, route_of, is_api,
}
use noapp.App.Recording.{Outcome}
use noapp.App.Atomic.{Created, Changed, create_task-Outcome, update_task_status-Outcome}
use noapp.Runtime.{ok}
use noapp.Auth.Verify
use noapp.App.Verified.{serve_verified, serve_verified-Accepted}
use noapp.Auth.Sound.{Accepted}
use noapp.App.Versions.{Inv}
use noapp.App.Histories.{Exchange, serve_all, serve_all-Inv}
use noapp.Fixtures.{board, calls, epoch_runtime, token_calls, verifier}

abbrev new_body : Payload
new_body = json (obj (field "title" (str " Ship it ") end))

abbrev done_body : Payload
done_body = json (obj (field "status" (str "done") end))

create_task-Outcome_example :
    Outcome 201
      (Created epoch_runtime calls "ada" "1" new_body board)
      board
      (create_task epoch_runtime calls "ada" "1" new_body board)
create_task-Outcome_example = create_task-Outcome epoch_runtime calls "ada" "1" new_body board

update_task_status-Outcome_example :
    Outcome 200
      (Changed epoch_runtime calls "ada" "1" done_body board)
      board
      (update_task_status epoch_runtime calls "ada" "1" done_body board)
update_task_status-Outcome_example =
    update_task_status-Outcome epoch_runtime calls "ada" "1" done_body board

abbrev orders : Orders
orders = record { users = λ us. us; projects = λ ps. ps; tasks = λ ts. ts }

abbrev ui : AuthUiConfig
ui = record { issuer = "issuer"; client_id = "web" }

abbrev editor : Principal
editor = record {
  subject = "ada";
  username = "ada";
  roles = "noapp-editor" ∷ [];
  expires_at = pos 100;
}

abbrev verify : String → Option Principal
verify authorization = some editor

abbrev patch : Request
patch = record {
  method = "PATCH";
  path = "/api/tasks/1/status";
  authorization = "Bearer t";
  request_id = "";
  body = done_body;
}

abbrev world : World
world = record { db = board; decisions = [] }

abbrev signed_patch : Request
signed_patch = record patch { authorization = "Bearer h.c.s" }

abbrev no_files : Request → Reply
no_files r = write_json 404 none

serve_verified-Accepted_example :
    let end =
      serve_verified epoch_runtime orders ui calls none no_files token_calls signed_patch verifier
        world in
    (end.world.db ≡ board)
    ⊎ ((is_api signed_patch.path ≡ true)
        × ((p : Principal) × (Verify.verify token_calls "Bearer h.c.s" verifier
              ≡ (end.verifier, ok p))
            × Accepted token_calls "Bearer h.c.s" verifier end.verifier p
            × (has_role p "noapp-editor" ≡ true)))
serve_verified-Accepted_example =
    serve_verified-Accepted epoch_runtime orders ui calls none no_files token_calls signed_patch
      verifier world

abbrev seed : ℤ → ℕ
seed id = if eq_ℤ id (pos 1) then 1 else 0

board-Inv : Inv seed board
board-Inv = record {
  versions = λ t i. elim i [
    | inl same ↦
        subst
          (λ (x : TaskRow).
            x.version ≡ pos (seed x.id + count_if (λ (r : OutboxRow). eq_ℤ r.aggregate_id x.id) []))
          same refl
    | inr nothing ↦ absurd nothing
  ];
  below = λ t i. elim i [
    | inl same ↦
        subst (λ (x : TaskRow). (n : ℕ) × (n < 2) × (x.id ≡ pos n)) same (1, omega arith, refl)
    | inr nothing ↦ absurd nothing
  ];
  fresh = λ n le. ground arith;
}

abbrev exchange : Exchange
exchange = record { calls = calls; ping = none; verify = verify; request = patch }

serve_all-Inv_example : Inv seed (serve_all epoch_runtime orders ui (exchange ∷ []) world).db
serve_all-Inv_example = serve_all-Inv epoch_runtime orders ui seed (exchange ∷ []) world board-Inv

-- The change of status is made, and its event waits in the outbox.
serves_patch : (serve_api epoch_runtime orders ui verify calls none patch world).1.status ≡ 200
unfolding serve_api authorize has_role required_role serve_route route_of split_at
    update_task_status path_id parse_int decode_json set_status_field key_is as_string valid_status
    store_status begun status_changed update_task with_status change_task record_event scan_task
    commit_task insert_outbox new_row row_allowed encode_event encode_task new_task_event ◌+ℤ◌
    write_json write_error
serves_patch = refl

abbrev patched : Reply
patched = write_json 200 none
