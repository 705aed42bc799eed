-- ===== src/Simulator/Client/Arrivals.antt =====
-- internal/simulator/client.go and internal/app/server.go: what the server does with the calls that
-- change tasks.
use Prim.Native.String.{◌++◌ as text_append}
use noapp.Prelude.{
  ℕ, ◌<◌, String, true, false, Option, some, List, ℤ, pos, in_int64, str_eq, trim_space, ◌≡◌, ap,
  ◌⊎◌, inl, inr, All, All-weaken,
}
use noapp.Json.{Json}
use noapp.Runtime.{Runtime}
use noapp.Auth.{Principal}
use noapp.Database.{Database}
use noapp.App.{Reply, Calls, valid_status}
use noapp.App.Handlers.{Orders}
use noapp.App.Server.{
  Request, World, AuthUiConfig, route_of, serve_route, Next, authorize, serve_api,
}
use noapp.App.Tasks.{store_task, store_status}
use noapp.Simulator.Client.{
  OauthConfig, ApiClient, json_content, HttpRequest, Net, plain_request, token_request,
}
use noapp.Simulator.Client.Tokens.{Grant, Reach, Proper, do_request-Proper}
use noapp.Simulator.Client.Requests
use noapp.Simulator.Client.Requests.{tasks_path, status_path, task_json, status_json}
use noapp.Simulator.Client.Routing.{
  received, arrived, tasks_path-pieces, status_path-pieces, create_task-arrives,
  update_task_status-arrives, plain-received, bearer-received,
}

next-≡ :
    (verify : String → Option Principal) (f g : Next) (q : Request) (w : World)
    → ((subject : String) (db : Database) → f subject db ≡ g subject db)
    → authorize verify f q w ≡ authorize verify g q w
next-≡ verify f g q w same =
    ap (λ (next : Next). authorize verify next q w) (λ i subject db. same subject db i)

module _ (rt : Runtime) (orders : Orders) (ui : AuthUiConfig) (verify : String → Option Principal)
    (calls : Calls) (ping : Option String) where
  -- The server that gets the request authorizes it and then does what `handler` does.
  abbrev pub Arrives : String → (String → Database → Database × Reply) → HttpRequest → Type 0
  Arrives base handler r =
      (q : Request) × (received base r ≡ some q)
      × ((w : World) → serve_api rt orders ui verify calls ping q w ≡ authorize verify handler q w)

  -- So it is for each header.
  abbrev Served : String → String → Json → (String → Database → Database × Reply) → Type 0
  Served method path j handler =
      (authorization : String) (w : World)
      → serve_api rt orders ui verify calls ping
          (arrived method path (json_content j) authorization) w
        ≡ authorize verify handler (arrived method path (json_content j) authorization) w

  Proper-Arrives :
      (net : Net) (c : ApiClient) (gs : List Grant) (method path : String) (j : Json)
      (handler : String → Database → Database × Reply)
      → ((authorization : String) (w : World)
          → serve_api rt orders ui verify calls ping
              (arrived method path (json_content j) authorization)
              w
            ≡ authorize verify handler (arrived method path (json_content j) authorization) w)
      → (r : HttpRequest) → Proper net c gs path (plain_request c method path (json_content j)) r
      → (r ≡ token_request net c) ⊎ Arrives c.base_url handler r
  Proper-Arrives net c gs method path j handler served r (inl e) = inl e
  Proper-Arrives net c gs method path j handler served r (inr (inl (_, e))) =
      inr (rw e (_, plain-received c method path j, served ""))
  Proper-Arrives net c gs method path j handler served r (inr (inr (_, t, _, _, e))) =
      inr (rw e (_, bearer-received c method path j t, served (text_append "Bearer " t)))

  tasks-served :
      (n : ℕ) (a : ℤ) (title description : String)
      → 0 < n
      → in_int64 (pos n) ≡ true
      → in_int64 a ≡ true
      → str_eq (trim_space title) "" ≡ false
      → Served "POST" (tasks_path (pos n)) (task_json a title description) (λ subject.
        store_task rt calls subject (pos n) (record {
          title = trim_space title;
          description = trim_space description;
          assignee_id = some a;
          status = "todo";
        }))
  unfolding serve_api serve_route route_of
  tasks-served n a title description p r ra full authorization w =
      rw (serve_api, tasks_path-pieces n r)
        (next-≡ verify _ _ _ w
          λ subject db. create_task-arrives rt calls subject n a title description db p r ra full)

  status-served :
      (n : ℕ) (status : String)
      → 0 < n
      → in_int64 (pos n) ≡ true
      → valid_status status ≡ true
      → Served "PATCH"
          (status_path (pos n))
          (status_json status)
          (λ subject. store_status rt calls subject (pos n) status)
  unfolding serve_api serve_route route_of
  status-served n status p r valid authorization w =
      rw (serve_api, status_path-pieces n r)
        (next-≡ verify _ _ _ w
          λ subject db. update_task_status-arrives rt calls subject n status db p r valid)

  -- From each state that calls lead to: whatever createTask sends is the request for a token, or it
  -- arrives, and the server behind the base URL then does for an authorized subject what createTask
  -- of the server does, past its checks, with the same project, the trimmed texts, the assignee
  -- and the status todo. The project is a positive int64, the assignee an int64, and the title is
  -- not blank.
  pub create_task-Arrives :
      {base : String} {oauth : OauthConfig} {c : ApiClient} {gs : List Grant} (net : Net) (n : ℕ)
      (a : ℤ) (title description : String)
      → Reach base oauth c gs
      → 0 < n
      → in_int64 (pos n) ≡ true
      → in_int64 a ≡ true
      → str_eq (trim_space title) "" ≡ false
      → All
          (λ r.
            (r ≡ token_request net c)
            ⊎ Arrives c.base_url
                (λ subject. store_task rt calls subject (pos n) (record {
                  title = trim_space title;
                  description = trim_space description;
                  assignee_id = some a;
                  status = "todo";
                }))
                r)
          (Requests.create_task net (pos n) a title description c).sent
  unfolding Requests.create_task
  create_task-Arrives net n a title description reach p r ra full =
      All-weaken _ _ _
        (Proper-Arrives _ _ _ "POST" (tasks_path (pos n)) (task_json a title description) _
          (tasks-served n a title description p r ra full))
        (do_request-Proper "POST" (tasks_path (pos n)) _ net _ reach)

  -- From each state that calls lead to: whatever updateTaskStatus sends is the request for a token, or
  -- it arrives, and the server behind the base URL then does for an authorized subject what
  -- updateTaskStatus of the server does, past its checks, with the same task and status. The task is
  -- a positive int64, and the status is one of the three.
  pub update_task_status-Arrives :
      {base : String} {oauth : OauthConfig} {c : ApiClient} {gs : List Grant} (net : Net) (n : ℕ)
      (status : String)
      → Reach base oauth c gs
      → 0 < n
      → in_int64 (pos n) ≡ true
      → valid_status status ≡ true
      → All
          (λ r.
            (r ≡ token_request net c)
            ⊎ Arrives c.base_url (λ subject. store_status rt calls subject (pos n) status) r)
          (Requests.update_task_status net (pos n) status c).sent
  unfolding Requests.update_task_status
  update_task_status-Arrives net n status reach p r valid =
      All-weaken _ _ _
        (Proper-Arrives _ _ _ "PATCH" (status_path (pos n)) (status_json status) _
          (status-served n status p r valid))
        (do_request-Proper "PATCH" (status_path (pos n)) _ net _ reach)
