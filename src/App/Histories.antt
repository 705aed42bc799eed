-- ===== src/App/Histories.antt =====
-- internal/app/server.go: what every history of requests under /api/ keeps.
-- request keeps.

use noapp.Prelude.{
  ℕ, ◌≡◌, String, ◌&&◌, Option, List, [], ◌∷◌, inl, inr, Bool-cases, Option-cases, arith, ℤ, str_eq,
  split_at, if◌then◌else◌,
}
use noapp.Json.{Payload}
use noapp.Runtime.{Runtime}
use noapp.Database.{Database}
use noapp.Auth.{Principal, has_role}
use noapp.App.{Reply, Calls}
use noapp.App.Handlers.{Orders, create_user, store_user, create_project, store_project}
use noapp.App.Server.{
  Request, World, AuthUiConfig, Route, users, projects, project_tasks, task_status, unknown, is_get,
  is_open, is_auth_config, route_of, serve_route, required_role, Next, authorize, serve_api,
}
use noapp.App.Recording.{Outcome, unchanged, stored, unanswered}
use noapp.App.Atomic.{create_task-Outcome, update_task_status-Outcome}
use noapp.App.Versions.{Inv, Created-Inv, Changed-Inv}

-- The tables that hold the tasks and their events.
abbrev SameTasks : Database → Database → Type 0
SameTasks db db' =
    (db'.tasks ≡ db.tasks) × (db'.outbox ≡ db.outbox) × (db'.next_task ≡ db.next_task)

module _ (rt : Runtime) (calls : Calls) where
  create_user-SameTasks :
      (body : Payload) (db : Database) → SameTasks db (create_user rt calls body db).0
  unfolding create_user store_user
  create_user-SameTasks body db = ground arith

  create_project-SameTasks :
      (body : Payload) (db : Database) → SameTasks db (create_project rt calls body db).0
  unfolding create_project store_project
  create_project-SameTasks body db = ground arith

keep_tasks-Inv : (seed : ℤ → ℕ) (db db' : Database) → SameTasks db db' → Inv seed db → Inv seed db'
keep_tasks-Inv seed db db' (tasks, outbox, next) inv = record {
  versions = rw (tasks, outbox) inv.versions;
  below = rw (tasks, next) inv.below;
  fresh = rw (next, outbox) inv.fresh;
}

Outcome-Inv :
    (seed : ℤ → ℕ) (status : ℕ) (Change : Database → Type 0) (db : Database)
    (end : Database × Reply)
    → ((db' : Database) → Change db' → Inv seed db → Inv seed db')
    → Outcome status Change db end
    → Inv seed db
    → Inv seed end.0
Outcome-Inv seed status Change db end keeps (unchanged reply e) inv = inv
Outcome-Inv seed status Change db end keeps (stored db' reply c e) inv = keeps db' c inv
Outcome-Inv seed status Change db end keeps (unanswered db' reply c e) inv = keeps db' c inv

module _ (seed : ℤ → ℕ) (rt : Runtime) (orders : Orders) (calls : Calls) (subject method : String)
    (body : Payload) (db : Database) where
  get_or_post-Inv :
      (reply other : Reply) (posted : Database × Reply)
      → Inv seed db
      → Inv seed posted.0
      → Inv seed
          (if is_get method
            then (db, reply)
            else if str_eq method "POST"
            then posted
            else (db, other)).0
  get_or_post-Inv reply other posted inv after = elim (Bool-cases (is_get method)) [
    | inl g ↦ rw g inv
    | inr g ↦ elim (Bool-cases (str_eq method "POST")) [
      | inl p ↦ rw (g, p) after
      | inr p ↦ rw (g, p) inv
    ]
  ]

  serve_route-Inv :
      (route : Route)
      → Inv seed db
      → Inv seed (serve_route rt orders calls subject method body route db).0
  unfolding serve_route
  serve_route-Inv users inv =
      get_or_post-Inv _ _ _ inv
        (keep_tasks-Inv seed db _ (create_user-SameTasks rt calls body db) inv)
  serve_route-Inv projects inv =
      get_or_post-Inv _ _ _ inv
        (keep_tasks-Inv seed db _ (create_project-SameTasks rt calls body db) inv)
  serve_route-Inv (project_tasks id) inv = get_or_post-Inv _ _ _ inv (
      Outcome-Inv seed 201 _ db _ (λ db'. Created-Inv seed rt calls subject id body db db')
        (create_task-Outcome rt calls subject id body db) inv)
  serve_route-Inv (task_status id) inv = elim (Bool-cases (str_eq method "PATCH")) [
    | inr p ↦ rw (p, serve_route) inv
    | inl p ↦
        rw (p, serve_route)
          (Outcome-Inv seed 200 _ db _ (λ db'. Changed-Inv seed rt calls subject id body db db')
            (update_task_status-Outcome rt calls subject id body db) inv)
  ]
  serve_route-Inv unknown inv = inv

authorize-Inv :
    (seed : ℤ → ℕ) (verify : String → Option Principal) (next : Next) (r : Request) (w : World)
    → ((subject : String) → Inv seed (next subject w.db).0)
    → Inv seed w.db
    → Inv seed (authorize verify next r w).0.db
unfolding authorize
authorize-Inv seed verify next r w keeps inv = elim (Option-cases (verify r.authorization)) [
  | inl n ↦ rw (n, authorize) inv
  | inr (p, v) ↦ elim (Bool-cases (has_role p (required_role r.method))) [
    | inl h ↦ rw (v, h, authorize) (keeps p.subject)
    | inr h ↦ rw (v, h, authorize) inv
  ]
]

-- One request with what it meets.
pub record Exchange : Type 0 where
  pub calls : Calls
  pub ping : Option String
  pub verify : String → Option Principal
  pub request : Request

module _ (rt : Runtime) (orders : Orders) (ui : AuthUiConfig) where
  abbrev pub serve_all : List Exchange → World → World
  serve_all [] w = w
  serve_all (x ∷ xs) w = serve_all xs (serve_api rt orders ui x.verify x.calls x.ping x.request w).0

  serve_api-Inv :
      (seed : ℤ → ℕ) (x : Exchange) (w : World)
      → Inv seed w.db
      → Inv seed (serve_api rt orders ui x.verify x.calls x.ping x.request w).0.db
  unfolding serve_api
  serve_api-Inv seed x w inv =
      let r = x.request in
      let segments = split_at b'/' r.path in
      elim (Bool-cases (is_get r.method && is_open "health" segments)) [
        | inl h ↦ rw (h, serve_api) inv
        | inr h ↦ elim (Bool-cases (is_get r.method && is_auth_config segments)) [
          | inl c ↦ rw (h, c, serve_api) inv
          | inr c ↦
              rw (h, c, serve_api)
                (authorize-Inv seed x.verify _ r w
                  (λ subject.
                    serve_route-Inv seed rt orders x.calls subject r.method r.body w.db
                      (route_of segments) inv)
                  inv)
        ]
      ]

  -- Let the version of each task be its seed plus the number of the events about it in the outbox,
  -- let its identifier be one that the sequence has given, and let the identifiers that the
  -- sequence has yet to give have neither seed nor event. Then all this holds after any requests
  -- under /api/, whoever makes them and whatever errors they meet.
  pub serve_all-Inv :
      (seed : ℤ → ℕ) (xs : List Exchange) (w : World) → Inv seed w.db → Inv seed (serve_all xs w).db
  serve_all-Inv seed [] w inv = inv
  serve_all-Inv seed (x ∷ xs) w inv = serve_all-Inv seed xs _ (serve_api-Inv seed x w inv)
