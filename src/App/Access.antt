-- ===== src/App/Access.antt =====
-- internal/app/server.go: who may change the database through the routes under /api/.

use noapp.Prelude.{
  ◌≡◌, refl, String, Bool, true, false, ◌&&◌, ◌||◌, Option, some, inl, inr, ◌⊎◌, Bool-cases,
  Option-cases, arith, str_eq, eq_iff, split_at,
}
use noapp.Json.{Payload}
use noapp.Runtime.{Runtime}
use noapp.Database.{Database}
use noapp.Auth.{Principal, has_role}
use noapp.App.{Calls}
use noapp.App.Handlers.{Orders}
use noapp.App.Server.{
  Request, World, AuthUiConfig, Route, users, projects, project_tasks, task_status, unknown, is_get,
  is_open, is_auth_config, route_of, serve_route, required_role, Next, authorize, serve_api,
}

abbrev is_safe : String → Bool
is_safe method = str_eq method "GET" || (str_eq method "HEAD" || str_eq method "OPTIONS")

-- A method that is safe and not GET or HEAD is OPTIONS, for which nothing is registered.
options_only :
    (method : String)
    → is_safe method ≡ true
    → is_get method ≡ false
    → (str_eq method "POST" ≡ false) × (str_eq method "PATCH" ≡ false)
options_only method safe other =
    let own : method ≡ "OPTIONS" = (eq_iff method "OPTIONS").0 (ground arith) in rw own (refl, refl)

no_patch : (method : String) → is_get method ≡ true → str_eq method "PATCH" ≡ false
no_patch method e = elim (Bool-cases (str_eq method "GET")) [
  | inl g ↦ rw ((eq_iff method "GET").0 g) refl
  | inr g ↦ let own : method ≡ "HEAD" = (eq_iff method "HEAD").0 (ground arith) in rw own refl
]

module _ (rt : Runtime) (orders : Orders) (calls : Calls) (subject method : String)
    (body : Payload) where
  serve_route-read :
      (route : Route) (db : Database)
      → is_safe method ≡ true
      → (serve_route rt orders calls subject method body route db).0 ≡ db
  unfolding serve_route
  serve_route-read users db safe = elim (Bool-cases (is_get method)) [
    | inl g ↦ rw (g, serve_route) refl
    | inr g ↦ rw (g, (options_only method safe g).0, serve_route) refl
  ]
  serve_route-read projects db safe = elim (Bool-cases (is_get method)) [
    | inl g ↦ rw (g, serve_route) refl
    | inr g ↦ rw (g, (options_only method safe g).0, serve_route) refl
  ]
  serve_route-read (project_tasks id) db safe = elim (Bool-cases (is_get method)) [
    | inl g ↦ rw (g, serve_route) refl
    | inr g ↦ rw (g, (options_only method safe g).0, serve_route) refl
  ]
  serve_route-read (task_status id) db safe = elim (Bool-cases (is_get method)) [
    | inl g ↦ rw (no_patch method g, serve_route) refl
    | inr g ↦ rw ((options_only method safe g).1, serve_route) refl
  ]
  serve_route-read unknown db safe = refl

-- A request that may change the database names its principal.
abbrev pub IsEditor : (String → Option Principal) → Request → Type 0
IsEditor verify r =
    (p : Principal) × (verify r.authorization ≡ some p) × (has_role p "noapp-editor" ≡ true)

authorize-Access :
    (verify : String → Option Principal) (next : Next) (r : Request) (w : World)
    → ((subject : String) → is_safe r.method ≡ true → (next subject w.db).0 ≡ w.db)
    → ((authorize verify next r w).0.db ≡ w.db) ⊎ IsEditor verify r
unfolding authorize required_role
authorize-Access verify next r w reads = elim (Option-cases (verify r.authorization)) [
  | inl n ↦ inl (rw (n, authorize) refl)
  | inr (p, v) ↦ elim (Bool-cases (is_safe r.method)) [
    | inl safe ↦ elim (Bool-cases (has_role p "noapp-viewer")) [
      | inl h ↦ inl (rw (v, safe, h, authorize, required_role) (reads p.subject safe))
      | inr h ↦ inl (rw (v, safe, h, authorize, required_role) refl)
    ]
    | inr safe ↦ elim (Bool-cases (has_role p "noapp-editor")) [
      | inl h ↦ inr (p, v, h)
      | inr h ↦ inl (rw (v, safe, h, authorize, required_role) refl)
    ]
  ]
]

-- A request under /api/ leaves the database as it is, unless its Authorization header verifies to a
-- principal with the role noapp-editor.
pub serve_api-Access :
    (rt : Runtime) (orders : Orders) (ui : AuthUiConfig) (verify : String → Option Principal)
    (calls : Calls) (ping : Option String) (r : Request) (w : World)
    → ((serve_api rt orders ui verify calls ping r w).0.db ≡ w.db) ⊎ IsEditor verify r
unfolding serve_api
serve_api-Access rt orders ui verify calls ping r w =
    let segments = split_at b'/' r.path in
    elim (Bool-cases (is_get r.method && is_open "health" segments)) [
      | inl h ↦ inl (rw (h, serve_api) refl)
      | inr h ↦ elim (Bool-cases (is_get r.method && is_auth_config segments)) [
        | inl c ↦ inl (rw (h, c, serve_api) refl)
        | inr c ↦
            rw (h, c, serve_api)
              (authorize-Access verify _ r w (λ subject safe.
                serve_route-read rt orders calls subject r.method r.body (route_of segments) w.db
                  safe))
      ]
    ]
