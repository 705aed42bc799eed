-- ===== src/Simulator/Status.antt =====
-- internal/simulator/engine.go: the snapshot that `Status`, `Start`, `Stop` and `SetSpeed` give.
use noapp.Prelude.{
  ℕ, ◌+◌, String, Bool, true, false, List, [], ◌∷◌, ◌++◌, ℤ, length, count_if, count_if-append,
  str_eq, eq_iff, eq_refl, if◌then◌else◌, ◌≡◌, inl, inr, arith, Bool-cases,
}
use noapp.Simulator.{Event, Stats, Team, OwnedTask, OwnedProject, Engine, bump}

-- A count for each key of the map.
pub record Status (F : Type 0) : Type 0 where
  pub running : Bool
  pub phase : String
  pub speed : F
  pub base_rate : F
  pub effective_rate : F
  pub session : String
  pub started : ℤ
  pub teams : ℕ
  pub workers : ℕ
  pub projects : ℕ
  pub tasks : List (String × ℕ)
  pub stats : Stats
  pub recent : List Event

unfoldable pub count_workers : List Team → ℕ
count_workers [] = 0
count_workers (t ∷ ts) = length t.worker_ids + count_workers ts

unfoldable pub count_tasks : List OwnedTask → List (String × ℕ) → List (String × ℕ)
count_tasks [] counts = counts
count_tasks (t ∷ ts) counts = count_tasks ts (bump t.status counts)

unfoldable pub count_projects : List OwnedProject → List (String × ℕ) → List (String × ℕ)
count_projects [] counts = counts
count_projects (p ∷ ps) counts = count_projects ps (count_tasks p.tasks counts)

abbrev pub no_counts : List (String × ℕ)
no_counts = ("todo", 0) ∷ ("in_progress", 0) ∷ ("done", 0) ∷ []

-- statusLocked. `base` is the float baseRate, and `times` the product of two floats.
unfoldable pub status_of : {F : Type 0} → F → (F → F → F) → Engine F → Status F
status_of base times e = record {
  running = e.running;
  phase = e.phase;
  speed = e.speed;
  base_rate = base;
  effective_rate = times base e.speed;
  session = e.session;
  started = e.started;
  teams = length e.teams;
  workers = count_workers e.teams;
  projects = length e.projects;
  tasks = count_projects e.projects no_counts;
  stats = e.stats;
  recent = e.recent;
}

-- The count under a key, 0 for none.
abbrev pub count_at : String → List (String × ℕ) → ℕ
count_at key [] = 0
count_at key ((k, n) ∷ rest) = if str_eq k key then n else count_at key rest

abbrev pub all_tasks : List OwnedProject → List OwnedTask
all_tasks [] = []
all_tasks (p ∷ ps) = p.tasks ++ all_tasks ps

abbrev one_if : Bool → ℕ
one_if true = 1
one_if false = 0

str_eq-other : (s t : String) → str_eq s t ≡ false → str_eq t s ≡ false
str_eq-other s t ne = elim (Bool-cases (str_eq t s)) [
  | inl e ↦ let same : t ≡ s = (eq_iff t s).0 e in absurd (ground (arith, eq_iff s t))
  | inr e ↦ e
]

count_at-bump :
    (key status : String) (counts : List (String × ℕ))
    → count_at key (bump status counts) ≡ one_if (str_eq status key) + count_at key counts
count_at-bump key status [] = ground arith
count_at-bump key status ((k, n) ∷ rest) = elim (Bool-cases (str_eq k status)) [
  | inl e ↦
      let same : k ≡ status = (eq_iff k status).0 e in rw (same, eq_refl status) (ground arith)
  | inr e ↦ elim (Bool-cases (str_eq k key)) [
    | inl f ↦
        let same : k ≡ key = (eq_iff k key).0 f in
        rw (e, ← same, eq_refl k, str_eq-other k status e) (omega arith)
    | inr f ↦ rw (e, f) (count_at-bump key status rest)
  ]
]

count_at-count_tasks :
    (key : String) (ts : List OwnedTask) (counts : List (String × ℕ))
    → count_at key (count_tasks ts counts)
      ≡ count_if (λ t. str_eq t.status key) ts + count_at key counts
unfolding count_tasks
count_at-count_tasks key [] counts = omega arith
count_at-count_tasks key (t ∷ ts) counts = elim (Bool-cases (str_eq t.status key)) [
  | inl e ↦
      ground (
        arith,
        count_at-count_tasks key ts (bump t.status counts),
        count_at-bump key t.status counts,
      )
  | inr e ↦
      ground (
        arith,
        count_at-count_tasks key ts (bump t.status counts),
        count_at-bump key t.status counts,
      )
]

count_at-count_projects :
    (key : String) (ps : List OwnedProject) (counts : List (String × ℕ))
    → count_at key (count_projects ps counts)
      ≡ count_if (λ t. str_eq t.status key) (all_tasks ps) + count_at key counts
unfolding count_projects
count_at-count_projects key [] counts = omega arith
count_at-count_projects key (p ∷ ps) counts = omega (
  arith,
  count_at-count_projects key ps (count_tasks p.tasks counts),
  count_at-count_tasks key p.tasks counts,
  count_if-append (λ t. str_eq t.status key) p.tasks (all_tasks ps),
)

-- In a snapshot, the count under each status is the number of the tasks, over all projects, that
-- have the status.
pub status_counts :
    {F : Type 0} (base : F) (times : F → F → F) (e : Engine F) (key : String)
    → count_at key (status_of base times e).tasks
      ≡ count_if (λ t. str_eq t.status key) (all_tasks e.projects)
unfolding status_of
status_counts base times e key =
    omega (arith, count_at-count_projects key e.projects no_counts, no_counts-zero key)
  where
    no_counts-zero : (key : String) → count_at key no_counts ≡ 0
    no_counts-zero key = ground arith
