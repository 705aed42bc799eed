-- ===== src/Simulator.antt =====
-- internal/simulator/engine.go: the engine of the load simulator. This file holds its state, `Start`,
-- `Stop`, `SetSpeed`, and the books that `record` keeps. A speed is a float64, which is an argument.
pub mod Client
pub mod Status
pub mod Server
pub mod Actions
pub mod Run
pub mod Teams
pub mod Invariant
pub mod Bootstrap
pub mod Safety
pub mod Runs
pub mod Ends
pub mod Tests
use noapp.Prelude.{
  ℕ, zero, suc, ◌+◌, String, Bool, true, false, Option, none, some, List, [], ◌∷◌, map, take,
  length, ℤ, pos, str_eq, ◌||◌, ◌&&◌, if◌then◌else◌,
}

pub record Event : Type 0 where
  pub at : ℤ
  pub action : String
  pub detail : String
  pub success : Bool

pub record Stats : Type 0 where
  pub total_actions : ℕ
  pub errors : ℕ
  pub actions : List (String × ℕ)

pub record Team : Type 0 where
  pub name : String
  pub worker_ids : List ℤ
  pub project_ids : List ℤ

pub record OwnedTask : Type 0 where
  pub id : ℤ
  pub status : String

pub record OwnedProject : Type 0 where
  pub id : ℤ
  pub team_index : ℕ
  pub tasks : List OwnedTask

-- `cancel` is none for nil, or says whether the run's context is cancelled.
pub record Engine (F : Type 0) : Type 0 where
  pub running : Bool
  pub phase : String
  pub speed : F
  pub cancel : Option Bool
  pub session : String
  pub started : ℤ
  pub teams : List Team
  pub projects : List OwnedProject
  pub stats : Stats
  pub recent : List Event

abbrev pub no_stats : Stats
no_stats = record { total_actions = 0; errors = 0; actions = [] }

-- The map of counters: the entry of the key, or a new one.
abbrev pub bump : String → List (String × ℕ) → List (String × ℕ)
bump key [] = (key, 1) ∷ []
bump key ((k, n) ∷ rest) = if str_eq k key then (k, suc n) ∷ rest else (k, n) ∷ bump key rest

abbrev pub count_action : String → Bool → Stats → Stats
count_action action success s = record {
  total_actions = suc s.total_actions;
  errors = if success then s.errors else suc s.errors;
  actions = bump action s.actions;
}

module _ {F : Type 0} where
  unfoldable pub new_engine : F → Engine F
  new_engine one = record {
    running = false;
    phase = "stopped";
    speed = one;
    cancel = none;
    session = "";
    started = pos 0;
    teams = [];
    projects = [];
    stats = no_stats;
    recent = [];
  }

  -- The newest event stands first, and thirty are kept.
  unfoldable pub record_action : ℤ → String → String → Bool → Engine F → Engine F
  record_action now action detail success e = record e {
    stats = count_action action success e.stats;
    recent =
        take 30
          (record { at = now; action = action; detail = detail; success = success } ∷ e.recent);
  }

  -- Whether it has begun a run: an unhealthy target and a run that goes on change nothing.
  unfoldable pub start : Option String → String → ℤ → Engine F → Engine F × Bool
  start (some text) session now e = (e, false)
  start none session now e = if e.running then (e, false) else (
    record e {
      running = true;
      phase = "initializing";
      cancel = some false;
      session = session;
      started = now;
      teams = [];
      projects = [];
      stats = no_stats;
      recent = [];
    },
    true,
  )

  unfoldable pub stop : Engine F → Engine F
  stop e =
      if e.running
      then elim e.cancel [
        | none ↦ e
        | some gone ↦ record e { phase = "stopping"; cancel = some true }
      ]
      else e

  -- `low` and `high` are the tests `speed < 0.25` and `speed > 10`.
  unfoldable pub set_speed : (F → Bool) → (F → Bool) → F → Engine F → Engine F × Bool
  set_speed low high speed e =
      if low speed || high speed then (e, false) else (record e { speed = speed }, true)

  -- The deferred end of `run`.
  unfoldable pub finish : String → Engine F → Engine F
  finish session e =
      if str_eq e.session session
      then record e { running = false; phase = "stopped"; cancel = none }
      else e

  unfoldable pub begin_running : String → Engine F → Engine F
  begin_running session e = if str_eq e.session session then record e { phase = "running" } else e
