-- ===== src/Simulator/Run.antt =====
-- internal/simulator/engine.go: `bootstrap` and `run`. Stop and SetSpeed may come between any two of
-- their steps; they change only the phase, the speed and the context.
use Prim.Native.String.{◌++◌ as text_append}
use noapp.Prelude.{
  ℕ, zero, suc, ◌%◌, String, Bool, true, false, Option, none, some, List, [], ◌∷◌, ◌++◌, ℤ, pos,
  format_int, if◌then◌else◌,
}
use noapp.Simulator.{Team, Engine, record_action, begin_running, finish}
use noapp.Simulator.Actions.{update_at, Draw, create_project, create_task, run_action}

-- What the bootstrap meets: the names of the faker, the answers to the creation of the workers with
-- the clock, the draws of the projects and their two tasks, and at each round of the loops whether
-- the context is alive.
pub record Setup : Type 0 where
  pub name : ℕ → String
  pub alive : ℕ → Bool
  pub user : ℕ → Option ℤ
  pub now : ℕ → ℤ
  pub still_alive : ℕ → Bool
  pub project : ℕ → Draw
  pub first_task : ℕ → Draw
  pub second_task : ℕ → Draw
  pub alive_at_end : Bool

abbrev pub fresh_teams : (ℕ → String) → ℕ → ℕ → List Team
fresh_teams name zero i = []
fresh_teams name (suc n) i =
    record { name = name i; worker_ids = []; project_ids = [] } ∷ fresh_teams name n (suc i)

module _ {F : Type 0} (s : Setup) where
  unfoldable pub hire : ℕ → Engine F → Engine F
  hire i e = elim (s.user i) [
    | none ↦ record_action (s.now i) "create_user" "Could not create a simulated worker" false e
    | some id ↦
        record_action (s.now i) "create_user"
          (text_append "Worker " (
            text_append (format_int id)
              (text_append " joined team " (format_int (pos (suc (i % 5)))))))
          true
          (record e {
            teams =
                update_at (i % 5) (λ t. record t { worker_ids = t.worker_ids ++ id ∷ [] }) e.teams;
          })
  ]

  -- The loop over the workers; false if the context has ended.
  unfoldable pub hire_all : ℕ → ℕ → Engine F → Engine F × Bool
  hire_all zero i e = (e, true)
  hire_all (suc n) i e = if s.alive i then hire_all n (suc i) (hire i e) else (e, false)

  unfoldable pub open_project : ℕ → Engine F → Engine F
  open_project i e =
      let e' = create_project (s.project i) i e in
      elim (s.project i).project [
        | none ↦ e'
        | some id ↦ create_task (s.second_task i) id (create_task (s.first_task i) id e')
      ]

  unfoldable pub open_projects : ℕ → ℕ → Engine F → Engine F × Bool
  open_projects zero i e = (e, s.alive_at_end)
  open_projects (suc n) i e =
      if s.still_alive i then open_projects n (suc i) (open_project i e) else (e, false)

  unfoldable pub after_hiring : Engine F × Bool → Engine F × Bool
  after_hiring (e, true) = open_projects 5 0 e
  after_hiring (e, false) = (e, false)

  unfoldable pub bootstrap : Engine F → Engine F × Bool
  bootstrap e = after_hiring (hire_all 50 0 (record e { teams = fresh_teams s.name 5 0 }))

-- The loop, until the context ends.
unfoldable pub run_actions : {F : Type 0} → List Draw → Engine F → Engine F
run_actions [] e = e
run_actions (d ∷ ds) e = run_actions ds (run_action d e)

unfoldable pub run_ready : {F : Type 0} → String → List Draw → Engine F × Bool → Engine F
run_ready session ds (e, true) = finish session (run_actions ds (begin_running session e))
run_ready session ds (e, false) = finish session e

unfoldable pub run : {F : Type 0} → Setup → String → List Draw → Engine F → Engine F
run s session ds e = run_ready session ds (bootstrap s e)
