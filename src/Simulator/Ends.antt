-- ===== src/Simulator/Ends.antt =====
-- internal/simulator/engine.go: every run ends with the engine stopped.
use noapp.Prelude.{
  ℕ, zero, suc, ◌≡◌, refl, ◌∙◌, String, Bool, true, false, none, List, [], ◌∷◌, Bool-cases,
  Option-cases, inl, inr, arith, ℤ, pos, eq_refl, str_eq,
}
use noapp.Simulator.{Engine, record_action, finish, begin_running}
use noapp.Simulator.Actions.{
  Draw, view_board, add_project, create_project, add_task, create_task, progress_task,
  create_another_project, run_action,
}
use noapp.Simulator.Run.{
  Setup, hire, hire_all, open_project, open_projects, after_hiring, bootstrap, run_actions,
  run_ready, run,
}

module _ {F : Type 0} (d : Draw) where
  create_project-session : (n : ℕ) (e : Engine F) → (create_project d n e).session ≡ e.session
  unfolding create_project add_project record_action
  create_project-session n e = ground arith

  create_task-session : (id : ℤ) (e : Engine F) → (create_task d id e).session ≡ e.session
  unfolding create_task add_task record_action
  create_task-session id e = ground arith

  view_board-session : (e : Engine F) → (view_board d e).session ≡ e.session
  unfolding view_board record_action
  view_board-session e = ground arith

  progress_task-session :
      (from to action : String) (e : Engine F)
      → (progress_task d from to action e).session ≡ e.session
  unfolding progress_task record_action
  progress_task-session from to action e = ground (arith, create_task-session (pos 0) e)

  create_another_project-session : (e : Engine F) → (create_another_project d e).session ≡ e.session
  unfolding create_another_project
  create_another_project-session e =
      let seen = view_board-session e in grind (arith, create_project-session)

  run_action-session : (e : Engine F) → (run_action d e).session ≡ e.session
  unfolding run_action
  run_action-session e = ground (
    arith,
    view_board-session e,
    create_task-session (pos 0) e,
    progress_task-session "todo" "in_progress" "start_task" e,
    progress_task-session "in_progress" "done" "complete_task" e,
    create_another_project-session e,
  )

run_actions-session :
    {F : Type 0} (ds : List Draw) (e : Engine F) → (run_actions ds e).session ≡ e.session
unfolding run_actions
run_actions-session [] e = refl
run_actions-session (d ∷ ds) e = run_actions-session ds (run_action d e) ∙ run_action-session d e

module _ {F : Type 0} (s : Setup) where
  hire-session : (n : ℕ) (e : Engine F) → (hire s n e).session ≡ e.session
  unfolding hire record_action
  hire-session n e = ground arith

  hire_all-session : (k n : ℕ) (e : Engine F) → (hire_all s k n e).0.session ≡ e.session
  unfolding hire_all
  hire_all-session zero n e = refl
  hire_all-session (suc k) n e = elim (Bool-cases (s.alive n)) [
    | inl h ↦ rw (h, hire_all) (hire_all-session k (suc n) (hire s n e) ∙ hire-session n e)
    | inr h ↦ rw (h, hire_all) refl
  ]

  open_project-session : (n : ℕ) (e : Engine F) → (open_project s n e).session ≡ e.session
  unfolding open_project
  open_project-session n e = elim (Option-cases (s.project n).project) [
    | inl h ↦ rw (h, open_project) (create_project-session (s.project n) n e)
    | inr (id, h) ↦
        rw (h, open_project)
          (create_task-session (s.second_task n) id _
            ∙ create_task-session (s.first_task n) id _
            ∙ create_project-session (s.project n) n e)
  ]

  open_projects-session : (k n : ℕ) (e : Engine F) → (open_projects s k n e).0.session ≡ e.session
  unfolding open_projects
  open_projects-session zero n e = refl
  open_projects-session (suc k) n e = elim (Bool-cases (s.still_alive n)) [
    | inl h ↦
        rw (h, open_projects)
          (open_projects-session k (suc n) (open_project s n e) ∙ open_project-session n e)
    | inr h ↦ rw (h, open_projects) refl
  ]

  after_hiring-session : (x : Engine F × Bool) → (after_hiring s x).0.session ≡ x.0.session
  unfolding after_hiring
  after_hiring-session (e, true) = open_projects-session 5 0 e
  after_hiring-session (e, false) = refl

  bootstrap-session : (e : Engine F) → (bootstrap s e).0.session ≡ e.session
  unfolding bootstrap
  bootstrap-session e = after_hiring-session _ ∙ hire_all-session 50 0 _

pub record Stopped {F : Type 0} (e : Engine F) : Type 0 where
  pub idle : e.running ≡ false
  pub phase : e.phase ≡ "stopped"
  pub forgotten : e.cancel ≡ none

begin_running-session :
    {F : Type 0} (session : String) (e : Engine F) → (begin_running session e).session ≡ e.session
unfolding begin_running
begin_running-session session e = ground arith

finish-Stopped :
    {F : Type 0} (session : String) (e : Engine F)
    → e.session ≡ session
    → Stopped (finish session e)
unfolding finish
finish-Stopped session e own =
    let hit : str_eq e.session session ≡ true = rw own (eq_refl session) in
    rw hit (record { idle = refl; phase = refl; forgotten = refl })

run_ready-Stopped :
    {F : Type 0} (session : String) (ds : List Draw) (x : Engine F × Bool)
    → x.0.session ≡ session
    → Stopped (run_ready session ds x)
unfolding run_ready begin_running
run_ready-Stopped session ds (e, true) own =
    finish-Stopped session _ (run_actions-session ds _ ∙ (begin_running-session session e ∙ own))
run_ready-Stopped session ds (e, false) own = finish-Stopped session e own

-- A run ends with the engine stopped: whenever its context ends and whatever the client answers,
-- the run of the session that the engine is in leaves it not running, in the phase "stopped" and
-- with no context.
pub run-Stopped :
    {F : Type 0} (s : Setup) (session : String) (ds : List Draw) (e : Engine F)
    → e.session ≡ session
    → Stopped (run s session ds e)
unfolding run
run-Stopped s session ds e own =
    run_ready-Stopped session ds (bootstrap s e) (bootstrap-session s e ∙ own)
