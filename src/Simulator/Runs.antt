-- ===== src/Simulator/Runs.antt =====
-- internal/simulator/engine.go: a run, from its start to its end, is a history of the engine.
use noapp.Prelude.{
  ℕ, zero, suc, ◌+◌, ◌<◌, ◌≡◌, refl, String, Bool, true, false, List, [], ◌∷◌, Bool-cases,
  Option-cases, inl, inr, arith,
}
use mathlib.Core.Path.{subst}
use noapp.Simulator.{Engine}
use noapp.Simulator.Actions.{Draw, run_action}
use noapp.Simulator.Run.{
  Setup, hire, hire_all, open_project, open_projects, after_hiring, bootstrap, run_actions,
  run_ready, run,
}
use noapp.Simulator.Safety.{
  Stage, idle, starting, hiring, opening, looping, names, hires, hired, opens, tasks, begins, acts,
  finishes, Lives, next, Reach,
}

module _ {F : Type 0} (low high : F → Bool) (e0 : Engine F) where
  -- A part of the bootstrap ends in a history, and at the given stage if the context is alive.
  Ends : Stage → Engine F × Bool → Type 0
  Ends s x = Reach low high e0 x.0 × (x.1 ≡ true → Lives low high e0 x.0 s)

  module _ (b : Setup) where
    hire_all-Ends :
        (k i : ℕ) (e : Engine F)
        → k + i ≡ 50
        → Lives low high e0 e (hiring i)
        → Ends (opening 0) (hire_all b k i e)
    unfolding hire_all Ends
    hire_all-Ends zero i e sum l =
        let at_end : Lives low high e0 e (hiring 50) =
          let all : i ≡ 50 = omega arith in subst (λ n. Lives low high e0 e (hiring n)) all l in
        ((_, l), λ h. next at_end hired)
    hire_all-Ends (suc k) i e sum l = elim (Bool-cases (b.alive i)) [
      | inl h ↦
          rw (h, hire_all)
            (hire_all-Ends k (suc i) (hire b i e) (omega arith) (next l (hires i b (omega arith))))
      | inr h ↦ rw (h, hire_all) ((_, l), λ t. absurd (cc))
    ]

    open_project-Lives :
        (i : ℕ) (e : Engine F)
        → i < 5
        → Lives low high e0 e (opening i)
        → Lives low high e0 (open_project b i e) (opening (suc i))
    unfolding open_project
    open_project-Lives i e lt l = elim (Option-cases (b.project i).project) [
      | inl h ↦ rw (h, open_project) (next l (opens i (b.project i) lt))
      | inr (id, h) ↦
          rw (h, open_project)
            (next (next (next l (opens i (b.project i) lt)) (tasks (b.first_task i) id))
              (tasks (b.second_task i) id))
    ]

    open_projects-Ends :
        (k i : ℕ) (e : Engine F)
        → k + i ≡ 5
        → Lives low high e0 e (opening i)
        → Ends (opening 5) (open_projects b k i e)
    unfolding open_projects Ends
    open_projects-Ends zero i e sum l =
        let all : i ≡ 5 = omega arith in
        ((_, l), λ h. subst (λ n. Lives low high e0 e (opening n)) all l)
    open_projects-Ends (suc k) i e sum l = elim (Bool-cases (b.still_alive i)) [
      | inl h ↦
          rw (h, open_projects)
            (open_projects-Ends k (suc i) (open_project b i e) (omega arith)
              (open_project-Lives i e (omega arith) l))
      | inr h ↦ rw (h, open_projects) ((_, l), λ t. absurd (cc))
    ]

    after_hiring-Ends :
        (x : Engine F × Bool) → Ends (opening 0) x → Ends (opening 5) (after_hiring b x)
    unfolding after_hiring Ends
    after_hiring-Ends (e, true) (r, l) = open_projects-Ends 5 0 e refl (l refl)
    after_hiring-Ends (e, false) (r, l) = (r, λ t. absurd (cc))

    bootstrap-Ends :
        (e : Engine F) → Lives low high e0 e starting → Ends (opening 5) (bootstrap b e)
    unfolding bootstrap
    bootstrap-Ends e l = after_hiring-Ends _ (hire_all-Ends 50 0 _ refl (next l (names b.name)))

  run_actions-Lives :
      (ds : List Draw) (e : Engine F)
      → Lives low high e0 e looping
      → Lives low high e0 (run_actions ds e) looping
  unfolding run_actions
  run_actions-Lives [] e l = l
  run_actions-Lives (d ∷ ds) e l = run_actions-Lives ds (run_action d e) (next l (acts d))

  run_ready-Lives :
      (session : String) (ds : List Draw) (x : Engine F × Bool)
      → Ends (opening 5) x
      → Lives low high e0 (run_ready session ds x) idle
  unfolding run_ready Ends
  run_ready-Lives session ds (e, true) (r, l) =
      next (run_actions-Lives ds _ (next (l refl) (begins session))) (finishes session)
  run_ready-Lives session ds (e, false) ((s, l), t) = next l (finishes session)

pub run-Lives :
    {F : Type 0} (low high : F → Bool) (b : Setup) (session : String) (ds : List Draw)
    (e0 e : Engine F)
    → Lives low high e0 e starting
    → Lives low high e0 (run b session ds e) idle
unfolding run
run-Lives low high b session ds e0 e l =
    run_ready-Lives low high e0 session ds _ (bootstrap-Ends low high e0 b e l)
