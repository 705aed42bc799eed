-- ===== src/Simulator/Invariant.antt =====
-- internal/simulator/engine.go: what the books and the teams keep through a run.
use mathlib.Core.Path.{subst}
use noapp.Prelude.{
  sym, ℕ, suc, ◌+◌, ◌≤◌, ◌<◌, ◌≡◌, refl, String, Bool, List, [], ◌∷◌, length, length-append,
  length-take-le, All, All-append, inl, inr, Bool-cases, Option-cases, arith, ℤ, pos, ltb, leb,
}
use noapp.Simulator.{OwnedProject, Engine, bump, record_action}
use noapp.Simulator.Actions.{
  nth, pick, eligible, Draw, view_board, add_project, create_project, add_task, create_task,
  progress_task, create_another_project, run_action, chosen_project, candidates,
}
use noapp.Simulator.Teams.{
  owned, owning, HasRoom, HasRoom-lt, length-update_at, owned-update_at, two-update_at,
  put_task-same, move_task-same, In-nth, eligible-HasRoom,
}

abbrev pub sum_counts : List (String × ℕ) → ℕ
sum_counts [] = 0
sum_counts ((k, n) ∷ rest) = n + sum_counts rest

pub record Inv {F : Type 0} (e : Engine F) : Type 0 where
  pub kept : length e.recent ≤ 30
  pub errors : e.stats.errors ≤ e.stats.total_actions
  pub summed : sum_counts e.stats.actions ≡ e.stats.total_actions
  pub five : length e.teams ≤ 5
  pub two_each : All (λ t. length t.project_ids ≤ 2) e.teams
  pub counted : length e.projects ≡ owned e.teams
  pub indexed : All (λ p. p.team_index < length e.teams) e.projects

sum_counts-bump :
    (key : String) (cs : List (String × ℕ)) → sum_counts (bump key cs) ≡ suc (sum_counts cs)
sum_counts-bump key [] = refl
sum_counts-bump key ((k, n) ∷ cs) = ground (arith, sum_counts-bump key cs)

pub record_action-Inv :
    {F : Type 0} (now : ℤ) (action detail : String) (success : Bool) (e : Engine F)
    → Inv e
    → Inv (record_action now action detail success e)
unfolding record_action
record_action-Inv now action detail success e i = record {
  kept =
      length-take-le 30
        (record { at = now; action = action; detail = detail; success = success } ∷ e.recent);
  errors = let b = i.errors in ground arith;
  summed = let s = i.summed in let b = sum_counts-bump action e.stats.actions in omega arith;
  five = i.five;
  two_each = i.two_each;
  counted = i.counted;
  indexed = i.indexed;
}

-- A change of the projects that keeps their number and their teams.
keep_projects-Inv :
    {F : Type 0} (ps : List OwnedProject) (e : Engine F)
    → length ps ≡ length e.projects
    → All (λ p. p.team_index < length e.teams) ps
    → Inv e
    → Inv (record e { projects = ps })
keep_projects-Inv ps e same all i = record {
  kept = i.kept;
  errors = i.errors;
  summed = i.summed;
  five = i.five;
  two_each = i.two_each;
  counted = let c = i.counted in omega arith;
  indexed = all;
}

module _ {F : Type 0} (d : Draw) where
  add_project-Inv :
      (n : ℕ) (id : ℤ) (e : Engine F) → HasRoom n e.teams → Inv e → Inv (add_project d n id e)
  unfolding add_project owning
  add_project-Inv n id e room i =
      let lt = HasRoom-lt n e.teams room in
      let same = length-update_at n (owning id) e.teams in
      record {
        kept = i.kept;
        errors = i.errors;
        summed = i.summed;
        five = let b = i.five in omega arith;
        two_each = two-update_at n id e.teams room i.two_each;
        counted =
            let c = i.counted in
            let o = owned-update_at n id e.teams lt in
            omega (
              arith,
              length-append e.projects (record { id = id; team_index = n; tasks = [] } ∷ []),
            );
        indexed =
            rw same
              (All-append (λ p. p.team_index < length e.teams) e.projects _ i.indexed (lt, tt));
      }

  view_board-Inv : (e : Engine F) → Inv e → Inv (view_board d e)
  unfolding view_board
  view_board-Inv e i = elim (Option-cases (pick d.board e.projects)) [
    | inl n ↦ rw (n, view_board) i
    | inr (p, n) ↦ rw (n, view_board) (record_action-Inv d.now _ _ d.listed e i)
  ]

  pub create_project-Inv :
      (n : ℕ) (e : Engine F) → HasRoom n e.teams → Inv e → Inv (create_project d n e)
  unfolding create_project
  create_project-Inv n e room i = elim (Option-cases d.project) [
    | inl h ↦ rw (h, create_project) (record_action-Inv d.now _ _ _ e i)
    | inr (id, h) ↦
        rw (h, create_project)
          (record_action-Inv d.now _ _ _ (add_project d n id e) (add_project-Inv n id e room i))
  ]

  add_task-Inv : (p : OwnedProject) (e : Engine F) → Inv e → Inv (add_task d p e)
  unfolding add_task
  add_task-Inv p e i = elim (Option-cases d.task) [
    | inl h ↦ rw (h, add_task) (record_action-Inv d.now _ _ _ e i)
    | inr ((id, status), h) ↦
        let (same, all) = put_task-same (length e.teams) p.id id status e.projects i.indexed in
        rw (h, add_task) (record_action-Inv d.now _ _ _ _ (keep_projects-Inv _ e same all i))
  ]

  pub create_task-Inv : (id : ℤ) (e : Engine F) → Inv e → Inv (create_task d id e)
  unfolding create_task
  create_task-Inv id e i = elim (Option-cases (pick d.board e.projects)) [
    | inl h ↦ rw (h, create_task) i
    | inr (other, h) ↦
        let p = chosen_project id other e.projects in
        elim (Option-cases (nth p.team_index e.teams)) [
          | inl k ↦ rw (h, k, create_task) i
          | inr (t, k) ↦ elim (Option-cases (pick d.worker t.worker_ids)) [
            | inl w ↦ rw (h, k, w, create_task) i
            | inr (worker, w) ↦ rw (h, k, w, create_task) (add_task-Inv p e i)
          ]
        ]
  ]

  progress_task-Inv :
      (from to action : String) (e : Engine F) → Inv e → Inv (progress_task d from to action e)
  unfolding progress_task
  progress_task-Inv from to action e i =
      elim (Option-cases (pick d.choice (candidates from e.projects))) [
        | inl h ↦ rw (h, progress_task) (create_task-Inv (pos 0) e i)
        | inr ((project, task), h) ↦
            let (same, all) = move_task-same (length e.teams) task to e.projects i.indexed in
            elim (Bool-cases d.moved) [
              | inl m ↦
                  rw (h, m, progress_task)
                    (record_action-Inv d.now _ _ _ _ (keep_projects-Inv _ e same all i))
              | inr m ↦ rw (h, m, progress_task) (record_action-Inv d.now _ _ _ e i)
            ]
      ]

  create_another_project-Inv : (e : Engine F) → Inv e → Inv (create_another_project d e)
  unfolding create_another_project
  create_another_project-Inv e i = elim (Bool-cases (leb 10 (length e.projects))) [
    | inl b ↦ rw (b, create_another_project) (view_board-Inv e i)
    | inr b ↦ elim (Option-cases (pick d.choice (eligible 0 e.teams))) [
      | inl h ↦ rw (b, h, create_another_project) (view_board-Inv e i)
      | inr (n, h) ↦
          let (j, own, room) = eligible-HasRoom 0 n e.teams (In-nth _ _ n h) in
          let here : n ≡ j = omega (arith, own) in
          rw (b, h, create_another_project)
            (create_project-Inv n e (subst (λ k. HasRoom k e.teams) (sym here) room) i)
    ]
  ]

  pub run_action-Inv : (e : Engine F) → Inv e → Inv (run_action d e)
  unfolding run_action
  run_action-Inv e i = elim (Bool-cases (ltb d.roll 65)) [
    | inl a ↦ rw (a, run_action) (view_board-Inv e i)
    | inr a ↦ elim (Bool-cases (ltb d.roll 80)) [
      | inl b ↦ rw (a, b, run_action) (create_task-Inv (pos 0) e i)
      | inr b ↦ elim (Bool-cases (ltb d.roll 89)) [
        | inl c ↦ rw (a, b, c, run_action) (progress_task-Inv _ _ _ e i)
        | inr c ↦ elim (Bool-cases (ltb d.roll 96)) [
          | inl k ↦ rw (a, b, c, k, run_action) (progress_task-Inv _ _ _ e i)
          | inr k ↦ rw (a, b, c, k, run_action) (create_another_project-Inv e i)
        ]
      ]
    ]
  ]
