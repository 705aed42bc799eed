-- ===== src/Simulator/Actions.antt =====
-- internal/simulator/engine.go: `bootstrap` and the actions. What the client answers, the texts of
-- the faker and the random numbers are arguments; the engine's state does not depend on the requests.
use Prim.Native.String.{◌++◌ as text_append}
use noapp.Prelude.{
  ℕ, zero, suc, ◌%◌, String, Bool, true, false, Option, none, some, List, [], ◌∷◌, ◌++◌, length, ℤ,
  pos, eq_ℤ, ltb, leb, ◌&&◌, str_eq, format_int, if◌then◌else◌,
}
use noapp.Simulator.{Team, OwnedTask, OwnedProject, Engine, record_action}

abbrev pub nth {ℓ} : {A : Type ℓ} → ℕ → List A → Option A
nth n [] = none
nth zero (x ∷ xs) = some x
nth (suc n) (x ∷ xs) = nth n xs

-- xs[rand.IntN(len(xs))], and none of an empty list.
abbrev pub pick {ℓ} : {A : Type ℓ} → ℕ → List A → Option A
pick n xs = nth (n % length xs) xs

-- An index out of range would stop the program.
abbrev pub update_at : ℕ → (Team → Team) → List Team → List Team
update_at n f [] = []
update_at zero f (t ∷ ts) = f t ∷ ts
update_at (suc n) f (t ∷ ts) = t ∷ update_at n f ts

abbrev number : ℕ → String
number n = format_int (pos n)

abbrev put : ℤ → String → List OwnedTask → List OwnedTask
put id status [] = record { id = id; status = status } ∷ []
put id status (t ∷ ts) =
    if eq_ℤ t.id id then record { id = id; status = status } ∷ ts else t ∷ put id status ts

-- The first project of that identifier gets the task.
abbrev pub put_task : ℤ → ℤ → String → List OwnedProject → List OwnedProject
put_task project id status [] = []
put_task project id status (p ∷ ps) =
    if eq_ℤ p.id project
    then record p { tasks = put id status p.tasks } ∷ ps
    else p ∷ put_task project id status ps

abbrev pub has_task : ℤ → List OwnedTask → Bool
has_task id [] = false
has_task id (t ∷ ts) = if eq_ℤ t.id id then true else has_task id ts

-- The first project that has the task.
abbrev pub move_task : ℤ → String → List OwnedProject → List OwnedProject
move_task id status [] = []
move_task id status (p ∷ ps) =
    if has_task id p.tasks
    then record p { tasks = put id status p.tasks } ∷ ps
    else p ∷ move_task id status ps

abbrev pub with_status : String → ℤ → List OwnedTask → List (ℤ × ℤ)
with_status from project [] = []
with_status from project (t ∷ ts) =
    if str_eq t.status from
    then (project, t.id) ∷ with_status from project ts
    else with_status from project ts

abbrev pub candidates : String → List OwnedProject → List (ℤ × ℤ)
candidates from [] = []
candidates from (p ∷ ps) = with_status from p.id p.tasks ++ candidates from ps

abbrev requested : ℤ → OwnedProject → List OwnedProject → OwnedProject
requested id other [] = other
requested id other (p ∷ ps) = if eq_ℤ p.id id then p else requested id other ps

abbrev pub chosen_project : ℤ → OwnedProject → List OwnedProject → OwnedProject
chosen_project id other ps = if eq_ℤ id (pos 0) then other else requested id other ps

-- len(group.ProjectIDs) < 2 && len(group.WorkerIDs) > 0
abbrev pub may_own : Team → Bool
may_own t = ltb (length t.project_ids) 2 && ltb 0 (length t.worker_ids)

abbrev pub eligible : ℕ → List Team → List ℕ
eligible n [] = []
eligible n (t ∷ ts) = if may_own t then n ∷ eligible (suc n) ts else eligible (suc n) ts

-- What one action meets: random numbers, the clock, and the answers of the client.
pub record Draw : Type 0 where
  pub roll : ℕ
  pub board : ℕ
  pub worker : ℕ
  pub choice : ℕ
  pub now : ℤ
  pub listed : Bool
  pub project : Option ℤ
  pub task : Option (ℤ × String)
  pub moved : Bool

module _ {F : Type 0} (d : Draw) where
  unfoldable pub view_board : Engine F → Engine F
  view_board e = elim (pick d.board e.projects) [
    | none ↦ e
    | some p ↦
        record_action d.now "view_board"
          (text_append "Viewed the board for project " (format_int p.id)) d.listed e
  ]

  unfoldable pub add_project : ℕ → ℤ → Engine F → Engine F
  add_project i id e = record e {
    projects = e.projects ++ record { id = id; team_index = i; tasks = [] } ∷ [];
    teams = update_at i (λ t. record t { project_ids = t.project_ids ++ id ∷ [] }) e.teams;
  }

  unfoldable pub create_project : ℕ → Engine F → Engine F
  create_project i e = elim d.project [
    | none ↦
        record_action d.now "create_project"
          (text_append "Team " (text_append (number (suc i)) " could not create a project")) false e
    | some id ↦
        record_action d.now "create_project"
          (text_append "Team "
            (text_append (number (suc i)) (text_append " created project " (format_int id))))
          true (add_project i id e)
  ]

  unfoldable pub add_task : OwnedProject → Engine F → Engine F
  add_task p e = elim d.task [
    | none ↦
        record_action d.now "create_task"
          (text_append "Could not add a task to project " (format_int p.id)) false e
    | some (id, status) ↦
        record_action d.now "create_task"
          (text_append "Added task "
            (text_append (format_int id) (text_append " to project " (format_int p.id))))
          true (record e { projects = put_task p.id id status e.projects })
  ]

  unfoldable pub create_task : ℤ → Engine F → Engine F
  create_task id e = elim (pick d.board e.projects) [
    | none ↦ e
    | some other ↦
        let p = chosen_project id other e.projects in
        elim (nth p.team_index e.teams) [
          | none ↦ e
          | some t ↦ elim (pick d.worker t.worker_ids) [ none ↦ e | some worker ↦ add_task p e ]
        ]
  ]

  unfoldable pub progress_task : String → String → String → Engine F → Engine F
  progress_task from to action e = elim (pick d.choice (candidates from e.projects)) [
    | none ↦ create_task (pos 0) e
    | some (project, task) ↦
        if d.moved
        then record_action d.now action
            (text_append "Moved task " (
              text_append (format_int task) (
                text_append " in project "
                  (text_append (format_int project) (text_append " to " to)))))
            true (record e { projects = move_task task to e.projects })
        else record_action d.now action
            (text_append "Could not move task "
              (text_append (format_int task) (text_append " to " to)))
            false e
  ]

  unfoldable pub create_another_project : Engine F → Engine F
  create_another_project e =
      if leb 10 (length e.projects)
      then view_board e
      else elim (pick d.choice (eligible 0 e.teams)) [
        | none ↦ view_board e
        | some i ↦ create_project i e
      ]

  unfoldable pub run_action : Engine F → Engine F
  run_action e =
      if ltb d.roll 65
      then view_board e
      else if ltb d.roll 80
      then create_task (pos 0) e
      else if ltb d.roll 89
      then progress_task "todo" "in_progress" "start_task" e
      else if ltb d.roll 96
      then progress_task "in_progress" "done" "complete_task" e
      else create_another_project e
