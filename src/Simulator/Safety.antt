-- ===== src/Simulator/Safety.antt =====
-- internal/simulator/engine.go: the engine's operations in any order, and what they keep.
use noapp.Prelude.{
  ℕ, suc, ◌<◌, ◌≤◌, ◌≡◌, refl, String, Bool, true, false, Option, none, some, [], length,
  Bool-cases, inl, inr, arith, ℤ, ◌||◌, str_eq, if◌then◌else◌,
}
use noapp.Simulator.{Engine, new_engine, start, stop, set_speed, finish, begin_running}
use noapp.Simulator.Actions.{Draw, create_project, create_task, run_action}
use noapp.Simulator.Run.{Setup, fresh_teams, hire}
use noapp.Simulator.Teams.{owned-le}
use noapp.Simulator.Invariant.{Inv, run_action-Inv}
use noapp.Simulator.Bootstrap.{
  Ready, hire-Ready, create_project-Ready, create_task-Ready, fresh_teams-Ready,
}

-- Where the goroutine of a run is, if there is one: before the bootstrap, at the worker or the
-- project of a number, or in the loop of actions.
pub data Stage : Type 0 where
  idle starting looping : Stage
  hiring opening : ℕ → Stage

abbrev pub stage_after : Bool → Stage → Stage
stage_after true s = starting
stage_after false s = s

-- What the goroutine of a run and the handlers of the control server do to the engine. The bootstrap
-- is taken apart at its locks: other steps may come between its teams, each worker, each project and
-- each task. Wherever a run is, its context may have ended, and then it finishes.
pub data Step {F : Type 0} (low high : F → Bool) (e : Engine F)
    : Stage → Engine F → Stage → Type 0 where
  starts :
      {s : Stage} (health : Option String) (session : String) (now : ℤ)
      → Step low high e s
          (start health session now e).0
          (stage_after (start health session now e).1 s)
  stops : {s : Stage} → Step low high e s (stop e) s
  speeds : {s : Stage} (speed : F) → Step low high e s (set_speed low high speed e).0 s
  names :
      (name : ℕ → String)
      → Step low high e starting (record e { teams = fresh_teams name 5 0 }) (hiring 0)
  hires : (i : ℕ) (b : Setup) → i < 50 → Step low high e (hiring i) (hire b i e) (hiring (suc i))
  hired : Step low high e (hiring 50) e (opening 0)
  opens :
      (i : ℕ) (d : Draw)
      → i < 5
      → Step low high e (opening i) (create_project d i e) (opening (suc i))
  tasks : {i : ℕ} (d : Draw) (id : ℤ) → Step low high e (opening i) (create_task d id e) (opening i)
  begins : (session : String) → Step low high e (opening 5) (begin_running session e) looping
  acts : (d : Draw) → Step low high e looping (run_action d e) looping
  finishes : {s : Stage} (session : String) → Step low high e s (finish session e) idle

-- A history from an engine that does not run, with the stage at its end.
pub data Lives {F : Type 0} (low high : F → Bool) (e : Engine F) : Engine F → Stage → Type 0 where
  here : Lives low high e e idle
  next :
      {d f : Engine F} {s t : Stage}
      → Lives low high e d s
      → Step low high d s f t
      → Lives low high e f t

abbrev pub Reach : {F : Type 0} → (F → Bool) → (F → Bool) → Engine F → Engine F → Type 0
Reach low high e f = (s : Stage) × Lives low high e f s

-- What holds of the engine at a stage.
Good : {F : Type 0} → Stage → Engine F → Type 0
Good idle e = Inv e
Good starting e = Inv e × (e.projects ≡ [])
Good looping e = Inv e
Good (hiring i) e = Ready 0 e
Good (opening i) e = Ready i e

Good-Inv : {F : Type 0} (s : Stage) (e : Engine F) → Good s e → Inv e
unfolding Good
Good-Inv idle e g = g
Good-Inv starting e (i, none_yet) = i
Good-Inv looping e g = g
Good-Inv (hiring i) e r = r.inv
Good-Inv (opening i) e r = r.inv

-- A change of the control variables alone.
control-Inv :
    {F : Type 0} (running : Bool) (phase : String) (speed : F) (cancel : Option Bool) (e : Engine F)
    → Inv e
    → Inv (record e { running = running; phase = phase; speed = speed; cancel = cancel })
control-Inv running phase speed cancel e i = record {
  kept = i.kept;
  errors = i.errors;
  summed = i.summed;
  five = i.five;
  two_each = i.two_each;
  counted = i.counted;
  indexed = i.indexed;
}

control-Good :
    {F : Type 0} (s : Stage) (running : Bool) (phase : String) (speed : F) (cancel : Option Bool)
    (e : Engine F)
    → Good s e
    → Good s (record e { running = running; phase = phase; speed = speed; cancel = cancel })
unfolding Good
control-Good idle running phase speed cancel e g = control-Inv running phase speed cancel e g
control-Good starting running phase speed cancel e (i, none_yet) =
    (control-Inv running phase speed cancel e i, none_yet)
control-Good looping running phase speed cancel e g = control-Inv running phase speed cancel e g
control-Good (hiring i) running phase speed cancel e r = record {
  inv = control-Inv running phase speed cancel e r.inv;
  all_five = r.all_five;
  empty = r.empty;
}
control-Good (opening i) running phase speed cancel e r = record {
  inv = control-Inv running phase speed cancel e r.inv;
  all_five = r.all_five;
  empty = r.empty;
}

if-Inv : {F : Type 0} (b : Bool) (x y : Engine F) → Inv x → Inv y → Inv (if b then x else y)
if-Inv true x y i j = i
if-Inv false x y i j = j

if-Good :
    {F : Type 0} (s : Stage) (b : Bool) (x y : Engine F)
    → Good s x
    → Good s y
    → Good s (if b then x else y)
if-Good s true x y g h = g
if-Good s false x y g h = h

if_started-Good :
    {F : Type 0} (s : Stage) (b : Bool) (x y : Engine F × Bool)
    → Good (stage_after x.1 s) x.0
    → Good (stage_after y.1 s) y.0
    → Good (stage_after (if b then x else y).1 s) (if b then x else y).0
if_started-Good s true x y g h = g
if_started-Good s false x y g h = h

module _ {F : Type 0} (low high : F → Bool) where
  start-Good :
      (s : Stage) (health : Option String) (session : String) (now : ℤ) (e : Engine F)
      → Good s e
      → Good (stage_after (start health session now e).1 s) (start health session now e).0
  unfolding start Good
  start-Good s (some text) session now e g = g
  start-Good s none session now e g =
      if_started-Good s e.running (e, false) _ g
        (
          record {
            kept = omega arith;
            errors = omega arith;
            summed = refl;
            five = omega arith;
            two_each = tt;
            counted = refl;
            indexed = tt;
          },
          refl,
        )

  stop-Good : (s : Stage) (e : Engine F) → Good s e → Good s (stop e)
  unfolding stop
  stop-Good s e g = if-Good s e.running _ e (go e.cancel) g
    where
      go :
          (c : Option Bool)
          → Good s (elim c [
            | none ↦ e
            | some gone ↦ record e { phase = "stopping"; cancel = some true }
          ])
      go none = g
      go (some gone) = control-Good s e.running "stopping" e.speed (some true) e g

  set_speed-Good :
      (s : Stage) (speed : F) (e : Engine F) → Good s e → Good s (set_speed low high speed e).0
  unfolding set_speed
  set_speed-Good s speed e g = elim (Bool-cases (low speed || high speed)) [
    | inl h ↦ rw h g
    | inr h ↦ rw h (control-Good s e.running e.phase speed e.cancel e g)
  ]

  Step-Good : (e f : Engine F) (s t : Stage) → Step low high e s f t → Good s e → Good t f
  unfolding finish begin_running Good
  Step-Good e f s t (starts health session now) g = start-Good s health session now e g
  Step-Good e f s t stops g = stop-Good s e g
  Step-Good e f s t (speeds speed) g = set_speed-Good s speed e g
  Step-Good e f s t (names name) (i, none_yet) = fresh_teams-Ready name e none_yet i
  Step-Good e f s t (hires i b lt) r = hire-Ready b i 0 e r
  Step-Good e f s t hired r = r
  Step-Good e f s t (opens i d lt) r = create_project-Ready d i e lt r
  Step-Good e f s t (tasks {i} d id) r = create_task-Ready d i id e r
  Step-Good e f s t (begins session) r =
      if-Inv (str_eq e.session session) _ e
        (control-Inv e.running "running" e.speed e.cancel e r.inv) r.inv
  Step-Good e f s t (acts d) i = run_action-Inv d e i
  Step-Good e f s t (finishes session) g =
      let i = Good-Inv s e g in
      if-Inv (str_eq e.session session) _ e (control-Inv false "stopped" e.speed none e i) i

  -- In every history of the engine its books agree and its limits hold: it remembers at most thirty
  -- events, counts no more errors than actions, and the counters of the single actions add up to the
  -- total; there are at most five teams with at most two projects each, each project belongs to one of
  -- the teams, and there are at most ten projects.
  pub Reach-Limits :
      (speed : F) (e : Engine F)
      → Reach low high (new_engine speed) e
      → Inv e × (length e.projects ≤ 10)
  unfolding new_engine Good
  Reach-Limits speed e (s, reached) =
      let i = Good-Inv s e (go e s reached) in
      let five = i.five in
      let counted = i.counted in (i, omega (arith, owned-le e.teams i.two_each))
    where
      fresh : Inv (new_engine speed)
      fresh = record {
        kept = omega arith;
        errors = omega arith;
        summed = refl;
        five = omega arith;
        two_each = tt;
        counted = refl;
        indexed = tt;
      }

      go : (e : Engine F) (s : Stage) → Lives low high (new_engine speed) e s → Good s e
      go e s here = fresh
      go e t (next {d} {f} {s} r step) = Step-Good d e s t step (go d s r)
