-- ===== src/Simulator/Tests.antt =====
-- internal/simulator/engine.go: the theorem at a run in which every call succeeds. Speeds are in
-- hundredths.
use noapp.Prelude.{ℕ, ◌≤◌, ◌≡◌, ◌∷◌, refl, Bool, true, none, some, [], length, pos, ltb}
use noapp.Simulator.{Engine, new_engine, start}
use noapp.Simulator.Actions.{Draw}
use noapp.Simulator.Ends.{Stopped, run-Stopped}
use noapp.Simulator.Run.{run, Setup}
use noapp.Simulator.Invariant.{Inv}
use noapp.Simulator.Safety.{idle, starting, starts, Lives, Reach, here, next, Reach-Limits}
use noapp.Simulator.Runs.{run-Lives}

abbrev low : ℕ → Bool
low speed = ltb speed 25

abbrev high : ℕ → Bool
high speed = ltb 1000 speed

abbrev draw : Draw
draw = record {
  roll = 99;
  board = 0;
  worker = 0;
  choice = 0;
  now = pos 0;
  listed = true;
  project = some (pos 7);
  task = some (pos 8, "todo");
  moved = true;
}

abbrev setup : Setup
setup = record {
  name = λ i. "team";
  alive = λ i. true;
  user = λ i. some (pos i);
  now = λ i. pos i;
  still_alive = λ i. true;
  project = λ i. draw;
  first_task = λ i. draw;
  second_task = λ i. draw;
  alive_at_end = true;
}

abbrev started : Engine ℕ
started = (start none "s" (pos 0) (new_engine 100)).0

started-Lives : Lives low high (new_engine 100) started starting
unfolding start new_engine
started-Lives = next here (starts none "s" (pos 0))

abbrev ended : Engine ℕ
ended = run setup "s" (draw ∷ []) started

ended-Reach : Reach low high (new_engine 100) ended
ended-Reach =
    (idle, run-Lives low high setup "s" (draw ∷ []) (new_engine 100) started started-Lives)

Reach-Limits_example : Inv ended × (length ended.projects ≤ 10)
Reach-Limits_example = Reach-Limits low high 100 ended ended-Reach

started-session : started.session ≡ "s"
unfolding start new_engine
started-session = refl

run-Stopped_example : Stopped (run setup "s" (draw ∷ []) started)
run-Stopped_example = run-Stopped setup "s" (draw ∷ []) started started-session
