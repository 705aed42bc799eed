-- ===== src/Simulator/Server/Tests.antt =====
-- internal/simulator/server.go and the snapshot: the theorems at an engine that has just started.
-- Speeds are in hundredths.
use noapp.Prelude.{
  ℕ, ◌/◌, ◌*◌, ◌≡◌, [], ◌∷◌, true, Option, none, some, pos, ltb, leb, count_if, str_eq,
}
use noapp.Json.{Json, int, obj, field, end, json}
use noapp.Simulator.{Engine, new_engine, start}
use noapp.Simulator.Safety.{starting, Reach, here, next, starts}
use noapp.Simulator.Status.{Status, status_of, count_at, all_tasks, status_counts}
use noapp.Simulator.Server.{Control, snapshot, serve_control}
use noapp.Simulator.Server.Replies.{WithinLimits, serve_control-Limits}

abbrev read : Json → ℕ → Option ℕ
read (int (pos n)) old = some (n * 100)
read _ old = none

abbrev control : Control ℕ
control = record {
  base = 2400;
  zero = 0;
  times = λ a b. a * b / 100;
  low = λ speed. ltb speed 25;
  high = λ speed. ltb 1000 speed;
  as_float = read;
  health = none;
  session = "s1";
  now = pos 0;
  static = λ method path. (404, "");
}

abbrev started : Engine ℕ
started = (start none "s1" (pos 0) (new_engine 100)).0

reached : Reach control.low control.high (new_engine 100) started
unfolding start new_engine
reached = (starting, next here (starts none "s1" (pos 0)))

serve_control-Limits_example :
    let (e', r) =
      serve_control control "PATCH" "/api/speed"
        (json (obj (field "multiplier" (int (pos 4)) end)))
        started in
    Reach control.low control.high (new_engine 100) e'
    × (leb 400 r.status ≡ true → e' ≡ started)
    × ((s : Status ℕ)
        → r.body ≡ snapshot s
        → (s ≡ status_of control.base control.times e') × WithinLimits s)
serve_control-Limits_example =
    serve_control-Limits control "PATCH" "/api/speed"
      (json (obj (field "multiplier" (int (pos 4)) end))) 100 started reached

abbrev busy : Engine ℕ
busy = record (new_engine 100) {
  projects =
      record {
        id = pos 1;
        team_index = 0;
        tasks =
            record { id = pos 1; status = "done" } ∷ record { id = pos 2; status = "todo" } ∷ [];
      }
      ∷ record { id = pos 2; team_index = 0; tasks = record { id = pos 3; status = "done" } ∷ [] }
      ∷ [];
}

status_counts_example :
    count_at "done" (status_of control.base control.times busy).tasks
    ≡ count_if (λ t. str_eq t.status "done") (all_tasks busy.projects)
status_counts_example = status_counts control.base control.times busy "done"
