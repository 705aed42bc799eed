-- ===== src/Process.antt =====
-- The programs under cmd/: what the four functions main have in common. A main is a set-up,
-- statement by statement, and a body; what it does is the list of its acts. Signals, the goroutines of
-- the HTTP servers, time-outs of the shutdown and log lines are left out.
pub mod Database
pub mod Server
pub mod Relay
pub mod Realtime
pub mod Simulator
pub mod Shutdown
pub mod Tests
use noapp.Telemetry.{
  Started, started, failed, ProfilerConfig, new_logger_for, new_meter_provider_for,
  new_tracer_provider_for, new_profiler,
}
use noapp.Runtime.{Runtime, Result, ok, err}
use noapp.Prelude.{
  ℕ, String, Bool, true, false, ◌||◌, Option, none, some, List, [], ◌∷◌, ◌++◌, map, str_eq,
  if◌then◌else◌,
}

-- What a main opens, and has a deferred call to close.
pub data Resource : Type 0 where
  logs metrics traces profiler pool kafka : Resource

pub data Act : Type 0 where
  opened : Resource → Act
  closed : Resource → Act
  -- The HTTP server has run until the context ended; the engine of the simulator is told to stop.
  served stopped : Act
  exited : ℕ → Act

-- os.Getenv gives the empty text for a variable that is not set.
unfoldable pub env : (String → String) → String → String → String
env lookup key fallback = if str_eq (lookup key) "" then fallback else lookup key

-- A statement of a set-up. What opens something may fail, as may a mere call; then main ends by
-- os.Exit(1). `defers` is a deferred call that closes resources in the order given.
pub data Statement : Type 0 where
  opens : Resource → Option String → Statement
  calls : Option String → Statement
  defers : List Resource → Statement

-- What a main does: its set-up, with what is deferred so far, the last first, and then the body, on
-- whose return the deferred calls run. os.Exit runs none of them.
unfoldable pub perform : List Statement → List Resource → List Act → List Act
perform [] deferred body = body ++ map closed deferred
perform (opens r none ∷ ss) deferred body = opened r ∷ perform ss deferred body
perform (opens r (some e) ∷ ss) deferred body = exited 1 ∷ []
perform (calls none ∷ ss) deferred body = perform ss deferred body
perform (calls (some e) ∷ ss) deferred body = exited 1 ∷ []
perform (defers rs ∷ ss) deferred body = perform ss (rs ++ deferred) body

abbrev pub start_error {ℓ} : {A : Type ℓ} → Started A → Option String
start_error (started a) = none
start_error (failed e) = some e

abbrev pub result_error {ℓ} : {A : Type ℓ} → Runtime → Result A → Option String
result_error rt (ok a) = none
result_error rt (err e) = some (rt.error_text e)

-- The environment, and the errors of the exporters, of their resources, and of the profiler.
pub record Setup : Type 0 where
  pub lookup : String → String
  pub log_exporter : Option String
  pub log_resource : Option String
  pub metric_exporter : Option String
  pub metric_resource : Option String
  pub trace_exporter : Option String
  pub trace_resource : Option String
  pub profiler_start : ProfilerConfig → Option String

module _ (s : Setup) (service : String) where
  abbrev pub environment : String
  environment = env s.lookup "APP_ENV" "development"

  abbrev pub open_logs : Statement
  open_logs =
      opens logs (start_error (new_logger_for s.log_exporter s.log_resource environment service))

  abbrev pub open_metrics : Statement
  open_metrics =
      opens metrics (
        start_error
          (new_meter_provider_for s.metric_exporter s.metric_resource environment service))

  abbrev pub open_traces : Statement
  open_traces =
      opens traces (
        start_error (new_tracer_provider_for s.trace_exporter s.trace_resource environment service))

  abbrev pub open_profiler : Statement
  open_profiler = opens profiler (
      start_error (
        new_profiler s.profiler_start (env s.lookup "PYROSCOPE_SERVER_ADDRESS" "") service
          environment))
