-- ===== src/Process/Tests.antt =====
-- cmd/: a database that answers the third ping, and programs whose set-up succeeds or fails.
use noapp.Prelude.{suc, ℕ, ◌<◌, ◌≤◌, ◌≡◌, refl, false, none, some, [], ◌∷◌, ltb, if◌then◌else◌}
use noapp.Auth.{new_verifier}
use noapp.Telemetry.{new_logger_for, new_meter_provider_for, new_tracer_provider_for, new_profiler}
use noapp.Process.{
  env, perform, opened, closed, served, logs, metrics, traces, profiler, pool, exited, Setup,
}
use noapp.Process.Database.{wait_from, Pings, wait_for_database, wait_for_database_lem}
use noapp.Process.Server.{ServerSetup, server_setup, server_main}
use noapp.Process.Relay.{RelaySetup, relay_setup, relay_main}
use noapp.Process.Realtime.{RealtimeSetup}
use noapp.Fixtures.{epoch_runtime}

abbrev pings : Pings
pings = record {
  ping = λ n. if ltb n 2 then some "refused" else none;
  ended = λ n. false;
  context_error = "canceled";
}

wait_for_database_lem_example :
    ((n : ℕ)
      → n < 30
      → pings.ping n ≡ none
      → ((m : ℕ) → m < n → pings.ended m ≡ false)
      → (wait_for_database pings).error ≡ none)
    × ((wait_for_database pings).pings ≤ 30)
    × ((wait_for_database pings).error ≡ none
        → (m : ℕ) × (suc m ≡ (wait_for_database pings).pings) × (pings.ping m ≡ none))
wait_for_database_lem_example = wait_for_database_lem pings

abbrev setup : Setup
setup = record {
  lookup = λ key. "";
  log_exporter = none;
  log_resource = none;
  metric_exporter = none;
  metric_resource = none;
  trace_exporter = none;
  trace_resource = none;
  profiler_start = λ config. none;
}

abbrev server : ServerSetup
server = record {
  setup = setup;
  parse = none;
  new_pool = none;
  pings = pings;
  count = none;
  duration = none;
  decisions = none;
}

-- The Kafka client cannot be made.
abbrev relay : RelaySetup
relay = record {
  setup = setup;
  parse = none;
  new_pool = none;
  new_kafka = some "no seed brokers";
  hostname = "relay-1";
  instruments = [];
}

abbrev realtime : RealtimeSetup
realtime = record {
  setup = setup;
  instruments = record {
    connections = none;
    authenticated = none;
    deliveries = none;
    dropped = none;
    events = none;
    latency = some "no memory";
  };
  new_kafka = none;
}

server_returns :
    server_main epoch_runtime server
    ≡ opened logs
      ∷ opened metrics
      ∷ opened traces
      ∷ opened profiler
      ∷ opened pool
      ∷ served
      ∷ closed pool
      ∷ closed profiler
      ∷ closed traces
      ∷ closed metrics
      ∷ closed logs
      ∷ []
unfolding server_main server_setup perform new_logger_for new_meter_provider_for
    new_tracer_provider_for new_profiler wait_from new_verifier
server_returns = refl

relay_exits :
    relay_main epoch_runtime relay
    ≡ opened logs ∷ opened metrics ∷ opened traces ∷ opened profiler ∷ opened pool ∷ exited 1 ∷ []
unfolding relay_main relay_setup perform new_logger_for new_meter_provider_for
    new_tracer_provider_for new_profiler env
relay_exits = refl
