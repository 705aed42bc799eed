-- ===== src/Process/Realtime.antt =====
-- cmd/realtime/main.go, apart from `consume` and `processRecord`.
use noapp.Prelude.{◌++◌, String, Option, none, some, List, [], ◌∷◌, pos, if◌then◌else◌, is_none}
use noapp.Json.{str, int, obj, field, end}
use noapp.Runtime.{Runtime}
use noapp.App.{Reply, write_json}
use noapp.Auth.{new_verifier}
use noapp.Realtime.{Hub, client_count}
use noapp.Process.{
  logs, metrics, traces, profiler, kafka, Resource, Act, served, result_error, Setup, Statement,
  opens, calls, defers, perform, open_logs, open_metrics, open_traces, open_profiler,
}
use noapp.Process.Server.{auth_config}
use noapp.Process.Relay.{text_field}

-- The errors of the instruments of NewHub, in their order.
pub record HubInstruments : Type 0 where
  pub connections : Option String
  pub authenticated : Option String
  pub deliveries : Option String
  pub dropped : Option String
  pub events : Option String
  pub latency : Option String

abbrev or_else : Option String → Option String → Option String
or_else none e = e
or_else (some e) _ = some e

-- NewHub, as far as it can fail.
unfoldable pub hub_refusal : HubInstruments → Option String
hub_refusal i = or_else i.connections (
    or_else i.authenticated (or_else i.deliveries (or_else i.dropped (or_else i.events i.latency))))

-- The errors of the hub's instruments and of the Kafka client.
pub record RealtimeSetup : Type 0 where
  pub setup : Setup
  pub instruments : HubInstruments
  pub new_kafka : Option String

-- The statements of initializeTelemetry. An error that it returns ends main.
abbrev pub initialize_telemetry : Setup → String → List Statement
initialize_telemetry s service =
    open_logs s service
    ∷ open_metrics s service
    ∷ open_traces s service
    ∷ open_profiler s service
    ∷ []

-- The function that initializeTelemetry returns: what it shuts down, in its order.
abbrev pub shutdown_telemetry : List Resource
shutdown_telemetry = profiler ∷ traces ∷ metrics ∷ logs ∷ []

unfoldable pub realtime_setup : Runtime → RealtimeSetup → List Statement
unfolding auth_config hub_refusal
realtime_setup rt s =
    initialize_telemetry s.setup "noapp-realtime"
    ++ defers shutdown_telemetry
      ∷ calls (result_error rt (new_verifier (auth_config s.setup.lookup)))
      ∷ calls (hub_refusal s.instruments)
      ∷ opens kafka s.new_kafka
      ∷ defers (kafka ∷ [])
      ∷ []

unfoldable pub realtime_main : Runtime → RealtimeSetup → List Act
realtime_main rt s = perform (realtime_setup rt s) [] (served ∷ [])

-- The health reply: the error of the ping, and the hub's clients.
unfoldable pub realtime_health : Option String → Hub → Reply
unfolding client_count
realtime_health broker hub = write_json (if is_none broker then 200 else 503) (
    some (
      obj (
        field "connections" (int (pos (client_count hub))) (
          text_field "kafka" broker
            (field "status" (str (if is_none broker then "ok" else "degraded")) end)))))
