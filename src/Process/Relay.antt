-- ===== src/Process/Relay.antt =====
-- cmd/outbox-relay/main.go.
use noapp.Prelude.{
  ◌++◌, ℕ, String, Option, none, some, List, [], ◌∷◌, pos, if◌then◌else◌, ◌&&◌, is_none,
}
use noapp.Json.{str, int, obj, Fields, field, end, Payload}
use noapp.Runtime.{Runtime, Result, ok, err}
use noapp.App.{Reply, write_json}
use noapp.Outbox.{Message, Config, new}
use noapp.Process.{
  logs, metrics, traces, profiler, pool, kafka, Resource, Act, served, result_error, Setup,
  Statement, opens, calls, defers, perform, open_logs, open_metrics, open_traces, open_profiler,
}

-- kgo.Record, as Publish makes it.
pub record ProducedRecord : Type 0 where
  pub topic : String
  pub key : String
  pub value : Payload
  pub headers : List (String × String)

-- kafkaPublisher.Publish, over ProduceSync with its FirstErr.
unfoldable pub kafka_publish : (ProducedRecord → Option String) → Message → Option String
kafka_publish produce m =
    produce (record { topic = m.topic; key = m.key; value = m.value; headers = m.headers })

-- The errors of ParseConfig, of NewWithConfig, of the Kafka client, and of the relay's instruments.
pub record RelaySetup : Type 0 where
  pub setup : Setup
  pub parse : Option String
  pub new_pool : Option String
  pub new_kafka : Option String
  pub hostname : String
  pub instruments : List (Option String)

-- A Config with WorkerID alone.
abbrev pub worker_config : String → Config
worker_config hostname = record {
  worker_id = hostname;
  batch_size = pos 0;
  poll_every = pos 0;
  claim_for = pos 0;
  max_backoff = pos 0;
  max_attempts = pos 0;
}

-- The statements of initializeTelemetry. An error that it returns ends main.
abbrev pub initialize_telemetry : Setup → String → List Statement
initialize_telemetry s service =
    open_logs s service
    ∷ open_metrics s service
    ∷ open_traces s service
    ∷ open_profiler s service
    ∷ []

-- The function that initializeTelemetry returns: what it shuts down, in its order.
abbrev pub shutdown_telemetry : List Resource
shutdown_telemetry = profiler ∷ traces ∷ metrics ∷ logs ∷ []

unfoldable pub relay_setup : Runtime → RelaySetup → List Statement
relay_setup rt s =
    initialize_telemetry s.setup "noapp-outbox-relay"
    ++ defers shutdown_telemetry
      ∷ calls s.parse
      ∷ opens pool s.new_pool
      ∷ defers (pool ∷ [])
      ∷ opens kafka s.new_kafka
      ∷ defers (kafka ∷ [])
      ∷ calls (result_error rt (new s.instruments (worker_config s.hostname)))
      ∷ []

unfoldable pub relay_main : Runtime → RelaySetup → List Act
relay_main rt s = perform (relay_setup rt s) [] (served ∷ [])

abbrev pub text_field : String → Option String → Fields → Fields
text_field key none rest = rest
text_field key (some text) rest = field key (str text) rest

abbrev pending_field : Result ℕ → Fields → Fields
pending_field (ok n) rest = field "outbox_pending" (int (pos n)) rest
pending_field (err e) rest = rest

-- The health reply: the errors of the two pings, and the count of what is pending. A map encodes with
-- its keys in order.
unfoldable pub relay_health : Option String → Option String → Result ℕ → Reply
relay_health database broker pending =
    let fine = is_none database && is_none broker in
    write_json (if fine then 200 else 503) (
      some (
        obj (
          text_field "database" database (
            text_field "kafka" broker (
              pending_field pending
                (field "status" (str (if fine then "ok" else "degraded")) end))))))
