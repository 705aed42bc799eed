-- ===== src/Lib.antt =====
-- The Go services of noapp, a task board whose changes reach the browsers through an outbox, Kafka and
-- WebSockets, as functions, with the theorems that make them correct.
--
-- The parts, and how they meet. The API server (internal/app/server.go) changes tasks in PostgreSQL and
-- writes an event for each change into the table outbox_events within the same transaction
-- (internal/events/events.go). The relays (internal/outbox/relay.go) lease due events of that table,
-- publish them to Kafka and mark them. The consumer (cmd/realtime/main.go) reads them there and has the
-- realtime hub (internal/realtime/hub.go) pass them on to the WebSocket clients that have subscribed to
-- the project. The server and the hub ask the verifier
-- (internal/auth/verifier.go) who a token belongs to. The simulator (internal/simulator) is a load
-- generator: an engine that uses the API through a client with an access token, and that a control
-- server starts and stops. Each of the four programs has a main under cmd/ that sets up telemetry
-- (internal/telemetry), the database and Kafka, and closes them at its end.
--
-- Which file is about which part:
-- - Prelude: numbers, integers, lists, texts of the packages strings and strconv, Boolean tests.
-- - Json: JSON values and the decoding of encoding/json. Runtime: errors, times, results.
-- - Database: the tables of db/init.sql as lists of rows, and the answers of a statement.
-- - Events: Task, Envelope, NewTaskEvent, Decode. Events/Insert: InsertOutbox.
-- - Outbox: Config, New, retryDelay. Outbox/Claim: claim, Pending. Outbox/Publish: publishOne, fail.
--   Outbox/Run: runBatch, Run. Outbox/System: several relays, the API and crashes on one table, as a
--   relation of steps. Outbox/Drain: rounds in which all goes well.
-- - Auth: Config, Principal, claims, hasAudience. Auth/Keys: key, refresh. Auth/Verify: Verify.
-- - Realtime: the hub's state and operations. Realtime/Serve: ServeHTTP by messages, writeLoop by
--   rounds. Realtime/Safety: all of them as steps in any order. Realtime/Guarded: the same with the
--   verifier behind the hub. Realtime/Expiry: the end of a session in time.
-- - App: decodeJSON, pathID, replies. App/Tasks: createTask, updateTaskStatus. App/Handlers: the other
--   handlers. App/Server: authorize, the routes of New. App/RequestLog: requestLogger and its writer.
--   App/Verified: the server with the verifier behind it.
-- - Consumer: consume and processRecord of cmd/realtime/main.go. Consumer/Browsers: a stored task on its
--   way over the outbox, the relay and the topic to the clients of the hub.
-- - Simulator: the engine of internal/simulator/engine.go; Simulator/Actions and Simulator/Run: its
--   actions, bootstrap and run; Simulator/Safety: the steps of a run and of the control server in any
--   order; Simulator/Status: its snapshot.
-- - Simulator/Client: newAPIClient, do and accessToken of internal/simulator/client.go;
--   Simulator/Client/Requests: its calls. Simulator/Client/Arrivals: where they arrive in App/Server.
-- - Simulator/Server: NewHandler of internal/simulator/server.go.
-- - Telemetry: multiHandler of internal/telemetry/logs.go, and the set-up of the exporters.
-- - Process: what the mains share, with env. Process/Database: waitForDatabase. Process/Server,
--   Process/Relay, Process/Realtime, Process/Simulator: cmd/server/main.go, cmd/outbox-relay/main.go,
--   cmd/realtime/main.go and cmd/simulator/main.go.
-- - Fixtures and the modules Tests: runs and instances at concrete inputs.
--
-- How state is handled. An operation takes the state and the answers of the calls that it makes (a
-- record Calls: clock readings, errors of the database or the publisher, new identifiers) and returns
-- the state after it with its result. A statement may be refused, or take effect and lose its answer. A
-- lock makes an operation one step, so that interleavings are sequences of steps. The simulator's
-- bootstrap, which holds no lock throughout, is a step for each worker, project and task.
--
-- Recursion is structural throughout: on lists, texts and JSON values. The loop of Run takes a list of
-- rounds, the handler and the writer are one function per round. The one bound is that of format_int,
-- which prints up to twenty digits; an int64 has nineteen. The loops of the bootstrap run fifty and five
-- times, and that of waitForDatabase thirty times, as in the source.
--
-- Left out: log lines, spans, histograms, the static files of the web clients, signals and the
-- goroutines that run the HTTP servers, and the delay between the simulator's actions. Base64, RSA, the
-- text of JSON, the HTTP client, floats, the trace propagator, the handlers of slog, the ORDER BY of
-- the lists and the order in which a JSONB column gives back the members of an object are arguments. Gaps in the numbers of database sequences are left out, as are paths that
-- http.ServeMux cleans before it matches.
pub mod App
pub mod Auth
pub mod Consumer
pub mod Database
pub mod Events
pub mod Fixtures
pub mod Json
pub mod Outbox
pub mod Prelude
pub mod Process
pub mod Realtime
pub mod Runtime
pub mod Simulator
pub mod Telemetry
