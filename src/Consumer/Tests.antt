-- ===== src/Consumer/Tests.antt =====
-- cmd/realtime/main.go: the theorems at a fetch of two records, one of them invalid.
use noapp.Prelude.{
  parse_int, trim_space, ◌+◌, ◌≡◌, refl, inl, [], ◌∷◌, In, some, none, pos, arith, true, false,
  contains,
}
use noapp.Json.{Json, null, json, malformed, Payload, obj, field, str, end, key_is, as_string}
use noapp.Database.{Database, done}
use noapp.Events.{encode_event, encode_task, new_task_event}
use noapp.Events.Insert.{new_row, add_row}
use noapp.Events.RoundTrip.{TaskFits}
use noapp.Realtime.{broadcast, Client, Hub, serving, no_principal, enqueue}
use noapp.Realtime.Invariant.{Inv}
use noapp.Realtime.Safety.{new_hub, here, Reach-Inv, no_metrics}
use noapp.App.{TaskInput, valid_status, path_id, parsed, decode_json, set_task_input_field}
use noapp.App.Tasks.{new_task, add_task, scan_task, no_input, normalise}
use noapp.App.Atomic.{Created}
use noapp.Consumer.{KafkaRecord, Fetch, Consumer, process_record, consume}
use noapp.Consumer.Delivery.{
  accepted_count, consume_events, accepted, broadcast_all, announcement, process_record-Created,
  decode-Created,
}
use noapp.Consumer.Browsers.{created_reaches_readers}
use noapp.Outbox.{Message}
use noapp.Outbox.Claim.{chosen, candidates, is_due}
use noapp.Outbox.Run.{run_batch}
use noapp.Outbox.Progress.{Healthy}
use noapp.Fixtures.{
  settings, round, relay, no_counts, epoch_runtime, epoch_runtime-KeepsTimes, sample_payload, board,
  calls,
}

abbrev good : KafkaRecord
good = record { partition = 0; offset = 4; value = sample_payload }

abbrev bad : KafkaRecord
bad = record { partition = 0; offset = 5; value = malformed "{" }

abbrev fetch : Fetch
fetch = record { errors = []; records = bad ∷ good ∷ []; commit = done }

abbrev idle : Consumer
idle = record { hub = new_hub; committed = [] }

consume_events_example :
    ((consume epoch_runtime (fetch ∷ []) idle).hub
      ≡ broadcast_all (accepted epoch_runtime (bad ∷ good ∷ [])) new_hub)
    × ((consume epoch_runtime (fetch ∷ []) idle).hub.metrics.events
        ≡ 0 + accepted_count epoch_runtime (bad ∷ good ∷ []))
    × Inv (consume epoch_runtime (fetch ∷ []) idle).hub
consume_events_example =
    consume_events epoch_runtime (fetch ∷ []) idle (Reach-Inv epoch_runtime new_hub here).0

abbrev new_input : TaskInput
new_input = record { title = "Ship it"; description = ""; assignee_id = none; status = "todo" }

abbrev new_json : Json
new_json = elim (encode_event epoch_runtime (announcement calls "ada" board (pos 1) new_input)) [
  | none ↦ null
  | some j ↦ j
]

abbrev after_creation : Database
after_creation =
    let db = add_task board (new_task 2 (pos 0) (pos 1) new_input) in
    add_row db
      (new_row 1 (pos 0) (announcement calls "ada" board (pos 1) new_input) (json new_json))

new_task-encodes :
    encode_event epoch_runtime (announcement calls "ada" board (pos 1) new_input) ≡ some new_json
unfolding encode_event encode_task new_task scan_task new_task_event
new_task-encodes = refl

valid_input : valid_status new_input.status ≡ true
unfolding valid_status
valid_input = refl

abbrev new_body : Payload
new_body = json (obj (field "title" (str " Ship it ") end))

addressed_sample : path_id "1" ≡ parsed (pos 1)
unfolding path_id parse_int
addressed_sample = refl

sent_sample :
    decode_json set_task_input_field calls no_input new_body
    ≡ parsed (record new_input { title = " Ship it "; status = "" })
unfolding decode_json set_task_input_field key_is as_string
sent_sample = refl

normalised_sample : new_input ≡ normalise (record new_input { title = " Ship it "; status = "" })
unfolding trim_space
normalised_sample = refl

sample_creation : Created epoch_runtime calls "ada" "1" new_body board after_creation
unfolding add_task
sample_creation = record {
  project = pos 1;
  addressed = addressed_sample;
  raw = record new_input { title = " Ship it "; status = "" };
  sent = sent_sample;
  input = new_input;
  normalised = normalised_sample;
  positive = omega arith;
  titled = refl;
  valid = valid_input;
  references = refl;
  recorded = record { payload = new_json; encodes = new_task-encodes; added = refl };
}

announced_task-TaskFits : TaskFits (announcement calls "ada" board (pos 1) new_input).task
unfolding new_task scan_task new_task_event
announced_task-TaskFits = (refl, refl, refl, λ n h. ground arith)

process_record-Created_example :
    process_record epoch_runtime
      (record { partition = 0; offset = 6; value = json new_json })
      new_hub
    ≡ broadcast (announcement calls "ada" board (pos 1) new_input) (json new_json) new_hub
unfolding sample_creation
process_record-Created_example =
    process_record-Created epoch_runtime calls "ada" "1" new_body board after_creation new_hub 0 6
      sample_creation epoch_runtime-KeepsTimes (λ e j h. refl) (λ e. cc) (omega arith)
      announced_task-TaskFits

-- A client that reads the project of the new task.
abbrev reader : Client
reader = record {
  id = 1;
  send = [];
  cancelled = false;
  writing = true;
  registered = true;
  phase = serving;
  principal = no_principal;
  subscriptions = pos 1 ∷ [];
  expires_at = pos 0;
}

abbrev read_hub : Hub
read_hub = record { clients = reader ∷ []; metrics = no_metrics }

healthy : Healthy epoch_runtime settings round after_creation.outbox
unfolding candidates is_due new_row add_task sample_creation
healthy = record {
  begins = refl;
  queries = refl;
  scans = refl;
  reads = refl;
  commits = refl;
  returns = λ x i. i;
  decodes = (
    (
      announcement calls "ada" board (pos 1) new_input,
      decode-Created epoch_runtime calls "ada" "1" new_body board after_creation sample_creation
          epoch_runtime-KeepsTimes (λ e j h. refl) (λ e. cc) (omega arith) announced_task-TaskFits,
    ),
    tt,
  );
  publishes = λ n m. refl;
  updates = λ n. refl;
}

chosen_sample :
    contains board.next_sequence (chosen settings round.claim after_creation.outbox) ≡ true
unfolding candidates is_due new_row add_task
chosen_sample = refl

created_reaches_readers_example :
    (m : Message) × In m
      (run_batch epoch_runtime round
        (record { rows = after_creation.outbox; log = []; metrics = no_counts })
        relay).0.log
    × (m.value ≡ json new_json)
    × In
        (enqueue m.value reader)
        (process_record epoch_runtime
          (record { partition = 0; offset = 6; value = m.value })
          read_hub).clients
unfolding sample_creation
created_reaches_readers_example =
    created_reaches_readers epoch_runtime calls "ada" "1" new_body board after_creation
      sample_creation round relay [] no_counts read_hub reader 0 6 epoch_runtime-KeepsTimes
      (λ e j h. refl) (λ e. cc) (omega arith) announced_task-TaskFits healthy chosen_sample
      (inl refl) refl refl
