-- ===== src/Consumer/Browsers.antt =====
-- From internal/app/server.go over internal/outbox/relay.go and cmd/realtime/main.go to
-- internal/realtime/hub.go: the way of a stored task to the browsers.
use noapp.Prelude.{
  ℕ, ◌≤◌, ◌≡◌, ◌≢◌, refl, sym, String, true, List, In, In-map_of_In, In-append_last, contains, ℤ,
}
use mathlib.Core.Path.{subst}
use noapp.Json.{Payload, json}
use noapp.Runtime.{Runtime, KeepsTimes}
use noapp.Database.{Database, OutboxRow}
use noapp.Events.{new_task_event, Envelope}
use noapp.Events.Insert.{new_row}
use noapp.Events.RoundTrip.{TaskFits}
use noapp.Outbox.{Relay, Message, Metrics}
use noapp.Outbox.Claim.{chosen}
use noapp.Outbox.Publish.{World}
use noapp.Outbox.Run.{Round, run_batch}
use noapp.Outbox.Progress.{Healthy}
use noapp.Outbox.Topic.{run_batch-IsSent}
use noapp.Realtime.{Hub, Client, is_addressee, has_room, enqueue, deliver, broadcast}
use noapp.App.{Calls}
use noapp.App.Tasks.{new_task, scan_task, add_task}
use noapp.App.Atomic.{Created}
use noapp.Consumer.{KafkaRecord, process_record}
use noapp.Consumer.Delivery.{KeepsEvents, announcement, process_record-Created}

deliver-enqueue :
    (project : ℤ) (payload : Payload) (c : Client)
    → is_addressee project c ≡ true
    → has_room c ≡ true
    → deliver project payload c ≡ enqueue payload c
deliver-enqueue project payload c wanted room = rw (wanted, room) refl

broadcast-enqueue :
    (e : Envelope) (payload : Payload) (h : Hub) (c : Client)
    → In c h.clients
    → is_addressee e.project_id c ≡ true
    → has_room c ≡ true
    → In (enqueue payload c) (broadcast e payload h).clients
unfolding broadcast
broadcast-enqueue e payload h c i wanted room =
    subst (λ d. In d (broadcast e payload h).clients)
      (deliver-enqueue e.project_id payload c wanted room)
      (In-map_of_In (deliver e.project_id payload) h.clients c i)

-- A record of the topic.
abbrev record_at : ℕ → ℕ → Payload → KafkaRecord
record_at partition offset value = record { partition = partition; offset = offset; value = value }

abbrev outbox_world : Database → List Message → Metrics → World
outbox_world db log metrics = record { rows = db.outbox; log = log; metrics = metrics }

module _ (rt : Runtime) (calls : Calls) (subject value : String) (body : Payload)
    (db db' : Database) (c : Created rt calls subject value body db db') where
  -- The row that announces the task.
  abbrev announcing_row : OutboxRow
  announcing_row =
      new_row db.next_sequence calls.now (announcement calls subject db c.project c.input)
        (json (rt.jsonb c.recorded.payload))

  announcing_row-In : In announcing_row db'.outbox
  unfolding add_task new_task
  announcing_row-In =
      subst (λ (d : Database). In announcing_row d.outbox) (sym c.recorded.added)
        (In-append_last db.outbox announcing_row)

  -- From the request to the browsers, if all goes well: let createTask have stored a task, with an
  -- event identifier that is not empty, a task number that is positive, integers that fit into an
  -- int64 and a text form of times that loses nothing; and let events decode from the JSONB column
  -- as they were stored. A round of a relay, all of whose calls succeed, whose RETURNING drops
  -- nothing, whose batch has only payloads of acceptable events, and which chooses the row that
  -- announces the task, leaves a message in the topic; and the consumer, when it comes to a record
  -- with the value of this message, appends this value, the payload of the row, to the channel of
  -- each registered client that is subscribed to the task's project and has room.
  pub created_reaches_readers :
      (round : Round) (relay : Relay) (log : List Message) (metrics : Metrics) (h : Hub)
      (reader : Client) (partition offset : ℕ)
      → KeepsTimes rt
      → KeepsEvents rt
      → calls.uuid ≢ ""
      → 1 ≤ db.next_task
      → TaskFits (announcement calls subject db c.project c.input).task
      → Healthy rt relay.config round db'.outbox
      → contains db.next_sequence (chosen relay.config round.claim db'.outbox) ≡ true
      → In reader h.clients
      → is_addressee c.project reader ≡ true
      → has_room reader ≡ true
      → (m : Message) × In m (run_batch rt round (outbox_world db' log metrics) relay).0.log
        × (m.value ≡ json (rt.jsonb c.recorded.payload))
        × In
            (enqueue m.value reader)
            (process_record rt (record_at partition offset m.value) h).clients
  unfolding new_row new_task_event new_task scan_task
  created_reaches_readers round relay log metrics h reader partition offset keeps reordered named
        numbered fits healthy hit i wanted room =
      let (m, sent, same) =
        run_batch-IsSent rt round (outbox_world db' log metrics) relay announcing_row healthy
          announcing_row-In hit in
      (
        m,
        sent,
        same,
        subst
            (λ v.
              In (enqueue v reader) (process_record rt (record_at partition offset v) h).clients)
            (sym same)
            (subst (λ (k : Hub). In (enqueue (json (rt.jsonb c.recorded.payload)) reader) k.clients)
              (sym (
                process_record-Created rt calls subject value body db db' h partition offset c keeps
                  reordered named numbered fits))
              (broadcast-enqueue (announcement calls subject db c.project c.input)
                (json (rt.jsonb c.recorded.payload)) h reader i wanted room)),
      )
