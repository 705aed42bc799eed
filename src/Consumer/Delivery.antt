-- ===== src/Consumer/Delivery.antt =====
-- cmd/realtime/main.go: what becomes of the records of the topic.
use noapp.Prelude.{
  some, ℕ, ◌+◌, ◌≤◌, ◌≡◌, ◌≢◌, refl, sym, ◌∙◌, String, Bool, true, false, List, [], ◌∷◌, ◌++◌,
  count_if, count_if-append, In, In-append, In-append_left, arith, ℤ, ◌⊎◌, inl, inr, if◌then◌else◌,
}
use noapp.Json.{Json, Payload, json}
use noapp.Runtime.{Runtime, KeepsTimes}
use noapp.Database.{Database, Answer, done, refused, lost}
use noapp.Events.{
  encode_event, Envelope, Decoded, decode, event, rejected, new_task_event, task_created,
}
use noapp.Events.RoundTrip.{TaskFits, decode-new_task_event}
use noapp.Realtime.{Hub, broadcast}
use noapp.Realtime.Invariant.{Inv, broadcast-Inv}
use noapp.App.{Calls, TaskInput}
use noapp.App.Tasks.{scan_task, new_task, add_task}
use noapp.App.Atomic.{Created}
use noapp.Consumer.{
  KafkaRecord, Fetch, Consumer, process_record, process_records, commit_records, commit_batch,
  consume_fetch, consume,
}

abbrev is_event : Decoded → Bool
is_event (event e) = true
is_event (rejected e) = false

-- The records of all fetches, in order.
abbrev pub fetched : List Fetch → List KafkaRecord
fetched [] = []
fetched (f ∷ fs) = f.records ++ fetched fs

abbrev pub accepted_count : Runtime → List KafkaRecord → ℕ
accepted_count rt = count_if (λ r. is_event (decode rt r.value))

process_record-events :
    (rt : Runtime) (r : KafkaRecord) (h : Hub)
    → (process_record rt r h).metrics.events
      ≡ h.metrics.events + (if is_event (decode rt r.value) then 1 else 0)
unfolding process_record broadcast
process_record-events rt r h = go (decode rt r.value) refl
  where
    go :
        (d : Decoded)
        → decode rt r.value ≡ d
        → (process_record rt r h).metrics.events
          ≡ h.metrics.events + (if is_event (decode rt r.value) then 1 else 0)
    go (event e) k = rw (k, process_record) (omega arith)
    go (rejected e) k = rw (k, process_record) (omega arith)

process_records-events :
    (rt : Runtime) (rs : List KafkaRecord) (h : Hub)
    → (process_records rt rs h).metrics.events ≡ h.metrics.events + accepted_count rt rs
unfolding process_records
process_records-events rt [] h = omega arith
process_records-events rt (r ∷ rs) h =
    let rest = process_records-events rt rs (process_record rt r h) in
    let head = process_record-events rt r h in ground (arith, rest, head)

process_record-Inv :
    (rt : Runtime) (r : KafkaRecord) (h : Hub) → Inv h → Inv (process_record rt r h)
unfolding process_record
process_record-Inv rt r h inv = go (decode rt r.value) refl
  where
    go : (d : Decoded) → decode rt r.value ≡ d → Inv (process_record rt r h)
    go (event e) k = rw (k, process_record) (broadcast-Inv e r.value h inv)
    go (rejected e) k = rw (k, process_record) inv

process_records-Inv :
    (rt : Runtime) (rs : List KafkaRecord) (h : Hub) → Inv h → Inv (process_records rt rs h)
unfolding process_records
process_records-Inv rt [] h inv = inv
process_records-Inv rt (r ∷ rs) h inv =
    process_records-Inv rt rs (process_record rt r h) (process_record-Inv rt r h inv)

-- The records that decode, in order, with their events.
abbrev pub accepted : Runtime → List KafkaRecord → List (Envelope × Payload)
accepted rt [] = []
accepted rt (r ∷ rs) =
    let rest = accepted rt rs in
    elim (decode rt r.value) [ rejected e ↦ rest | event e ↦ (e, r.value) ∷ rest ]

abbrev pub broadcast_all : List (Envelope × Payload) → Hub → Hub
broadcast_all [] h = h
broadcast_all ((e, payload) ∷ es) h = broadcast_all es (broadcast e payload h)

process_records-broadcasts :
    (rt : Runtime) (rs qs : List KafkaRecord) (h : Hub)
    → broadcast_all (accepted rt (rs ++ qs)) h
      ≡ broadcast_all (accepted rt qs) (process_records rt rs h)
unfolding process_records process_record
process_records-broadcasts rt [] qs h = refl
process_records-broadcasts rt (r ∷ rs) qs h =
    go (process_records-broadcasts rt rs qs) (decode rt r.value) refl
  where
    go :
        ((k : Hub)
          → broadcast_all (accepted rt (rs ++ qs)) k
            ≡ broadcast_all (accepted rt qs) (process_records rt rs k))
        → (d : Decoded) → decode rt r.value ≡ d
        → broadcast_all (accepted rt (r ∷ (rs ++ qs))) h
          ≡ broadcast_all (accepted rt qs) (process_records rt (r ∷ rs) h)
    go rest (event e) k = rw (k, process_record, accepted) (rest (broadcast e r.value h))
    go rest (rejected e) k = rw (k, process_record, accepted) (rest h)

-- The consumer leaves the hub as if the acceptable records of all fetches were broadcast, each once
-- and in their order, and nothing else, whatever becomes of the commits: the counter of events grows
-- by the number of records that `Decode` accepts. It keeps the invariant of the hub.
pub consume_events :
    (rt : Runtime) (fs : List Fetch) (c : Consumer)
    → Inv c.hub
    → ((consume rt fs c).hub ≡ broadcast_all (accepted rt (fetched fs)) c.hub)
      × ((consume rt fs c).hub.metrics.events
          ≡ c.hub.metrics.events + accepted_count rt (fetched fs))
      × Inv (consume rt fs c).hub
unfolding consume consume_fetch
consume_events rt [] c inv = (refl, omega arith, inv)
consume_events rt (f ∷ fs) c inv =
    let kept = process_records-Inv rt f.records c.hub inv in
    let (same, rest, after) = consume_events rt fs (consume_fetch rt f c) kept in
    let now = process_records-events rt f.records c.hub in
    let sum =
      count_if-append (λ (r : KafkaRecord). is_event (decode rt r.value)) f.records (fetched fs) in
    (
      same ∙ sym (process_records-broadcasts rt f.records (fetched fs) c.hub),
      omega (arith, rest, now, sum),
      after,
    )

commit_records-In :
    (a : Answer) (rs committed : List KafkaRecord) (r : KafkaRecord)
    → In r (commit_records a rs committed)
    → In r committed ⊎ In r rs
unfolding commit_records
commit_records-In done rs committed r i = In-append committed rs r i
commit_records-In (refused text) rs committed r i = inl i
commit_records-In (lost text) rs committed r i = In-append committed rs r i

commit_batch-In :
    (a : Answer) (rs committed : List KafkaRecord) (r : KafkaRecord)
    → In r (commit_batch a rs committed)
    → In r committed ⊎ In r rs
unfolding commit_batch
commit_batch-In a [] committed r i = inl i
commit_batch-In a (x ∷ rs) committed r i = commit_records-In a (x ∷ rs) committed r i

In-append_right : (rs qs : List KafkaRecord) (r : KafkaRecord) → In r qs → In r (rs ++ qs)
In-append_right [] qs r i = i
In-append_right (x ∷ rs) qs r i = inr (In-append_right rs qs r i)

-- A record whose offset is committed after any fetches was committed before them, or is one of the
-- records that they brought.
consume_commits :
    (rt : Runtime) (fs : List Fetch) (c : Consumer) (r : KafkaRecord)
    → In r (consume rt fs c).committed
    → In r c.committed ⊎ In r (fetched fs)
unfolding consume consume_fetch
consume_commits rt [] c r i = inl i
consume_commits rt (f ∷ fs) c r i = elim (consume_commits rt fs (consume_fetch rt f c) r i) [
  | inr j ↦ inr (In-append_right f.records (fetched fs) r j)
  | inl j ↦ elim (commit_batch-In f.commit f.records c.committed r j) [
    | inl k ↦ inl k
    | inr k ↦ inr (In-append_left f.records (fetched fs) r k)
  ]
]

-- The announcement of a created task.
abbrev pub announcement : Calls → String → Database → ℤ → TaskInput → Envelope
announcement calls subject db project i =
    let t = new_task db.next_task calls.now project i in
    new_task_event calls.uuid calls.wall calls.trace task_created subject
      (scan_task (add_task db t).users t)

-- What the JSONB column gives back for the JSON form of an event decodes as that form does.
abbrev pub KeepsEvents : Runtime → Type 0
KeepsEvents rt =
    (e : Envelope) (j : Json)
    → encode_event rt e ≡ some j
    → decode rt (json (rt.jsonb j)) ≡ decode rt (json j)

-- The payload that createTask left in the outbox decodes to the event that announces the task.
pub decode-Created :
    (rt : Runtime) (calls : Calls) (subject value : String) (body : Payload) (db db' : Database)
    (c : Created rt calls subject value body db db')
    → KeepsTimes rt
    → KeepsEvents rt
    → calls.uuid ≢ ""
    → 1 ≤ db.next_task
    → TaskFits (announcement calls subject db c.project c.input).task
    → decode rt (json (rt.jsonb c.recorded.payload))
      ≡ event (announcement calls subject db c.project c.input)
unfolding new_task_event new_task scan_task
decode-Created rt calls subject value body db db' c keeps reordered named numbered fits =
    reordered _ c.recorded.payload c.recorded.encodes
    ∙ decode-new_task_event rt calls.uuid calls.wall calls.trace task_created subject
        (announcement calls subject db c.project c.input).task c.recorded.payload keeps fits named
        (omega arith) c.positive c.recorded.encodes

-- From the request to the browsers: let createTask have stored a task, with an event identifier
-- that is not empty, a task number that is positive, integers that fit into an int64 and a text
-- form of times that loses nothing; and let events decode from the JSONB column as they were
-- stored. A record with the payload that it left in the outbox makes the consumer broadcast exactly
-- the event that announces this task, with this payload.
pub process_record-Created :
    (rt : Runtime) (calls : Calls) (subject value : String) (body : Payload) (db db' : Database)
    (h : Hub) (partition offset : ℕ) (c : Created rt calls subject value body db db')
    → KeepsTimes rt
    → KeepsEvents rt
    → calls.uuid ≢ ""
    → 1 ≤ db.next_task
    → TaskFits (announcement calls subject db c.project c.input).task
    → process_record rt
        (record {
          partition = partition;
          offset = offset;
          value = json (rt.jsonb c.recorded.payload);
        })
        h
      ≡ broadcast
          (announcement calls subject db c.project c.input)
          (json (rt.jsonb c.recorded.payload))
          h
unfolding process_record
process_record-Created rt calls subject value body db db' h partition offset c keeps reordered named
      numbered fits =
    rw
      (
        decode-Created rt calls subject value body db db' c keeps reordered named numbered fits,
        process_record,
      )
      refl
