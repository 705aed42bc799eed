-- ===== src/Events/RoundTrip.antt =====
-- internal/events/events.go: what is encoded decodes to itself.
use noapp.Prelude.{
  ◌↔◌, eq_ℤ_iff, String, ◌≡◌, ◌≢◌, refl, ◌∙◌, true, Option, none, some, inl, inr, ℤ, pos, ◌≤ℤ◌,
  in_int64, eq_iff, Option-cases, arith,
}
use noapp.Json.{Json, Fields, obj, Payload, json}
use noapp.Runtime.{Runtime, KeepsTimes}
use noapp.Events.{
  TraceContext, new_task_event, Task, Envelope, zero_task, omit_empty, omit_nil, task_fields,
  event_fields, encode_task, encode_event, set_task_fields, set_event_fields, unmarshal_event,
  as_task, decode, event, checked,
}

abbrev pub TaskFits : Task → Type 0
TaskFits t =
    (in_int64 t.id ≡ true)
    × (in_int64 t.project_id ≡ true)
    × (in_int64 t.version ≡ true)
    × ((n : ℤ) → t.assignee_id ≡ some n → in_int64 n ≡ true)

abbrev pub EnvelopeFits : Envelope → Type 0
EnvelopeFits e =
    (in_int64 e.schema_version ≡ true)
    × (in_int64 e.project_id ≡ true)
    × (in_int64 e.task_id ≡ true)
    × (in_int64 e.task_version ≡ true)
    × TaskFits e.task

module _ (rt : Runtime) where
  assignee_step :
      (a : Option ℤ) (rest : Fields) (t : Task)
      → t.assignee_id ≡ none
      → ((n : ℤ) → a ≡ some n → in_int64 n ≡ true)
      → set_task_fields rt (omit_nil "assignee_id" a rest) t
        ≡ set_task_fields rt rest (record t { assignee_id = a })
  unfolding as_task
  assignee_step none rest t h fits = ground arith
  assignee_step (some n) rest t h fits = rw (fits n refl)

  assignee_name_step :
      (s : String) (rest : Fields) (t : Task)
      → t.assignee_name ≡ ""
      → set_task_fields rt (omit_empty "assignee_name" s rest) t
        ≡ set_task_fields rt rest (record t { assignee_name = s })
  unfolding as_task
  assignee_name_step s rest t h = ground (arith, eq_iff s "")

  actor_step :
      (s : String) (rest : Fields) (e : Envelope)
      → e.actor_subject ≡ ""
      → set_event_fields rt (omit_empty "actor_subject" s rest) e
        ≡ set_event_fields rt rest (record e { actor_subject = s })
  unfolding unmarshal_event
  actor_step s rest e h = ground (arith, eq_iff s "")

  trace_parent_step :
      (s : String) (rest : Fields) (e : Envelope)
      → e.trace_parent ≡ ""
      → set_event_fields rt (omit_empty "traceparent" s rest) e
        ≡ set_event_fields rt rest (record e { trace_parent = s })
  unfolding unmarshal_event
  trace_parent_step s rest e h = ground (arith, eq_iff s "")

  trace_state_step :
      (s : String) (rest : Fields) (e : Envelope)
      → e.trace_state ≡ ""
      → set_event_fields rt (omit_empty "tracestate" s rest) e
        ≡ set_event_fields rt rest (record e { trace_state = s })
  unfolding unmarshal_event
  trace_state_step s rest e h = ground (arith, eq_iff s "")

module _ (rt : Runtime) (keeps : KeepsTimes rt) where
  as_task-encode_task :
      (t : Task) (j : Json)
      → TaskFits t
      → encode_task rt t ≡ some j
      → as_task rt j zero_task ≡ some t
  unfolding encode_task as_task
  as_task-encode_task t j (i, p, v, a) e = elim (Option-cases (rt.format_time t.created_at)) [
    | inl none_c ↦ absurd (ground arith)
    | inr (created, hc) ↦ elim (Option-cases (rt.format_time t.updated_at)) [
      | inl none_u ↦ absurd (ground arith)
      | inr (updated, hu) ↦
          let same : obj (task_fields t created updated) ≡ j = ground arith in
          rw (← same, i, p)
            (assignee_step rt t.assignee_id _ _ refl a
              ∙ assignee_name_step rt t.assignee_name _ _ refl
              ∙ rw (v, keeps t.created_at created hc, keeps t.updated_at updated hu) refl)
    ]
  ]

  -- Decoding reads back the encoded event, if its integers fit into an int64.
  pub unmarshal-encode_event :
      (e : Envelope) (j : Json)
      → EnvelopeFits e
      → encode_event rt e ≡ some j
      → unmarshal_event rt (json j) ≡ some e
  unfolding encode_event unmarshal_event
  unmarshal-encode_event e j (v, p, i, w, fits) h =
      elim (Option-cases (rt.format_time e.occurred_at)) [
        | inl none_o ↦ absurd (ground arith)
        | inr (occurred, ho) ↦ elim (Option-cases (encode_task rt e.task)) [
          | inl none_t ↦ absurd (ground arith)
          | inr (task, ht) ↦
              let same : obj (event_fields e occurred task) ≡ j = ground arith in
              rw (← same, v, p, i, w, keeps e.occurred_at occurred ho)
                (actor_step rt e.actor_subject _ _ refl
                  ∙ trace_parent_step rt e.trace_parent _ _ refl
                  ∙ trace_state_step rt e.trace_state _ _ refl
                  ∙ rw (as_task-encode_task e.task task fits ht))
        ]
      ]

-- The test of `Decode` in terms of numbers.
abbrev pub IsAccepted : Envelope → Type 0
IsAccepted e =
    (e.schema_version ≡ pos 1) × (e.event_id ≢ "") × (pos 1 ≤ℤ e.project_id) × (pos 1 ≤ℤ e.task_id)

checked_iff : (e f : Envelope) → (checked e ≡ event f) ↔ ((e ≡ f) × IsAccepted e)
unfolding checked
checked_iff e f = (
  λ h. ground (arith, eq_iff e.event_id "", eq_ℤ_iff e.schema_version (pos 1)),
  λ h. ground (arith, eq_iff e.event_id "", eq_ℤ_iff e.schema_version (pos 1)),
)

-- `decode` returns an envelope exactly when the payload unmarshals to it and it has the current
-- schema version, an event identifier, and positive project and task identifiers.
pub decode-event_iff :
    (rt : Runtime) (payload : Payload) (e : Envelope)
    → (decode rt payload ≡ event e) ↔ ((unmarshal_event rt payload ≡ some e) × IsAccepted e)
unfolding decode
decode-event_iff rt payload e = elim (Option-cases (unmarshal_event rt payload)) [
  | inl none_u ↦ (λ h. ground arith, λ h. ground arith)
  | inr (f, hu) ↦ (
    λ h. let (same, good) = (checked_iff f e).0 (ground arith) in ground arith,
    λ h.
        let same : f ≡ e = ground arith in
        rw (hu, decode) ((checked_iff f e).1 (same, rw same h.1)),
  )
]

-- Decoding the JSON form of an acceptable envelope gives the envelope back, if its integers fit
-- into an int64 and the text form of a time loses nothing.
pub decode-encode_event :
    (rt : Runtime) (e : Envelope) (j : Json)
    → KeepsTimes rt
    → EnvelopeFits e
    → IsAccepted e
    → encode_event rt e ≡ some j
    → decode rt (json j) ≡ event e
decode-encode_event rt e j keeps fits good h =
    (decode-event_iff rt (json j) e).1 (unmarshal-encode_event rt keeps e j fits h, good)

-- The same for the event that `new_task_event` makes, under a name that is not empty, of a task with
-- positive identifiers.
pub decode-new_task_event :
    (rt : Runtime) (uuid : String) (now : ℤ) (trace : TraceContext) (type subject : String)
    (t : Task) (j : Json)
    → KeepsTimes rt
    → TaskFits t
    → uuid ≢ ""
    → pos 1 ≤ℤ t.id
    → pos 1 ≤ℤ t.project_id
    → encode_event rt (new_task_event uuid now trace type subject t) ≡ some j
    → decode rt (json j) ≡ event (new_task_event uuid now trace type subject t)
unfolding new_task_event
decode-new_task_event rt uuid now trace type subject t j keeps fits u i p h =
    decode-encode_event rt (new_task_event uuid now trace type subject t) j keeps
      (refl, fits.1, fits.0, fits.2, fits) (refl, u, p, i) h
