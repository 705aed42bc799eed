-- ===== src/Events/Tests.antt =====
-- internal/events/events.go: the theorems at a sample event.
use noapp.Prelude.{◌≡◌, ◌↔◌, refl, some, pos, arith}
use noapp.Events.{
  encode_event, encode_task, unmarshal_event, decode, event, new_task_event, task_created,
}
use noapp.Events.RoundTrip.{decode-event_iff, decode-encode_event, TaskFits, IsAccepted}
use noapp.Fixtures.{
  epoch_runtime, epoch_runtime-KeepsTimes, sample_task, sample_event, sample_json, sample_payload,
  no_trace,
}

encodes_sample : encode_event epoch_runtime sample_event ≡ some sample_json
unfolding encode_event encode_task
encodes_sample = refl

sample_task-fits : TaskFits sample_task
sample_task-fits = (refl, refl, refl, λ n h. ground arith)

made_sample :
    encode_event epoch_runtime
      (new_task_event "e-1" (pos 0) no_trace task_created "ada" sample_task)
    ≡ some sample_json
unfolding encode_event encode_task new_task_event
made_sample = refl

decode-encode_event_example : decode epoch_runtime sample_payload ≡ event sample_event
decode-encode_event_example =
    decode-encode_event epoch_runtime sample_event sample_json epoch_runtime-KeepsTimes
      (refl, refl, refl, refl, sample_task-fits) (refl, (λ e. cc), omega arith, omega arith)
      encodes_sample

decode-event_iff_example :
    (decode epoch_runtime sample_payload ≡ event sample_event)
    ↔ ((unmarshal_event epoch_runtime sample_payload ≡ some sample_event) × IsAccepted sample_event)
decode-event_iff_example = decode-event_iff epoch_runtime sample_payload sample_event
