-- ===== src/Outbox/Cases.antt =====
-- internal/outbox/relay.go: what one attempt of `publishOne` can do.
use noapp.Prelude.{◌≡◌, refl, sym, List, [], ◌∷◌, ◌++◌, map, inl, inr, Bool-cases, ◌==◌}
use mathlib.Core.List.{append-nil}
use noapp.Runtime.{Runtime, Error, publish}
use noapp.Events.{Envelope, Decoded, decode, event, rejected}
use noapp.Outbox.{Message, Config, ClaimedEvent}
use noapp.Outbox.Claim.{Answer, done, refused, lost}
use noapp.Outbox.Publish.{
  World, Calls, failed_row, published_row, message_of, fail, mark, send, publish_one, affected,
  logged,
}

-- The attempt is counted and the lease is given up, or nothing of the table changes; the topic may
-- have got the record.
pub data Outcome (rt : Runtime) (c : Config) (calls : Calls) (item : ClaimedEvent) (v w : World)
    : Type 0 where
  kept :
      (more : List Message) → w.rows ≡ v.rows → w.log ≡ v.log ++ more → Outcome rt c calls item v w
  retried :
      (cause : Error) (more : List Message)
      → w.rows ≡ map (failed_row rt c calls item cause) v.rows
      → w.log ≡ v.log ++ more
      → Outcome rt c calls item v w
  sent :
      (e : Envelope)
      → decode rt item.payload ≡ event e
      → calls.publish (message_of calls item e) ≡ done
      → w.rows ≡ map (published_row c calls item) v.rows
      → w.log ≡ v.log ++ message_of calls item e ∷ []
      → Outcome rt c calls item v w

module _ (rt : Runtime) (c : Config) (calls : Calls) (item : ClaimedEvent) where
  fail-Outcome :
      (cause : Error) (v w : World) (more : List Message) (a : Answer)
      → calls.update ≡ a
      → w.rows ≡ v.rows
      → w.log ≡ v.log ++ more
      → Outcome rt c calls item v (fail rt c calls item cause w).0
  unfolding fail
  fail-Outcome cause v w more done a e l = retried cause more (rw (a, e) refl) l
  fail-Outcome cause v w more (refused text) a e l = kept more (rw a e) l
  fail-Outcome cause v w more (lost text) a e l = retried cause more (rw (a, e) refl) l

  mark-Outcome :
      (v w : World) (e : Envelope) (a : Answer)
      → calls.update ≡ a
      → decode rt item.payload ≡ event e
      → calls.publish (message_of calls item e) ≡ done
      → w.rows ≡ v.rows
      → w.log ≡ v.log ++ message_of calls item e ∷ []
      → Outcome rt c calls item v (mark c calls item w).0
  unfolding mark message_of
  mark-Outcome v w e done a d p r l = elim (Bool-cases (affected c item w.rows == 1)) [
    | inl one ↦ rw (a, one) (sent e d p (rw r refl) l)
    | inr other ↦ rw (a, other) (sent e d p (rw r refl) l)
  ]
  mark-Outcome v w e (refused text) a d p r l = rw a (kept _ r l)
  mark-Outcome v w e (lost text) a d p r l = rw a (sent e d p (rw r refl) l)

  send-Outcome :
      (v : World) (e : Envelope) (a : Answer)
      → decode rt item.payload ≡ event e
      → calls.publish (message_of calls item e) ≡ a
      → Outcome rt c calls item v (send rt c calls item (message_of calls item e) a v).0
  unfolding send
  send-Outcome v e done d p =
      mark-Outcome v (logged v (message_of calls item e)) e calls.update refl d p refl refl
  send-Outcome v e (refused text) d p =
      fail-Outcome (publish text) v v [] calls.update refl refl (sym (append-nil v.log))
  send-Outcome v e (lost text) d p =
      fail-Outcome (publish text) v (logged v (message_of calls item e)) _ calls.update refl refl
        refl

  publish_one-Outcome_of :
      (v : World) (d : Decoded)
      → decode rt item.payload ≡ d
      → Outcome rt c calls item v (publish_one rt c calls item v).0
  unfolding publish_one
  publish_one-Outcome_of v (event e) d = rw (d, publish_one) (send-Outcome v e _ d refl)
  publish_one-Outcome_of v (rejected cause) d =
      rw (d, publish_one)
        (fail-Outcome cause v v [] calls.update refl refl (sym (append-nil v.log)))

-- An attempt leaves the table alone, or counts a failure, or marks the event as published; it does
-- the last only if the payload is an acceptable event and the publisher has acknowledged the message
-- made of it, which is then the last record of the topic. No record is ever taken off the topic.
pub publish_one-Outcome :
    (rt : Runtime) (c : Config) (calls : Calls) (item : ClaimedEvent) (v : World)
    → Outcome rt c calls item v (publish_one rt c calls item v).0
publish_one-Outcome rt c calls item v =
    publish_one-Outcome_of rt c calls item v (decode rt item.payload) refl
